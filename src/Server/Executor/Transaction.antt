-- ===== src/Server/Executor/Transaction.antt =====
-- volodbserver/Store/NDBMessageExecutor.cpp: one request, which is a list of operations that run in
-- one transaction.
pub mod Account
pub mod Starts
pub mod Rounds
pub mod Requests
pub mod Ends
pub mod Total
pub mod Prepared
pub mod Sent
use volo_db.Prelude.{
  ℕ, ◌+◌, ℤ, pos, Text, Bool, true, false, Option, none, some, List, [], ◌∷◌, ◌++◌, codes, ltb,
  get_or, is_some, if◌then◌else◌,
}
use volo_db.Prelude.Outcome.{ok}
use volo_db.Proto.Column.{ColumnValue}
use volo_db.Proto.Operation.{StoreInfo}
use volo_db.Proto.Frame.{FrameItemType}
use volo_db.Proto.Result.{Result}
use volo_db.Proto.Wire.{Codec, Message, set_operation, delete_operation, get_operation}
use volo_db.Frame.Utils.{get_frame_type, is_definition_frame}
use volo_db.Frame.Decoder.{FrameMessagesTuple}
use volo_db.Server.Ndb.{
  Table, KeyPart, Operation, PreparedOperation, Environment, World, M, ◌>>=◌, ◌>>◌, pure, fault,
  call, start, last_error_message, last_error_code, execute_asynch_prepare, close_transaction,
}
use volo_db.Server.Cache
use volo_db.Server.Processor.{get_hint, get_no_distribution_key_indexes}
use volo_db.Server.Executor.Reply.{make_result_for_error, reply_with_result}
use volo_db.Server.Executor.Definitions.{execute_definition}
use volo_db.Server.Executor.Operations.{execute_set, execute_delete, execute_get}

-- What the loop over the messages carries: the transaction, or the null pointer, and the operations.
pub record Progress : Type 0 where
  pub transaction : Option ℕ
  pub operations : List PreparedOperation

-- What one manipulation leaves: the transaction, and the operation with the columns that it reads,
-- or the null pointer.
pub record Defined : Type 0 where
  pub transaction : Option ℕ
  pub new_operation : Option (Operation × Option (List ℕ))

abbrev pub not_started : Text
not_started =
    codes
      "Unable to start transaction. Verify that store name and distribution key information was provided correctly."

abbrev pub not_defined : Text
not_defined =
    codes
      "Transaction started successfully, but error occured while adding query. Verify that columns flagged as primary or distributed keys and their corresponding types are correct."

abbrev pub unknown_definition : Text → Result
unknown_definition id =
    make_result_for_error id (codes "Failed to run definition operation.") (pos 0)

abbrev pub definition_error : Text → Text → ℤ → Result
definition_error id message code =
    make_result_for_error id (not_defined ++ (codes " Internal error: " ++ message)) code

module _ (env : Environment) where
  start_on : List ColumnValue → Option Table → M (Option ℕ)
  unfolding start get_hint get_no_distribution_key_indexes
  start_on columns none = pure none
  start_on columns (some table) =
      start env table
        (if ltb 0 (get_no_distribution_key_indexes columns) then get_hint columns else [])

  -- _startTransaction: with a hint where there are distribution keys.
  unfoldable pub start_transaction : List ColumnValue → Text → M (Option ℕ)
  unfolding start_on Cache.get_or_set
  start_transaction columns store_name = do
    table ← Cache.get_or_set env store_name
    start_on columns table

  -- `if(!transaction) transaction = _startTransaction(...)`.
  unfoldable pub ensure_transaction : Option ℕ → List ColumnValue → Text → M (Option ℕ)
  unfolding start_transaction
  ensure_transaction (some transaction) columns store_name = pure (some transaction)
  ensure_transaction none columns store_name = start_transaction columns store_name

  define_if : (ℕ → M (Option (Operation × Option (List ℕ)))) → Option ℕ → M Defined
  define_if define none = pure (record { transaction = none; new_operation = none })
  define_if define (some transaction) = do
    defined ← define transaction
    pure (record { transaction = some transaction; new_operation = defined })

  -- One manipulation of the named store, in the transaction that there is or that it starts.
  define_manipulation :
      Option ℕ
      → List ColumnValue
      → Text
      → (ℕ → M (Option (Operation × Option (List ℕ))))
      → M Defined
  unfolding ensure_transaction define_if
  define_manipulation transaction columns store_name define = do
    t ← ensure_transaction transaction columns store_name
    define_if define t

  -- `store_info(0)`; `fault` where the operation names no store.
  on_store : List StoreInfo → (Text → M Defined) → M Defined
  on_store [] f = fault
  on_store (store_info ∷ _) f = f store_info.store_name

  abbrev with_no_columns : M (Option Operation) → M (Option (Operation × Option (List ℕ)))
  with_no_columns m =
      m >>= λ operation. elim operation [ none ↦ pure none | some o ↦ pure (some (o, none)) ]

  abbrev with_columns : M (Option (Operation × List ℕ)) → M (Option (Operation × Option (List ℕ)))
  with_columns m = m >>= λ operation. elim operation [
    | none ↦ pure none
    | some (o, columns) ↦ pure (some (o, some columns))
  ]

  -- The branches for SET, DELETE and GET; no other type defines an operation.
  unfoldable pub define_operation : Option ℕ → Message → M Defined
  unfolding define_manipulation on_store execute_set execute_delete execute_get
  define_operation transaction (set_operation m) = on_store m.store_info λ name.
      define_manipulation transaction m.primary_key name
        λ t. with_no_columns (execute_set env name m t)
  define_operation transaction (delete_operation m) = on_store m.store_info λ name.
      define_manipulation transaction m.primary_key name
        λ t. with_no_columns (execute_delete env name m t)
  define_operation transaction (get_operation m) = on_store m.store_info λ name.
      define_manipulation transaction m.primary_key name
        λ t. with_columns (execute_get env name m t)
  define_operation transaction _ = pure (record { transaction = transaction; new_operation = none })

  module _ (codec : Codec) (thread_no : ℕ) (tuple : FrameMessagesTuple) where
    -- The error branch: the answer, and the end of the transaction if one was started.
    fail : Option ℕ → M (Unit {0})
    unfolding last_error_message last_error_code make_result_for_error call
    fail (some transaction) = do
      message ← last_error_message env
      code ← last_error_code env
      call (close_transaction transaction)
      reply_with_result codec (definition_error tuple.id message code) tuple.envelope
      pure tt
    fail none = do
      reply_with_result codec (make_result_for_error tuple.id not_started (pos 0)) tuple.envelope
      pure tt

    -- A definition operation is run and answered at once.
    define_and_reply : Message → M (Unit {0})
    unfolding execute_definition make_result_for_error
    define_and_reply message = do
      res ← execute_definition env tuple.id message
      reply_with_result codec (get_or (unknown_definition tuple.id) res) tuple.envelope
      pure tt

    -- After a manipulation: the progress to go on with, or none after `break`.
    keep_or_fail :
        Message
        → List PreparedOperation
        → Option ℕ
        → Option (Operation × Option (List ℕ))
        → M (Option Progress)
    unfolding fail get_frame_type
    keep_or_fail message operations transaction none = do fail transaction; pure none
    keep_or_fail message operations transaction (some (operation, columns)) = pure (
        some (record {
          transaction = transaction;
          operations =
              operations
              ++ record {
                type = get_frame_type message;
                operation = operation;
                columns = columns;
                thread_no = thread_no;
              }
                ∷ [];
        }))

    -- One round of the loop.
    pub execute_message : Message → Progress → M (Option Progress)
    unfolding define_and_reply keep_or_fail define_operation is_definition_frame
    execute_message message progress =
        if is_definition_frame message
        then (define_and_reply message >> pure (some progress))
        else (define_operation progress.transaction message >>= λ defined.
            keep_or_fail message progress.operations defined.transaction defined.new_operation)

    -- The loop; the result is the transaction and the operations after it.
    execute_messages : List Message → Progress → M Progress
    unfolding execute_message
    execute_messages [] progress = pure progress
    execute_messages (message ∷ messages) progress = execute_message message progress >>= elim [
      | none ↦ pure (record { transaction = none; operations = progress.operations })
      | some p ↦ execute_messages messages p
    ]

    -- What follows a round of the loop.
    abbrev follow : Progress → List Message → Option Progress → M Progress
    follow progress messages = elim [
      | none ↦ pure (record { transaction = none; operations = progress.operations })
      | some p ↦ execute_messages messages p
    ]

    prepare : List PreparedOperation → Option ℕ → M Bool
    unfolding call
    prepare operations none = pure false
    prepare operations (some transaction) = do
      call (execute_asynch_prepare transaction tuple.id tuple.envelope operations)
      pure true

    -- execute(messagesTuple): true if a transaction is left for NDB to run.
    unfoldable pub execute_tuple : M Bool
    unfolding execute_messages prepare
    execute_tuple = do
      progress ← execute_messages tuple.messages (record { transaction = none; operations = [] })
      prepare progress.operations progress.transaction
