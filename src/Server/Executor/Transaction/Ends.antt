-- ===== src/Server/Executor/Transaction/Ends.antt =====
-- volodbserver/Store/NDBMessageExecutor.cpp: when one request comes back.
use volo_db.Prelude.{ℕ, ◌≢◌, refl, Text, true, false, Option, none, some, List, [], ◌∷◌, All}
use volo_db.Proto.Column.{ColumnValue}
use volo_db.Proto.Operation.{StoreInfo}
use volo_db.Proto.Wire.{Codec, Message, set_operation, delete_operation, get_operation}
use volo_db.Frame.Utils.{is_definition_frame}
use volo_db.Frame.Decoder.{FrameMessagesTuple}
use volo_db.Server.Ndb.{
  Table, Operation, PreparedOperation, Event, Environment, M, pure, close_transaction,
}
use volo_db.Server.Ndb.Ends.{
  Ends, >>=-Ends, >>=-EndsIn, pure-Ends, if-Ends, call-Ends, start-Ends, last_error_message-Ends,
  last_error_code-Ends,
}
use volo_db.Server.Cache.Ends.{GoodIfAny, get_or_set-EndsIn}
use volo_db.Server.Executor.Definitions.Ends.{execute_definition-Ends, reply_with_result-Ends}
use volo_db.Server.Executor.Operations.Ends.{
  HasColumns, execute_set-Ends, execute_delete-Ends, execute_get-Ends,
}
use volo_db.Server.Executor.Transaction.{
  Progress, Defined, start_on, start_transaction, ensure_transaction, define_if,
  define_manipulation, on_store, with_no_columns, with_columns, define_operation, definition_error,
  fail, define_and_reply, keep_or_fail, execute_message, execute_messages, prepare, execute_tuple,
}

module _ (Good : Table → Type 0) where
  -- What the code relies on in a message: a manipulation names a store, and the columns by which a
  -- get filters are columns of every good table.
  abbrev pub IsRunnable : Message → Type 0
  IsRunnable (set_operation m) = m.store_info ≢ []
  IsRunnable (delete_operation m) = m.store_info ≢ []
  IsRunnable (get_operation m) =
      (m.store_info ≢ []) × ((table : Table) → Good table → HasColumns m.value table)
  IsRunnable _ = Unit

  module _ (env : Environment)
      (good : (t : List Event) (name : Text) → GoodIfAny Good (env.table t name)) where
    start_on-Ends :
        (columns : List ColumnValue) (table : Option Table) → Ends Good (start_on env columns table)
    unfolding start_on
    start_on-Ends columns none = pure-Ends Good none
    start_on-Ends columns (some table) = start-Ends Good env table _

    start_transaction-Ends :
        (columns : List ColumnValue) (name : Text) → Ends Good (start_transaction env columns name)
    unfolding start_transaction
    start_transaction-Ends columns name =
        >>=-EndsIn Good _ _ (get_or_set-EndsIn Good env good name)
          (λ table _. start_on-Ends columns table)

    ensure_transaction-Ends :
        (t : Option ℕ) (columns : List ColumnValue) (name : Text)
        → Ends Good (ensure_transaction env t columns name)
    unfolding ensure_transaction
    ensure_transaction-Ends none columns name = start_transaction-Ends columns name
    ensure_transaction-Ends (some t) columns name = pure-Ends Good (some t)

    define_if-Ends :
        (define : ℕ → M (Option (Operation × Option (List ℕ))))
        → ((t : ℕ) → Ends Good (define t))
        → (t : Option ℕ) → Ends Good (define_if env define t)
    unfolding define_if
    define_if-Ends define e none = pure-Ends Good _
    define_if-Ends define e (some t) = >>=-Ends Good _ _ (e t) (λ defined. pure-Ends Good _)

    define_manipulation-Ends :
        (t : Option ℕ) (columns : List ColumnValue) (name : Text)
        (define : ℕ → M (Option (Operation × Option (List ℕ))))
        → ((t : ℕ) → Ends Good (define t))
        → Ends Good (define_manipulation env t columns name define)
    unfolding define_manipulation
    define_manipulation-Ends t columns name define e =
        >>=-Ends Good _ _ (ensure_transaction-Ends t columns name) (define_if-Ends define e)

    on_store-Ends :
        (store_info : List StoreInfo) (f : Text → M Defined)
        → store_info ≢ []
        → ((name : Text) → Ends Good (f name))
        → Ends Good (on_store env store_info f)
    unfolding on_store
    on_store-Ends [] f h e = absurd (h refl)
    on_store-Ends (store_info ∷ _) f h e = e store_info.store_name

    with_no_columns-Ends :
        (m : M (Option Operation)) → Ends Good m → Ends Good (with_no_columns env m)
    with_no_columns-Ends m e = >>=-Ends Good m _ e λ operation.
        elim operation
          as (λ o. Ends Good (elim o [ none ↦ pure none | some p ↦ pure (some (p, none)) ])) [
            | none ↦ pure-Ends Good none
            | some o ↦ pure-Ends Good _
          ]

    with_columns-Ends :
        (m : M (Option (Operation × List ℕ))) → Ends Good m → Ends Good (with_columns env m)
    with_columns-Ends m e = >>=-Ends Good m _ e λ operation.
        elim operation
          as (λ o.
            Ends Good
              (elim o [ none ↦ pure none | some (p, columns) ↦ pure (some (p, some columns)) ])) [
                | none ↦ pure-Ends Good none
                | some o ↦ pure-Ends Good _
              ]

    define_operation-Ends :
        (t : Option ℕ) (m : Message) → IsRunnable m → Ends Good (define_operation env t m)
    unfolding define_operation
    define_operation-Ends t (set_operation m) h = on_store-Ends m.store_info _ h λ name.
        define_manipulation-Ends t m.primary_key name _
          λ t. with_no_columns-Ends _ (execute_set-Ends Good env name m t)
    define_operation-Ends t (delete_operation m) h = on_store-Ends m.store_info _ h λ name.
        define_manipulation-Ends t m.primary_key name _
          λ t. with_no_columns-Ends _ (execute_delete-Ends Good env name m t)
    define_operation-Ends t (get_operation m) h = on_store-Ends m.store_info _ h.0 λ name.
        define_manipulation-Ends t m.primary_key name _
          λ t. with_columns-Ends _ (execute_get-Ends Good env good name m t h.1)
    define_operation-Ends t _ h = pure-Ends Good _

    module _ (codec : Codec) (thread_no : ℕ) (tuple : FrameMessagesTuple) where
      fail-Ends : (t : Option ℕ) → Ends Good (fail env codec thread_no tuple t)
      unfolding fail
      fail-Ends none =
          >>=-Ends Good _ _ (reply_with_result-Ends Good codec _ tuple.envelope)
            (λ _. pure-Ends Good tt)
      fail-Ends (some t) = >>=-Ends Good _ _ (last_error_message-Ends Good env) λ message.
          >>=-Ends Good _ _ (last_error_code-Ends Good env) λ code.
            >>=-Ends Good _ _ (call-Ends Good (close_transaction t)) λ _.
              >>=-Ends Good _ _
                (reply_with_result-Ends Good codec (definition_error tuple.id message code)
                  tuple.envelope)
                (λ _. pure-Ends Good tt)

      define_and_reply-Ends :
          (m : Message) → Ends Good (define_and_reply env codec thread_no tuple m)
      unfolding define_and_reply
      define_and_reply-Ends m =
          >>=-Ends Good _ _ (execute_definition-Ends Good env tuple.id m) λ res.
            >>=-Ends Good _ _ (reply_with_result-Ends Good codec _ tuple.envelope)
              (λ _. pure-Ends Good tt)

      keep_or_fail-Ends :
          (m : Message) (operations : List PreparedOperation) (t : Option ℕ)
          (defined : Option (Operation × Option (List ℕ)))
          → Ends Good (keep_or_fail env codec thread_no tuple m operations t defined)
      unfolding keep_or_fail
      keep_or_fail-Ends m operations t none =
          >>=-Ends Good _ _ (fail-Ends t) (λ _. pure-Ends Good none)
      keep_or_fail-Ends m operations t (some (operation, columns)) = pure-Ends Good _

      execute_message-Ends :
          (m : Message) (progress : Progress)
          → IsRunnable m
          → Ends Good (execute_message env codec thread_no tuple m progress)
      unfolding execute_message
      execute_message-Ends m progress h =
          if-Ends Good (is_definition_frame m) _ _
            (>>=-Ends Good _ _ (define_and_reply-Ends m) (λ _. pure-Ends Good (some progress)))
            (>>=-Ends Good _ _ (define_operation-Ends progress.transaction m h) λ defined.
              keep_or_fail-Ends m progress.operations defined.transaction defined.new_operation)

      execute_messages-Ends :
          (ms : List Message) (progress : Progress)
          → All IsRunnable ms
          → Ends Good (execute_messages env codec thread_no tuple ms progress)
      unfolding execute_messages
      execute_messages-Ends [] progress h = pure-Ends Good progress
      execute_messages-Ends (m ∷ ms) progress h =
          >>=-Ends Good _ _ (execute_message-Ends m progress h.0) λ next.
            elim next
              as (λ n. Ends Good {A = Progress} (elim n [
                | none ↦ pure (record { transaction = none; operations = progress.operations })
                | some p ↦ execute_messages env codec thread_no tuple ms p
              ])) [
                | none ↦
                    pure-Ends Good (record { transaction = none; operations = progress.operations })
                | some p ↦ execute_messages-Ends ms p h.1
              ]

      prepare-Ends :
          (operations : List PreparedOperation) (t : Option ℕ)
          → Ends Good (prepare env codec thread_no tuple operations t)
      unfolding prepare
      prepare-Ends operations none = pure-Ends Good false
      prepare-Ends operations (some t) =
          >>=-Ends Good _ _ (call-Ends Good _) (λ _. pure-Ends Good true)

      pub execute_tuple-Ends :
          All IsRunnable tuple.messages → Ends Good (execute_tuple env codec thread_no tuple)
      unfolding execute_tuple
      execute_tuple-Ends h =
          >>=-Ends Good _ _ (execute_messages-Ends tuple.messages _ h)
            (λ p. prepare-Ends p.operations p.transaction)
