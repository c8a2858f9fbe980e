-- ===== src/Server/Executor/Transaction/Prepared.antt =====
-- volodbserver/Store/NDBMessageExecutor.cpp: the operations that a request hands over to NDB.
use volo_db.Prelude.{
  ℕ, ◌≡◌, refl, sym, ◌∙◌, Text, Bool, true, false, Option, none, some, List, [], ◌∷◌, ◌++◌, arith,
  append_assoc, append-nil, Bool-cases, inl, inr, is_some, ap,
}
use volo_db.Prelude.Outcome.{ok}
use volo_db.Proto.Column.{ColumnValue}
use volo_db.Proto.Operation.{StoreInfo}
use volo_db.Proto.Frame.{get}
use volo_db.Proto.Wire.{Codec, Message, set_operation, delete_operation, get_operation}
use volo_db.Frame.Utils.{is_definition_frame, get_frame_type, is_type}
use volo_db.Frame.Decoder.{FrameMessagesTuple}
use volo_db.Server.Ndb.{
  Operation, PreparedOperation, World, Environment, M, pure, >>=-eq_ok, execute_asynch_prepare,
  Event,
}
use volo_db.Server.Executor.Operations.{execute_set, execute_delete, execute_get}
use volo_db.Server.Executor.Transaction.{
  Progress, Defined, ensure_transaction, define_if, define_manipulation, on_store, with_no_columns,
  with_columns, define_operation, fail, keep_or_fail, execute_message, execute_messages, follow,
  prepare, execute_tuple,
}
use volo_db.Server.Executor.Transaction.Rounds.{definition_lem}

-- Whether a manipulation reads columns.
unfoldable pub is_read : Message → Bool
unfolding get_frame_type is_type
is_read message = is_type (get_frame_type message) get

-- An operation that does what the message says, for the thread.
pub record Does (thread_no : ℕ) (message : Message) (o : PreparedOperation) : Type 0 where
  pub same_type : o.type ≡ get_frame_type message
  pub same_thread : o.thread_no ≡ thread_no
  pub reads : is_some o.columns ≡ is_read message

-- The operations for the manipulations among the messages, in their order; a definition has none.
pub data Prepared (thread_no : ℕ) : List Message → List PreparedOperation → Type 0 where
  ended : Prepared thread_no [] []
  run_at_once :
      {message : Message} {messages : List Message} {operations : List PreparedOperation}
      → is_definition_frame message ≡ true
      → Prepared thread_no messages operations
      → Prepared thread_no (message ∷ messages) operations
  prepared :
      {message : Message} {messages : List Message} {o : PreparedOperation}
      {operations : List PreparedOperation}
      → is_definition_frame message ≡ false
      → Does thread_no message o
      → Prepared thread_no messages operations
      → Prepared thread_no (message ∷ messages) (o ∷ operations)

-- What is defined, if anything is, reads columns as it should.
abbrev Reads : Bool → Option (Operation × Option (List ℕ)) → Type 0
Reads b = elim [ none ↦ Unit | some (o, columns) ↦ is_some columns ≡ b ]

module _ (env : Environment) where
  no_columns-Reads :
      (o : Option Operation) (w w' : World) (r : Option (Operation × Option (List ℕ)))
      → elim o as (λ _. M (Option (Operation × Option (List ℕ)))) [
        | none ↦ pure none
        | some o ↦ pure (some (o, none))
      ]
          w
        ≡ ok (r, w')
      → Reads false r
  no_columns-Reads none w w' none e = tt
  no_columns-Reads none w w' (some (o, columns)) e = cc
  no_columns-Reads (some o) w w' none e = tt
  no_columns-Reads (some o) w w' (some (o', columns)) e = ground arith

  with_no_columns-Reads :
      (m : M (Option Operation)) (w w' : World) (r : Option (Operation × Option (List ℕ)))
      → with_no_columns env m w ≡ ok (r, w')
      → Reads false r
  with_no_columns-Reads m w w' r e =
      let (o, v, p, q) = >>=-eq_ok m _ w e in no_columns-Reads o v w' r q

  columns-Reads :
      (o : Option (Operation × List ℕ)) (w w' : World) (r : Option (Operation × Option (List ℕ)))
      → elim o as (λ _. M (Option (Operation × Option (List ℕ)))) [
        | none ↦ pure none
        | some (o, columns) ↦ pure (some (o, some columns))
      ]
          w
        ≡ ok (r, w')
      → Reads true r
  columns-Reads none w w' none e = tt
  columns-Reads none w w' (some (o, columns)) e = cc
  columns-Reads (some (o, c)) w w' none e = tt
  columns-Reads (some (o, c)) w w' (some (o', columns)) e = ground arith

  with_columns-Reads :
      (m : M (Option (Operation × List ℕ))) (w w' : World)
      (r : Option (Operation × Option (List ℕ)))
      → with_columns env m w ≡ ok (r, w')
      → Reads true r
  with_columns-Reads m w w' r e = let (o, v, p, q) = >>=-eq_ok m _ w e in columns-Reads o v w' r q

  -- What one branch defines reads as its own calls do.
  AllRead : Bool → (ℕ → M (Option (Operation × Option (List ℕ)))) → Type 0
  AllRead b define =
      (t : ℕ) (w w' : World) (r : Option (Operation × Option (List ℕ)))
      → define t w ≡ ok (r, w')
      → Reads b r

  nothing-Reads :
      (b : Bool) (t : Option ℕ) (w w' : World) (d : Defined)
      → pure (record { transaction = t; new_operation = none }) w ≡ ok (d, w')
      → Reads b d.new_operation
  nothing-Reads b t w w' d e = let same : none ≡ d.new_operation = ground arith in rw (sym same) tt

  define_if-Reads :
      (b : Bool) (define : ℕ → M (Option (Operation × Option (List ℕ)))) (t : Option ℕ)
      (w w' : World) (d : Defined)
      → AllRead b define
      → define_if env define t w ≡ ok (d, w')
      → Reads b d.new_operation
  unfolding define_if AllRead
  define_if-Reads b define none w w' d h e = nothing-Reads b none w w' d e
  define_if-Reads b define (some t) w w' d h e =
      let (r, v, p, q) =
        >>=-eq_ok (define t)
          (λ defined. pure (record { transaction = some t; new_operation = defined })) w e in
      let same : r ≡ d.new_operation = ground arith in rw (sym same) (h t w v r p)

  define_manipulation-Reads :
      (b : Bool) (t : Option ℕ) (columns : List ColumnValue) (store_name : Text)
      (define : ℕ → M (Option (Operation × Option (List ℕ)))) (w w' : World) (d : Defined)
      → AllRead b define
      → define_manipulation env t columns store_name define w ≡ ok (d, w')
      → Reads b d.new_operation
  unfolding define_manipulation
  define_manipulation-Reads b t columns store_name define w w' d h e =
      let (a, v, p, q) =
        >>=-eq_ok (ensure_transaction env t columns store_name) (define_if env define) w e in
      define_if-Reads b define a v w' d h q

  on_store-Reads :
      (b : Bool) (store_info : List StoreInfo) (f : Text → M Defined) (w w' : World) (d : Defined)
      → ((name : Text) → f name w ≡ ok (d, w') → Reads b d.new_operation)
      → on_store env store_info f w ≡ ok (d, w')
      → Reads b d.new_operation
  unfolding on_store
  on_store-Reads b [] f w w' d h e = cc
  on_store-Reads b (store_info ∷ _) f w w' d h e = h store_info.store_name e

  define_operation-Reads :
      (t : Option ℕ) (message : Message) (w w' : World) (d : Defined)
      → define_operation env t message w ≡ ok (d, w')
      → Reads (is_read message) d.new_operation
  unfolding define_operation is_read AllRead
  define_operation-Reads t (set_operation m) w w' d e =
      on_store-Reads false m.store_info _ w w' d
        (λ name.
          define_manipulation-Reads false t m.primary_key name _ w w' d
            λ n. with_no_columns-Reads (execute_set env name m n))
        e
  define_operation-Reads t (delete_operation m) w w' d e =
      on_store-Reads false m.store_info _ w w' d
        (λ name.
          define_manipulation-Reads false t m.primary_key name _ w w' d
            λ n. with_no_columns-Reads (execute_delete env name m n))
        e
  define_operation-Reads t (get_operation m) w w' d e =
      on_store-Reads true m.store_info _ w w' d
        (λ name.
          define_manipulation-Reads true t m.primary_key name _ w w' d
            λ n. with_columns-Reads (execute_get env name m n))
        e
  define_operation-Reads t message w w' d e = nothing-Reads (is_read message) t w w' d e

  module _ (codec : Codec) (thread_no : ℕ) (tuple : FrameMessagesTuple) where
    -- The operation that a round adds, if it goes on.
    keep_or_fail-Does :
        (message : Message) (operations : List PreparedOperation) (t : Option ℕ)
        (new_operation : Option (Operation × Option (List ℕ))) (w w' : World) (next : Progress)
        → Reads (is_read message) new_operation
        → keep_or_fail env codec thread_no tuple message operations t new_operation w
          ≡ ok (some next, w')
        → (o : PreparedOperation) × (next.operations ≡ operations ++ o ∷ [])
          × Does thread_no message o
    unfolding keep_or_fail
    keep_or_fail-Does message operations t none w w' next h e =
        let (a, v, failed, returned) =
          >>=-eq_ok (fail env codec thread_no tuple t) (λ _. pure none) w e in
        cc
    keep_or_fail-Does message operations t (some (operation, columns)) w w' next h e = (
      record {
        type = get_frame_type message;
        operation = operation;
        columns = columns;
        thread_no = thread_no;
      },
      ground arith,
      record { same_type = refl; same_thread = refl; reads = h },
    )

    manipulation-Does :
        (message : Message) (progress next : Progress) (w w' : World)
        → is_definition_frame message ≡ false
        → execute_message env codec thread_no tuple message progress w ≡ ok (some next, w')
        → (o : PreparedOperation) × (next.operations ≡ progress.operations ++ o ∷ [])
          × Does thread_no message o
    unfolding execute_message
    manipulation-Does message progress next w w' h e =
        let (d, v, p, q) =
          >>=-eq_ok (define_operation env progress.transaction message)
            (λ d.
              keep_or_fail env codec thread_no tuple message progress.operations d.transaction
                d.new_operation)
            w (rw h at e) in
        keep_or_fail-Does message progress.operations d.transaction d.new_operation v w' next
          (define_operation-Reads progress.transaction message w v d p) q

    -- The loop, when it ends with a transaction: the operations that it adds.
    abbrev Adds : List Message → Progress → Progress → Type 0
    Adds messages before after =
        (added : List PreparedOperation) × (after.operations ≡ before.operations ++ added)
        × Prepared thread_no messages added

    Adds-after_one :
        (message : Message) (messages : List Message) (before between after : Progress)
        → is_definition_frame message ≡ false
        → (o : PreparedOperation) × (between.operations ≡ before.operations ++ o ∷ [])
          × Does thread_no message o
        → Adds messages between after
        → Adds (message ∷ messages) before after
    Adds-after_one message messages before between after h (o, one, does) (added, rest, all) = (
      o ∷ added,
      rest
          ∙ ap (λ operations. operations ++ added) one
          ∙ append_assoc before.operations (o ∷ []) added,
      prepared h does all,
    )

    after_manipulation :
        (message : Message) (messages : List Message) (progress p : Progress) (w v w' : World)
        (next : Option Progress) (t : ℕ)
        → is_definition_frame message ≡ false
        → p.transaction ≡ some t
        → execute_message env codec thread_no tuple message progress w ≡ ok (next, v)
        → ((q : Progress)
            → execute_messages env codec thread_no tuple messages q v ≡ ok (p, w')
            → Adds messages q p)
        → follow env codec thread_no tuple progress messages next v ≡ ok (p, w')
        → Adds (message ∷ messages) progress p
    after_manipulation message messages progress p w v w' none t h held first rest e = cc
    after_manipulation message messages progress p w v w' (some q) t h held first rest e =
        Adds-after_one message messages progress q p h
          (manipulation-Does message progress q w v h first) (rest q e)

    loop-Adds :
        (messages : List Message) (progress p : Progress) (w w' : World) (t : ℕ)
        → p.transaction ≡ some t
        → execute_messages env codec thread_no tuple messages progress w ≡ ok (p, w')
        → Adds messages progress p
    unfolding execute_messages
    loop-Adds [] progress p w w' t held e = (
      [],
      let same : progress.operations ≡ p.operations = ground arith in
          sym same ∙ sym (append-nil progress.operations),
      ended,
    )
    loop-Adds (message ∷ messages) progress p w w' t held e =
        let (next, v, q, r) =
          >>=-eq_ok (execute_message env codec thread_no tuple message progress)
            (follow env codec thread_no tuple progress messages) w e in
        elim (Bool-cases (is_definition_frame message)) [
          | inl h ↦
              let (goes_on, account) =
                definition_lem env codec thread_no tuple message progress w v next h q in
              let (added, same, all) =
                loop-Adds messages progress p v w' t held (rw goes_on at r) in
              (added, same, run_at_once h all)
          | inr h ↦
              after_manipulation message messages progress p w v w' next t h held q
                (λ q. loop-Adds messages q p v w' t held) r
        ]

    prepare-handed_over :
        (operations : List PreparedOperation) (held : Option ℕ) (w w' : World)
        → prepare env codec thread_no tuple operations held w ≡ ok (true, w')
        → (t : ℕ) × (held ≡ some t)
          × (w'.trace ≡ execute_asynch_prepare t tuple.id tuple.envelope operations ∷ w.trace)
    unfolding prepare
    prepare-handed_over operations none w w' e = cc
    prepare-handed_over operations (some t) w w' e = (t, refl, ground arith)

    -- When a request returns with true, the last event is that a transaction is handed over with the
    -- request's identifier and envelope and with one operation for each manipulation of the request,
    -- in their order, of the type of its message, for the thread that runs the request, and with
    -- columns to be read exactly for a get; the definitions among the messages have none.
    pub execute_tuple-Prepared :
        (w w' : World)
        → execute_tuple env codec thread_no tuple w ≡ ok (true, w')
        → (t : ℕ) × (operations : List PreparedOperation) × (earlier : List Event) × (w'.trace
            ≡ execute_asynch_prepare t tuple.id tuple.envelope operations ∷ earlier)
          × Prepared thread_no tuple.messages operations
    unfolding execute_tuple
    execute_tuple-Prepared w w' returned =
        let (p, v, looped, handed_over) =
          >>=-eq_ok
            (execute_messages env codec thread_no tuple tuple.messages
              (record { transaction = none; operations = [] }))
            (λ p. prepare env codec thread_no tuple p.operations p.transaction) w returned in
        let (t, held, last) = prepare-handed_over p.operations p.transaction v w' handed_over in
        let (added, same, all) = loop-Adds tuple.messages _ p w v t held looped in
        (t, p.operations, v.trace, last, rw same all)
