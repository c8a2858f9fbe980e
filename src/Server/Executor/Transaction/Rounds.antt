-- ===== src/Server/Executor/Transaction/Rounds.antt =====
-- volodbserver/Store/NDBMessageExecutor.cpp: the account of one round of the loop over a request.
use volo_db.Prelude.{ℕ, ◌+◌, ◌≡◌, true, false, Option, none, some, List, arith, get_or, ◌⊎◌}
use volo_db.Prelude.Outcome.{ok}
use volo_db.Proto.Wire.{Codec, Message}
use volo_db.Frame.Utils.{is_definition_frame}
use volo_db.Frame.Decoder.{FrameMessagesTuple}
use volo_db.Server.Ndb.{
  Operation, PreparedOperation, World, Environment, pure, call, >>=-eq_ok, close_transaction,
  last_error_message, last_error_code,
}
use volo_db.Server.Ndb.Tally.{Keeps}
use volo_db.Server.Executor.Reply.{reply_with_result}
use volo_db.Server.Executor.Definitions.{execute_definition}
use volo_db.Server.Executor.Definitions.Quiet.{execute_definition-Keeps}
use volo_db.Server.Executor.Transaction.{
  Progress, definition_error, unknown_definition, define_operation, fail, define_and_reply,
  keep_or_fail, execute_message,
}
use volo_db.Server.Executor.Transaction.Account.{
  open_count, held, ends, Account, Runs, Runs-of_Keeps, Runs-bind, Runs-pure, Runs-then,
  reply_with_result-Runs, close-Runs,
}
use volo_db.Server.Executor.Transaction.Starts.{
  define_operation-Runs, define_operation-OnTransaction,
}

module _ (env : Environment) where
  pub last_error_message-Keeps : Keeps (last_error_message env)
  unfolding last_error_message
  last_error_message-Keeps w w' a e = ground arith

  pub last_error_code-Keeps : Keeps (last_error_code env)
  unfolding last_error_code
  last_error_code-Keeps w w' a e = ground arith

  module _ (codec : Codec) (thread_no : ℕ) (tuple : FrameMessagesTuple) where
    -- The error branch answers once, and leaves no transaction.
    fail-Runs : (t : Option ℕ) → Runs (fail env codec thread_no tuple t) t (λ _. none) (λ _. 1)
    unfolding fail
    fail-Runs none =
        Runs-then (reply_with_result codec _ tuple.envelope) _ none none none
          (reply_with_result-Runs codec _ tuple.envelope none) (λ sent. Runs-pure tt (λ _. none))
    fail-Runs (some t) =
        Runs-bind (last_error_message env) _ (some t) (λ _. some t) (λ _. none) (λ _. 1)
          (Runs-of_Keeps _ (some t) last_error_message-Keeps)
          λ message.
            Runs-bind (last_error_code env) _ (some t) (λ _. some t) (λ _. none) (λ _. 1)
              (Runs-of_Keeps _ (some t) last_error_code-Keeps)
              λ code.
                Runs-bind (call (close_transaction t)) _ (some t) (λ _. none) (λ _. none) (λ _. 1)
                  (close-Runs t)
                  λ closed.
                    Runs-then
                      (reply_with_result codec (definition_error tuple.id message code)
                        tuple.envelope)
                      _ none none none (reply_with_result-Runs codec _ tuple.envelope none)
                      (λ sent. Runs-pure tt (λ _. none))

    define_and_reply-Runs :
        (message : Message) (t : Option ℕ)
        → Runs (define_and_reply env codec thread_no tuple message) t (λ _. t) (λ _. 1)
    unfolding define_and_reply
    define_and_reply-Runs message t =
        Runs-bind (execute_definition env tuple.id message) _ t (λ _. t) (λ _. t) (λ _. 1)
          (Runs-of_Keeps _ t (execute_definition-Keeps env tuple.id message))
          λ res.
            Runs-then
              (reply_with_result codec (get_or (unknown_definition tuple.id) res) tuple.envelope) _
              t t t (reply_with_result-Runs codec _ tuple.envelope t)
              (λ sent. Runs-pure tt (λ _. t))

    keep_or_fail-Runs :
        (message : Message) (operations : List PreparedOperation) (t : Option ℕ)
        (new_operation : Option (Operation × Option (List ℕ)))
        → Runs
            (keep_or_fail env codec thread_no tuple message operations t new_operation)
            t
            held
            ends
    unfolding keep_or_fail
    keep_or_fail-Runs message operations t none w w' p e =
        let (a, v, failed, returned) =
          >>=-eq_ok (fail env codec thread_no tuple t) (λ _. pure none) w e in
        let account = fail-Runs t w v a failed in ground arith
    keep_or_fail-Runs message operations t (some (operation, columns)) w w' p e = ground arith

    keep_or_fail-held :
        (message : Message) (operations : List PreparedOperation) (t : Option ℕ)
        (new_operation : Option (Operation × Option (List ℕ))) (w w' : World)
        (next : Option Progress)
        → (open_count t ≡ 1) ⊎ (new_operation ≡ none)
        → keep_or_fail env codec thread_no tuple message operations t new_operation w
          ≡ ok (next, w')
        → open_count (held next) + ends next ≡ 1
    unfolding keep_or_fail
    keep_or_fail-held message operations t none w w' next h e =
        let (a, v, failed, returned) =
          >>=-eq_ok (fail env codec thread_no tuple t) (λ _. pure none) w e in
        ground arith
    keep_or_fail-held message operations t (some (operation, columns)) w w' next h e = ground arith

    -- A round on a manipulation goes on with a transaction, or has answered.
    pub manipulation_lem :
        (message : Message) (progress : Progress) (w w' : World) (next : Option Progress)
        → is_definition_frame message ≡ false
        → execute_message env codec thread_no tuple message progress w ≡ ok (next, w')
        → Account progress.transaction w (held next) w' 0 (ends next)
          × (open_count (held next) + ends next ≡ 1)
    unfolding execute_message
    manipulation_lem message progress w w' next h e =
        let (d, v, p, q) =
          >>=-eq_ok (define_operation env progress.transaction message)
            (λ d.
              keep_or_fail env codec thread_no tuple message progress.operations d.transaction
                d.new_operation)
            w (rw h at e) in
        let first = define_operation-Runs env progress.transaction message w v d p in
        let second =
          keep_or_fail-Runs message progress.operations d.transaction d.new_operation v w' next q in
        let kept =
          keep_or_fail-held message progress.operations d.transaction d.new_operation v w' next
            (define_operation-OnTransaction env progress.transaction message w v d p) q in
        (omega arith, kept)

    pub definition_lem :
        (message : Message) (progress : Progress) (w w' : World) (next : Option Progress)
        → is_definition_frame message ≡ true
        → execute_message env codec thread_no tuple message progress w ≡ ok (next, w')
        → (next ≡ some progress) × Account progress.transaction w progress.transaction w' 0 1
    unfolding execute_message
    definition_lem message progress w w' next h e =
        let (a, v, p, q) =
          >>=-eq_ok (define_and_reply env codec thread_no tuple message) (λ _. pure (some progress))
            w (rw h at e) in
        let first = define_and_reply-Runs message progress.transaction w v a p in
        (ground arith, ground arith)
