-- ===== src/Server/Executor/Transaction/Sent.antt =====
-- volodbserver/Store/NDBMessageExecutor.cpp: that the answers to a request are sent, which
-- replyWithResult does only where it can serialise them.
use volo_db.Prelude.{
  ℕ, ◌≡◌, sym, ◌∙◌, ap, Text, Bool, true, false, Option, none, some, List, [], ◌∷◌, arith, is_some,
  get_or, if◌then◌else◌,
}
use volo_db.Prelude.Outcome.{Outcome, ok}
use volo_db.Proto.Result.{Result}
use volo_db.Proto.Wire.{Codec, Message}
use volo_db.Frame.Utils.{is_definition_frame}
use volo_db.Frame.Decoder.{FrameMessagesTuple}
use volo_db.Server.Ndb.{
  Operation, PreparedOperation, World, M, Environment, ◌>>=◌, ◌>>◌, pure, call, >>=-eq_ok, reply,
  close_transaction, execute_asynch_prepare,
}
use volo_db.Server.Ndb.Tally.{tally, Keeps}
use volo_db.Server.Executor.Reply.{reply_with_result, reply_with_result_lem, answer_frame}
use volo_db.Server.Executor.Definitions.Quiet.{execute_definition-Keeps}
use volo_db.Server.Executor.Transaction.{
  Progress, definition_error, unknown_definition, define_operation, fail, define_and_reply,
  keep_or_fail, execute_message, execute_messages, prepare, execute_tuple,
}
use volo_db.Server.Executor.Transaction.Rounds.{last_error_message-Keeps, last_error_code-Keeps}
use volo_db.Server.Executor.Transaction.Starts.{define_operation-Runs}

-- The runtime serialises the frame of every answer.
abbrev pub Sends : Codec → Type 0
Sends codec = (r : Result) → is_some (codec.frame.serialize (answer_frame codec r)) ≡ true

-- No answer of the computation is lost.
abbrev pub AllSent : {A : Type 0} → M A → Type 0
AllSent {A} m =
    (w w' : World) (a : A) → m w ≡ ok (a, w') → (tally w'.trace).unsent ≡ (tally w.trace).unsent

AllSent-of_Keeps : {A : Type 0} (m : M A) → Keeps m → AllSent m
AllSent-of_Keeps m k w w' a e = ap (λ t. t.unsent) (k w w' a e)

AllSent-bind :
    {A B : Type 0} (m : M A) (f : A → M B)
    → AllSent m
    → ((a : A) → AllSent (f a))
    → AllSent (m >>= f)
AllSent-bind m f km kf w w' b e = let (a, v, p, q) = >>=-eq_ok m f w e in kf a v w' b q ∙ km w v a p

if-AllSent :
    {A : Type 0} (b : Bool) (m n : M A) → AllSent m → AllSent n → AllSent (if b then m else n)
if-AllSent true m n km kn = km
if-AllSent false m n km kn = kn

AllSent-pure : {A : Type 0} (a : A) → AllSent (pure a)
AllSent-pure a w w' b e = ground arith

close-AllSent : (t : ℕ) → AllSent (call (close_transaction t))
unfolding call
close-AllSent t w w' a e = ground arith

hand_over-AllSent :
    (t : ℕ) (id envelope : Text) (operations : List PreparedOperation)
    → AllSent (call (execute_asynch_prepare t id envelope operations))
unfolding call
hand_over-AllSent t id envelope operations w w' a e = ground arith

replied-AllSent :
    (envelope : Text) (w w' : World) (b : Bool) (bytes : Option Text)
    → is_some bytes ≡ true
    → ◌≡◌ {A = Outcome (Bool × World)}
        (ok (is_some bytes, record w { trace = reply envelope bytes ∷ w.trace }))
        (ok (b, w'))
    → (tally w'.trace).unsent ≡ (tally w.trace).unsent
replied-AllSent envelope w w' b none h e = cc
replied-AllSent envelope w w' b (some bytes) h e = ground arith

module _ (env : Environment) (codec : Codec) (sends : Sends codec) where
  reply_with_result-AllSent :
      (r : Result) (envelope : Text) → AllSent (reply_with_result codec r envelope)
  reply_with_result-AllSent r envelope w w' b e =
      replied-AllSent envelope w w' b _ (sends r)
        (sym (reply_with_result_lem codec r envelope w) ∙ e)

  define_operation-AllSent :
      (t : Option ℕ) (message : Message) → AllSent (define_operation env t message)
  define_operation-AllSent t message w w' d e =
      let account = define_operation-Runs env t message w w' d e in omega arith

  module _ (thread_no : ℕ) (tuple : FrameMessagesTuple) where
    reply_and_end : (r : Result) → AllSent (reply_with_result codec r tuple.envelope >> pure tt)
    reply_and_end r =
        AllSent-bind _ _ (reply_with_result-AllSent r tuple.envelope) (λ _. AllSent-pure tt)

    fail-AllSent : (t : Option ℕ) → AllSent (fail env codec thread_no tuple t)
    unfolding fail
    fail-AllSent none = reply_and_end _
    fail-AllSent (some t) =
        AllSent-bind _ _ (AllSent-of_Keeps _ (last_error_message-Keeps env)) λ message.
          AllSent-bind _ _ (AllSent-of_Keeps _ (last_error_code-Keeps env)) λ code.
            AllSent-bind _ _ (close-AllSent t)
              λ _. reply_and_end (definition_error tuple.id message code)

    define_and_reply-AllSent :
        (message : Message) → AllSent (define_and_reply env codec thread_no tuple message)
    unfolding define_and_reply
    define_and_reply-AllSent message =
        AllSent-bind _ _ (AllSent-of_Keeps _ (execute_definition-Keeps env tuple.id message))
          λ res. reply_and_end (get_or (unknown_definition tuple.id) res)

    keep_or_fail-AllSent :
        (message : Message) (operations : List PreparedOperation) (t : Option ℕ)
        (new_operation : Option (Operation × Option (List ℕ)))
        → AllSent (keep_or_fail env codec thread_no tuple message operations t new_operation)
    unfolding keep_or_fail
    keep_or_fail-AllSent message operations t none =
        AllSent-bind _ _ (fail-AllSent t) (λ _. AllSent-pure none)
    keep_or_fail-AllSent message operations t (some (operation, columns)) = AllSent-pure _

    execute_message-AllSent :
        (message : Message) (progress : Progress)
        → AllSent (execute_message env codec thread_no tuple message progress)
    unfolding execute_message
    execute_message-AllSent message progress =
        if-AllSent (is_definition_frame message) _ _
          (AllSent-bind _ _ (define_and_reply-AllSent message) (λ _. AllSent-pure (some progress)))
          (AllSent-bind _ _ (define_operation-AllSent progress.transaction message) λ defined.
            keep_or_fail-AllSent message progress.operations defined.transaction
              defined.new_operation)

    execute_messages-AllSent :
        (messages : List Message) (progress : Progress)
        → AllSent (execute_messages env codec thread_no tuple messages progress)
    unfolding execute_messages
    execute_messages-AllSent [] progress = AllSent-pure progress
    execute_messages-AllSent (message ∷ messages) progress =
        AllSent-bind _ _ (execute_message-AllSent message progress)
          (elim [ none ↦ AllSent-pure _ | some p ↦ execute_messages-AllSent messages p ])

    prepare-AllSent :
        (operations : List PreparedOperation) (t : Option ℕ)
        → AllSent (prepare env codec thread_no tuple operations t)
    unfolding prepare
    prepare-AllSent operations none = AllSent-pure false
    prepare-AllSent operations (some t) =
        AllSent-bind _ _ (hand_over-AllSent t tuple.id tuple.envelope operations)
          (λ _. AllSent-pure true)

    -- If the runtime serialises every answer, each answer to a request is sent.
    pub execute_tuple-AllSent : AllSent (execute_tuple env codec thread_no tuple)
    unfolding execute_tuple
    execute_tuple-AllSent =
        AllSent-bind _ _
          (execute_messages-AllSent tuple.messages (record { transaction = none; operations = [] }))
          (λ p. prepare-AllSent p.operations p.transaction)
