-- ===== src/Server/Executor/Callback/Served.antt =====
-- volodbserver/Store/NDBMessageExecutor.cpp: what a request is answered with, through the operations
-- that it hands over and the callback of their transaction.
use volo_db.Prelude.{
  ℕ, ◌+◌, ◌≡◌, ◌≢◌, refl, ◌∙◌, Bool, true, false, List, [], ◌∷◌, All, map, is_some, if◌then◌else◌,
}
use volo_db.Prelude.Outcome.{ok}
use volo_db.Proto.Result.{Result}
use volo_db.Proto.Wire.{Codec, Message}
use volo_db.Frame.Utils.{is_definition_frame, get_frame_type}
use volo_db.Frame.Decoder.{FrameMessagesTuple}
use volo_db.Server.Ndb.{
  PreparedOperation, Environment, World, Event, close_transaction, reply, execute_asynch_prepare,
}
use volo_db.Server.Ndb.Tally.{tally}
use volo_db.Server.Executor.Reply.{answer_frame}
use volo_db.Server.Executor.Callback.{Reads, Stats, ndb_execute_callback}
use volo_db.Server.Executor.Callback.Lifecycle.{
  ndb_execute_callback_lem, execute_tuple-ndb_execute_callback,
}
use volo_db.Server.Executor.Transaction.{execute_tuple}
use volo_db.Server.Executor.Transaction.Prepared.{
  Prepared, ended, run_at_once, prepared, execute_tuple-Prepared,
}
use volo_db.Server.Executor.Transaction.Sent.{Sends}

pub Prepared-types :
    {thread_no : ℕ} (messages : List Message) (operations : List PreparedOperation)
    → All (λ m. is_definition_frame m ≡ false) messages
    → Prepared thread_no messages operations
    → map (λ o. o.type) operations ≡ map get_frame_type messages
Prepared-types _ _ manipulations ended = refl
Prepared-types _ _ manipulations (run_at_once h rest) = let no = manipulations.0 in cc
Prepared-types (_ ∷ messages) (_ ∷ operations) manipulations (prepared h does rest) =
    rw (does.same_type, Prepared-types messages operations manipulations.1 rest) refl

pub answered-types :
    (failed : Bool) (operations : List PreparedOperation) (messages : List Message)
    → map (λ o. o.type) operations ≡ map get_frame_type messages
    → (if failed then [] else map (λ o. o.type) operations)
      ≡ (if failed then [] else map get_frame_type messages)
answered-types failed operations messages e = rw e refl

module _ (env : Environment) (codec : Codec) (reads : Reads) where
  -- A request of at least one operation and manipulations only, whose transaction was handed over:
  -- the callback of that transaction, with the operations that were handed over, comes back whether
  -- NDB ran it or not. It closes the transaction and answers to the request's envelope, with the
  -- request's identifier and with an error, or with one result for each message of the request, in
  -- their order and of their types. Exactly one answer to the request has then been sent, and every
  -- transaction that was started for it is closed. It needs that the runtime serialises the frame of
  -- every answer, without which none is sent.
  pub execute_tuple-answered_with :
      (thread_no : ℕ) (tuple : FrameMessagesTuple) (w v : World) (failed : Bool) (stats : Stats)
      → Sends codec
      → All (λ m. is_definition_frame m ≡ false) tuple.messages
      → tuple.messages ≢ []
      → execute_tuple env codec thread_no tuple w ≡ ok (true, v)
      → (t : ℕ) × (operations : List PreparedOperation) × (earlier : List Event) × (r : Result)
        × (stats' : Stats) × (w' : World) × (v.trace
            ≡ execute_asynch_prepare t tuple.id tuple.envelope operations ∷ earlier)
        × (ndb_execute_callback env codec reads failed t tuple.id tuple.envelope operations stats v
            ≡ ok (stats', w'))
        × (w'.trace
            ≡ reply tuple.envelope (codec.frame.serialize (answer_frame codec r))
              ∷ close_transaction t
              ∷ v.trace)
        × (r.transaction_identifier ≡ tuple.id)
        × (map (λ o. o.type) r.result ≡ (if failed then [] else map get_frame_type tuple.messages))
        × (is_some r.error_code ≡ failed)
        × ((tally w'.trace).replied ≡ (tally w.trace).replied + 1)
        × ((tally w'.trace).started + (tally w.trace).closed
            ≡ (tally w.trace).started + (tally w'.trace).closed)
  execute_tuple-answered_with thread_no tuple w v failed stats sends manipulations some_message e =
      let (t, operations, earlier, last, all) =
        execute_tuple-Prepared env codec thread_no tuple w v e in
      let (stats', r, returned, named, typed, error) =
        ndb_execute_callback_lem env codec reads tuple.id tuple.envelope operations t stats failed
          v in
      let (once, closed) =
        execute_tuple-ndb_execute_callback env codec reads tuple.id tuple.envelope operations t
          stats thread_no tuple w v _ failed stats' sends manipulations some_message e returned in
      (
        t,
        operations,
        earlier,
        r,
        stats',
        _,
        last,
        returned,
        refl,
        named,
        typed
            ∙ answered-types failed operations tuple.messages
                (Prepared-types tuple.messages operations manipulations all),
        error,
        once,
        closed,
      )
