-- ===== src/Server/Executor/Callback/Lifecycle.antt =====
-- volodbserver/Store/NDBMessageExecutor.cpp: a request from its start to its answer, through the
-- callback of its transaction.
use volo_db.Prelude.{
  ℕ, ◌+◌, ◌≡◌, ◌≢◌, refl, Text, Bool, true, false, Option, none, some, List, [], ◌∷◌, arith, All,
  map, ap, is_some, if◌then◌else◌,
}
use volo_db.Prelude.Outcome.{ok}
use volo_db.Proto.Result.{Result}
use volo_db.Proto.Wire.{Codec}
use volo_db.Frame.Utils.{is_definition_frame}
use volo_db.Frame.Decoder.{FrameMessagesTuple}
use volo_db.Server.Ndb.{PreparedOperation, Environment, Event, World, close_transaction, reply}
use volo_db.Server.Ndb.Tally.{tally}
use volo_db.Server.Executor.Reply.{
  make_result, make_result_for_error, reply_with_result_lem, answer_frame,
}
use volo_db.Server.Executor.Callback.{
  Reads, Stats, operation_results, count_operations, ndb_execute_callback,
}
use volo_db.Server.Executor.Transaction.{execute_tuple}
use volo_db.Server.Executor.Transaction.Requests.{execute_tuple-balanced, execute_tuple-answered}
use volo_db.Server.Executor.Transaction.Sent.{Sends}

-- What the last two events of the callback count for.
sent_and_closed :
    (transaction : ℕ) (envelope : Text) (bytes : Option Text) (trace : List Event)
    → is_some bytes ≡ true
    → let after = tally (reply envelope bytes ∷ close_transaction transaction ∷ trace) in
      (after.replied ≡ (tally trace).replied + 1)
      × (after.closed ≡ (tally trace).closed + 1)
      × (after.started ≡ (tally trace).started)
sent_and_closed transaction envelope none trace h = cc
sent_and_closed transaction envelope (some bytes) trace h = ground arith

module _ (env : Environment) (codec : Codec) (reads : Reads) (id envelope : Text)
    (operations : List PreparedOperation) (transaction : ℕ) (stats : Stats) where
  -- The result that is answered.
  unfoldable pub answer : Bool → World → Result
  answer true w = make_result_for_error id (env.error_message w.trace) (env.error_code w.trace)
  answer false w = record (make_result id) { result = operation_results reads operations }

  pub callback_lem :
      (failed : Bool) (w : World)
      → (stats' : Stats) × (ndb_execute_callback env codec reads failed transaction id envelope
            operations stats w
          ≡ ok (
            stats',
            record w {
              trace =
                  reply envelope (codec.frame.serialize (answer_frame codec (answer failed w)))
                  ∷ close_transaction transaction
                  ∷ w.trace;
            },
          ))
  unfolding ndb_execute_callback answer
  callback_lem true w = (stats, rw (reply_with_result_lem codec _ envelope _))
  callback_lem false w =
      (count_operations operations stats, rw (reply_with_result_lem codec _ envelope _))

  -- The answer names the transaction; on success it has a result for each operation, in order and of
  -- its type, and no error; on failure it has an error and no results.
  pub answers_to :
      (failed : Bool) (w : World)
      → ((answer failed w).transaction_identifier ≡ id)
        × (map (λ r. r.type) (answer failed w).result
            ≡ (if failed then [] else map (λ o. o.type) operations))
        × (is_some (answer failed w).error_code ≡ failed)
  unfolding answer make_result make_result_for_error operation_results
  answers_to true w = (refl, refl, refl)
  answers_to false w = (refl, types operations, refl)
    where
      types :
          (os : List PreparedOperation)
          → map (λ r. r.type) (operation_results reads os) ≡ map (λ o. o.type) os
      types [] = refl
      types (o ∷ os) = ap (◌∷◌ o.type) (types os)

  -- The callback always comes back, whether NDB ran the transaction or not. It closes the
  -- transaction and then answers once, to the request's envelope: with the request's identifier, and
  -- with an error, or with one result for each operation, in order and of the operation's type.
  pub ndb_execute_callback_lem :
      (failed : Bool) (w : World)
      → (stats' : Stats) × (r : Result) × (ndb_execute_callback env codec reads failed transaction
            id envelope operations stats w
          ≡ ok (
            stats',
            record w {
              trace =
                  reply envelope (codec.frame.serialize (answer_frame codec r))
                  ∷ close_transaction transaction
                  ∷ w.trace;
            },
          ))
        × (r.transaction_identifier ≡ id)
        × (map (λ o. o.type) r.result ≡ (if failed then [] else map (λ o. o.type) operations))
        × (is_some r.error_code ≡ failed)
  ndb_execute_callback_lem failed w =
      let (stats', e) = callback_lem failed w in
      let (named, typed, error) = answers_to failed w in
      (stats', answer failed w, e, named, typed, error)

  -- A request of at least one operation and manipulations only, whose transaction was handed over:
  -- once the callback has run for that transaction, exactly one answer to the request has been sent,
  -- if the runtime serialises every answer, and every transaction that was started for it is closed.
  pub execute_tuple-ndb_execute_callback :
      (thread_no : ℕ) (tuple : FrameMessagesTuple) (w v w' : World) (failed : Bool) (stats' : Stats)
      → Sends codec
      → All (λ m. is_definition_frame m ≡ false) tuple.messages
      → tuple.messages ≢ []
      → execute_tuple env codec thread_no tuple w ≡ ok (true, v)
      → ndb_execute_callback env codec reads failed transaction id envelope operations stats v
        ≡ ok (stats', w')
      → ((tally w'.trace).replied ≡ (tally w.trace).replied + 1)
        × ((tally w'.trace).started + (tally w.trace).closed
            ≡ (tally w.trace).started + (tally w'.trace).closed)
  execute_tuple-ndb_execute_callback thread_no tuple w v w' failed stats' sends m n e c =
      let (live, handed) = execute_tuple-balanced env codec thread_no tuple w v true e in
      let answered = execute_tuple-answered env codec thread_no tuple w v true e sends m n in
      let (_, p) = callback_lem failed v in
      let (sent, closed, started) =
        sent_and_closed transaction envelope _ v.trace (sends (answer failed v)) in
      ground arith
