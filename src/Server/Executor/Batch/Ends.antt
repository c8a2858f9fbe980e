-- ===== src/Server/Executor/Batch/Ends.antt =====
-- volodbserver/Store/NDBMessageExecutor.cpp: when a batch of requests comes back.
use volo_db.Prelude.{
  ℕ, ◌+◌, ◌≤◌, ◌≡◌, Text, Bool, true, false, Option, none, some, arith, inl, inr, List, [], ◌∷◌,
  All, ltb, ◌==◌,
}
use volo_db.Prelude.Outcome.{ok}
use volo_db.Proto.Wire.{Codec}
use volo_db.Frame.Decoder.{FrameMessagesTuple}
use volo_db.Server.Ndb.{Table, Event, Environment, World, wait_for_transactions}
use volo_db.Server.Ndb.Tally.{tally}
use volo_db.Server.Ndb.Ends.{IsKnown, Ends, >>=-Ends, pure-Ends, if-Ends, call-Ends}
use volo_db.Server.Cache.Ends.{GoodIfAny}
use volo_db.Server.Executor.Transaction.Ends.{IsRunnable, execute_tuple-Ends}
use volo_db.Server.Executor.Batch.{
  wait, waited_for, max_transactions, count_request, execute_tuples, execute_lists, finish,
  execute_all,
}
use volo_db.Server.Executor.Batch.Polls.{reported, wait_for_transactions_to_complete_lem}
use volo_db.Server.Executor.Batch.Waiting.{execute_all-waits}

module _ (Good : Table → Type 0) (env : Environment)
    (good : (t : List Event) (name : Text) → GoodIfAny Good (env.table t name)) (codec : Codec)
    (thread_no : ℕ) (polls : List Event → ℕ → ℕ) (fuel : ℕ → ℕ)
    (reports : (t : List Event) (n : ℕ) → n ≤ reported (polls t) (fuel n)) where
  -- Every message of every request is runnable.
  abbrev pub AreRunnable : List FrameMessagesTuple → Type 0
  AreRunnable = All (λ tuple. All (IsRunnable Good) tuple.messages)

  waited_for-Ends :
      (total n : ℕ) (r : Option ℕ)
      → r ≡ some n
      → Ends Good (waited_for env codec thread_no polls fuel total r)
  unfolding waited_for
  waited_for-Ends total n none e = cc
  waited_for-Ends total n (some m) e = call-Ends Good (wait_for_transactions total)

  wait-Ends : (total : ℕ) → Ends Good (wait env codec thread_no polls fuel total)
  unfolding wait
  wait-Ends total w =
      elim (wait_for_transactions_to_complete_lem (polls w.trace) (fuel total) total) [
        | inl (k, ended, _, _) ↦ waited_for-Ends total _ _ ended w
        | inr (_, fewer) ↦ let enough = reports w.trace total in absurd (omega arith)
      ]

  count_request-Ends :
      (total : ℕ) (b : Bool) → Ends Good (count_request env codec thread_no polls fuel total b)
  unfolding count_request
  count_request-Ends total false = pure-Ends Good total
  count_request-Ends total true =
      if-Ends Good (total + 1 == max_transactions) _ _
        (>>=-Ends Good _ _ (wait-Ends (total + 1)) (λ _. pure-Ends Good 0))
        (pure-Ends Good (total + 1))

  execute_tuples-Ends :
      (total : ℕ) (tuples : List FrameMessagesTuple)
      → AreRunnable tuples
      → Ends Good (execute_tuples env codec thread_no polls fuel total tuples)
  unfolding execute_tuples
  execute_tuples-Ends total [] h = pure-Ends Good total
  execute_tuples-Ends total (tuple ∷ tuples) h =
      >>=-Ends Good _ _ (execute_tuple-Ends Good env good codec thread_no tuple h.0) λ res.
        >>=-Ends Good _ _ (count_request-Ends total res) (λ n. execute_tuples-Ends n tuples h.1)

  execute_lists-Ends :
      (total : ℕ) (messages : List (List FrameMessagesTuple))
      → All AreRunnable messages
      → Ends Good (execute_lists env codec thread_no polls fuel total messages)
  unfolding execute_lists
  execute_lists-Ends total [] h = pure-Ends Good total
  execute_lists-Ends total (tuples ∷ messages) h =
      >>=-Ends Good _ _ (execute_tuples-Ends total tuples h.0)
        (λ n. execute_lists-Ends n messages h.1)

  finish-Ends : (total : ℕ) → Ends Good (finish env codec thread_no polls fuel total)
  unfolding finish
  finish-Ends total = if-Ends Good (ltb 0 total) _ _ (wait-Ends total) (pure-Ends Good tt)

  -- A batch of requests comes back, whatever else NDB and MySQL answer, if the polls of each wait
  -- report as many transactions as are waited for, within any number of polls that is fixed for that
  -- many: the batch has then waited for every transaction that it handed over, never for more than
  -- 1024 at once. It needs too that every manipulation names a store, that the columns by which a get
  -- filters are columns of every table that the dictionary or the cache has, that nothing is left to
  -- wait for at the start, and that no wait before was for more than 1024.
  pub execute_all-Ends :
      (messages : List (List FrameMessagesTuple)) (w : World)
      → All AreRunnable messages
      → IsKnown Good w
      → (tally w.trace).prepared ≡ (tally w.trace).waited
      → (tally w.trace).longest_wait ≤ max_transactions
      → (w' : World) × (execute_all env codec thread_no polls fuel messages w ≡ ok (tt, w'))
        × ((tally w'.trace).prepared ≡ (tally w'.trace).waited)
        × ((tally w'.trace).longest_wait ≤ max_transactions)
  unfolding execute_all
  execute_all-Ends messages w h k waited longest =
      let (_, w', e, _, _) = >>=-Ends Good _ _ (execute_lists-Ends 0 messages h) finish-Ends w k in
      let (done, bound) =
        execute_all-waits env codec thread_no polls fuel messages w w' waited longest e in
      (w', e, done, bound)
