-- ===== src/Server/Executor/Batch/Waiting.antt =====
-- volodbserver/Store/NDBMessageExecutor.cpp: how many transactions are left to NDB at once.
use volo_db.Prelude.{
  ◌==◌, ℕ, ◌+◌, ◌≤◌, ◌<◌, ◌≡◌, Bool, true, false, Option, none, some, List, [], ◌∷◌, arith, ltb,
  if◌then◌else◌, Bool-cases, inl, inr,
}
use volo_db.Prelude.Outcome.{ok}
use volo_db.Proto.Wire.{Codec}
use volo_db.Frame.Decoder.{FrameMessagesTuple}
use volo_db.Server.Ndb.{Environment, Event, World, ◌>>=◌, pure, >>=-eq_ok, wait_for_transactions}
use volo_db.Server.Ndb.Tally.{tally}
use volo_db.Server.Executor.Transaction.{execute_tuple}
use volo_db.Server.Executor.Transaction.Requests.{execute_tuple-balanced, execute_tuple-no_wait}
use volo_db.Server.Executor.Batch.{
  wait, waited_for, max_transactions, count_request, execute_tuples, execute_lists, finish,
  execute_all,
}

module _ (env : Environment) (codec : Codec) (thread_no : ℕ) (polls : List Event → ℕ → ℕ)
    (fuel : ℕ → ℕ) where
  -- The counter is the number of transactions that are handed over and not waited for.
  record Counts (w : World) (total_transactions : ℕ) : Type 0 where
    pub outstanding : (tally w.trace).prepared ≡ (tally w.trace).waited + total_transactions
    pub below : total_transactions < max_transactions
    pub bounded : (tally w.trace).longest_wait ≤ max_transactions

  waited_for-event :
      (total : ℕ) (r : Option ℕ) (w w' : World)
      → waited_for env codec thread_no polls fuel total r w ≡ ok (tt, w')
      → w' ≡ record w { trace = wait_for_transactions total ∷ w.trace }
  unfolding waited_for
  waited_for-event total none w w' e = cc
  waited_for-event total (some n) w w' e = ground arith

  -- A wait that has ended is an event, and nothing else has changed.
  wait-event :
      (total : ℕ) (w w' : World)
      → wait env codec thread_no polls fuel total w ≡ ok (tt, w')
      → w' ≡ record w { trace = wait_for_transactions total ∷ w.trace }
  unfolding wait
  wait-event total w w' e = waited_for-event total _ w w' e

  count_request-Counts :
      (total n : ℕ) (b : Bool) (w w' : World)
      → (tally w.trace).prepared ≡ (tally w.trace).waited + total + (if b then 1 else 0)
      → total < max_transactions
      → (tally w.trace).longest_wait ≤ max_transactions
      → count_request env codec thread_no polls fuel total b w ≡ ok (n, w')
      → Counts w' n
  unfolding count_request
  count_request-Counts total n false w w' p q r e = ground arith
  count_request-Counts total n true w w' p q r e =
      elim (Bool-cases (total + 1 == max_transactions)) [
        | inr more ↦ let f = rw more at e in ground arith
        | inl full ↦
            let (_, v, waits, zeroed) =
              >>=-eq_ok (wait env codec thread_no polls fuel (total + 1)) (λ _. pure 0) w
                (rw full at e) in
            let event = wait-event (total + 1) w v waits in ground arith
      ]

  execute_tuples-Counts :
      (total n : ℕ) (tuples : List FrameMessagesTuple) (w w' : World)
      → Counts w total
      → execute_tuples env codec thread_no polls fuel total tuples w ≡ ok (n, w')
      → Counts w' n
  unfolding execute_tuples
  execute_tuples-Counts total n [] w w' c e = ground arith
  execute_tuples-Counts total n (tuple ∷ tuples) w w' c e =
      let (b, u, p, q) =
        >>=-eq_ok (execute_tuple env codec thread_no tuple)
          (λ res. count_request env codec thread_no polls fuel total res >>= λ k.
            execute_tuples env codec thread_no polls fuel k tuples)
          w e in
      let (k, v, r, s) =
        >>=-eq_ok (count_request env codec thread_no polls fuel total b)
          (λ k. execute_tuples env codec thread_no polls fuel k tuples) u q in
      let (live, handed) = execute_tuple-balanced env codec thread_no tuple w u b p in
      let (same, longest) = execute_tuple-no_wait env codec thread_no tuple w u b p in
      execute_tuples-Counts k n tuples v w'
        (count_request-Counts total k b u v (omega arith) c.below (omega arith) r) s

  execute_lists-Counts :
      (total n : ℕ) (messages : List (List FrameMessagesTuple)) (w w' : World)
      → Counts w total
      → execute_lists env codec thread_no polls fuel total messages w ≡ ok (n, w')
      → Counts w' n
  unfolding execute_lists
  execute_lists-Counts total n [] w w' c e = ground arith
  execute_lists-Counts total n (tuples ∷ messages) w w' c e =
      let (k, v, p, q) =
        >>=-eq_ok (execute_tuples env codec thread_no polls fuel total tuples)
          (λ k. execute_lists env codec thread_no polls fuel k messages) w e in
      execute_lists-Counts k n messages v w' (execute_tuples-Counts total k tuples w v c p) q

  -- A thread that has nothing left to wait for takes a batch of requests: when the batch is done it
  -- has waited for every transaction that was handed over, never for more than 1024 at once.
  pub execute_all-waits :
      (messages : List (List FrameMessagesTuple)) (w w' : World)
      → (tally w.trace).prepared ≡ (tally w.trace).waited
      → (tally w.trace).longest_wait ≤ max_transactions
      → execute_all env codec thread_no polls fuel messages w ≡ ok (tt, w')
      → ((tally w'.trace).prepared ≡ (tally w'.trace).waited)
        × ((tally w'.trace).longest_wait ≤ max_transactions)
  unfolding execute_all finish
  execute_all-waits messages w w' h l e =
      let (n, v, p, q) =
        >>=-eq_ok (execute_lists env codec thread_no polls fuel 0 messages)
          (finish env codec thread_no polls fuel) w e in
      let c = execute_lists-Counts 0 n messages w v (omega arith) p in
      elim (Bool-cases (ltb 0 n)) [
        | inr none_left ↦ let f = rw none_left at q in ground arith
        | inl some_left ↦ let event = wait-event n v w' (rw some_left at q) in ground arith
      ]
