-- ===== src/Server/Executor/Batch.antt =====
-- volodbserver/Store/NDBMessageExecutor.cpp: the requests that an executor thread takes at once.
pub mod Polls
pub mod Waiting
pub mod Ends
use volo_db.Prelude.{
  ℕ, zero, suc, ◌+◌, ◌-◌, Bool, true, false, Option, none, some, List, [], ◌∷◌, ltb, ◌==◌,
  if◌then◌else◌,
}
use volo_db.Proto.Wire.{Codec}
use volo_db.Frame.Decoder.{FrameMessagesTuple}
use volo_db.Server.Ndb.{
  Environment, Event, World, M, ◌>>=◌, ◌>>◌, pure, fault, call, wait_for_transactions,
}
use volo_db.Server.Executor.Transaction.{execute_tuple}

-- The loop of waitForTransactionsToComplete: `polls i` is what the i-th call of sendPollNdb or
-- pollNdb returns. The result is how many have completed; `none` means that the fuel ran out.
wait_from : (ℕ → ℕ) → ℕ → ℕ → ℕ → ℕ → Option ℕ
wait_from polls zero i completed total = none
wait_from polls (suc f) i completed total =
    let rest = wait_from polls f (i + 1) (completed + polls i) total in
    if ltb completed total then rest else some completed

unfoldable pub wait_for_transactions_to_complete : (ℕ → ℕ) → ℕ → ℕ → Option ℕ
unfolding wait_from
wait_for_transactions_to_complete polls fuel total =
    let rest = wait_from polls fuel 1 (polls 0) total in if ltb 0 total then rest else some 0

-- The most transactions that are left to NDB before it is waited for.
abbrev pub max_transactions : ℕ
max_transactions = 1024

-- The answers of the polls to come, which may depend on the trace before the wait, and the fuel for a
-- wait by the number of transactions.
module _ (env : Environment) (codec : Codec) (thread_no : ℕ) (polls : List Event → ℕ → ℕ)
    (fuel : ℕ → ℕ) where
  waited_for : ℕ → Option ℕ → M (Unit {0})
  unfolding call
  waited_for total_transactions none = fault
  waited_for total_transactions (some completed) = call (wait_for_transactions total_transactions)

  -- A wait that ends is an event of the trace; one that does not within its fuel gives no result.
  wait : ℕ → M (Unit {0})
  unfolding waited_for wait_for_transactions_to_complete
  wait total_transactions w =
      waited_for total_transactions
        (wait_for_transactions_to_complete (polls w.trace) (fuel total_transactions)
          total_transactions)
        w

  -- After one request: the count of transactions, with the wait when it reaches the most.
  count_request : ℕ → Bool → M ℕ
  unfolding wait
  count_request total_transactions false = pure total_transactions
  count_request total_transactions true =
      if total_transactions + 1 == max_transactions
      then (wait (total_transactions + 1) >> pure 0)
      else pure (total_transactions + 1)

  -- The loop over the requests of one message.
  execute_tuples : ℕ → List FrameMessagesTuple → M ℕ
  unfolding execute_tuple count_request
  execute_tuples total_transactions [] = pure total_transactions
  execute_tuples total_transactions (tuple ∷ tuples) =
      execute_tuple env codec thread_no tuple >>= λ res.
      count_request total_transactions res >>= λ total. execute_tuples total tuples

  -- The loop over the messages, each of which is the list of requests that it points to.
  execute_lists : ℕ → List (List FrameMessagesTuple) → M ℕ
  unfolding execute_tuples
  execute_lists total_transactions [] = pure total_transactions
  execute_lists total_transactions (tuples ∷ messages) =
      execute_tuples total_transactions tuples >>= λ total. execute_lists total messages

  finish : ℕ → M (Unit {0})
  unfolding wait
  finish total_transactions = if ltb 0 total_transactions then wait total_transactions else pure tt

  -- execute(messages).
  unfoldable pub execute_all : List (List FrameMessagesTuple) → M (Unit {0})
  unfolding execute_lists finish
  execute_all messages = execute_lists 0 messages >>= finish
