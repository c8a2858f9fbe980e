-- ===== src/Common/Tasks.antt =====
-- volodb-common/Test/TaskBase.h: a task of a test, which sends its requests in bulk and waits for as
-- many responses. A class derived from it gives the data and the sends.
pub mod Batches
pub mod Ending
use volo_db.Prelude.{
  ℕ, zero, suc, ◌+◌, ◌*◌, ◌%◌, ◌^◌, ℤ, pos, negsuc, Bool, true, false, Option, none, some, List, [],
  ◌∷◌, ◌++◌, length, ltb, leb, ◌==◌, if◌then◌else◌,
}
use volo_db.Prelude.Int.{to_word, of_word}

-- The data of a request, from its number and its size: of the delegate, if there is one, or of the
-- task.
pub record Source (T : Type 0) : Type 0 where
  pub delegate : Option (ℕ → ℤ → T)
  pub own : ℕ → ℤ → T
  pub request_size : ℤ

-- A delegate is told the counter for a size.
unfoldable pub get_data : {T : Type 0} → Source T → ℕ → ℕ → T
get_data source i counter = elim source.delegate [
  | none ↦ source.own i source.request_size
  | some data_of ↦ data_of i (pos counter)
]

-- counter == _bulkSize - 1.
unfoldable pub is_last : ℤ → ℕ → Bool
is_last (pos zero) counter = false
is_last (pos (suc b)) counter = counter == b
is_last (negsuc b) counter = false

module _ {T : Type 0} (source : Source T) (bulk_size : ℤ) where
  -- The loop with the passes that are left, the number of the request, what is prepared and the
  -- counter; the result is what sendData is called with.
  unfoldable pub send_from : ℕ → ℕ → List T → ℕ → List (List T)
  unfolding get_data is_last
  send_from zero i prepared_messages counter =
      if ltb 0 (length prepared_messages) then prepared_messages ∷ [] else []
  send_from (suc left) i prepared_messages counter =
      let message = get_data source i counter in
      let after_send = send_from left (suc i) [] 0 in
      let after_count = send_from left (suc i) (prepared_messages ++ message ∷ []) (suc counter) in
      if is_last bulk_size counter
      then (prepared_messages ++ message ∷ []) ∷ after_send
      else after_count

  -- run, up to its wait: the loop has a pass for each request, and none for a number below zero.
  unfoldable pub run : ℤ → List (List T)
  unfolding send_from
  run (pos no_requests) = send_from no_requests 0 [] 0
  run (negsuc k) = []

-- What waitTillEnd waits for, and the two counters, which are long long.
pub record Progress : Type 0 where
  pub responses_received : ℤ
  pub total_bytes_received : ℤ
  pub end_flag : Bool

-- The word of a long long after an addition.
add64 : ℤ → ℕ → ℤ
unfolding to_word of_word
add64 z n = of_word (2 ^ 63) ((to_word (2 ^ 63) z + n) % 2 ^ 64)

at_least : ℤ → ℤ → Bool
at_least (pos m) (pos n) = leb n m
at_least (pos m) (negsuc n) = true
at_least (negsuc m) (pos n) = false
at_least (negsuc m) (negsuc n) = leb m n

-- updateStats. The product is of a size_t, as which a bulk size below zero is very large.
unfoldable pub update_stats : ℤ → ℤ → ℕ → ℕ → Progress → Progress
unfolding add64 at_least to_word
update_stats no_requests bulk_size total_messages total_bytes progress =
    let responses =
      add64 progress.responses_received ((total_messages * to_word (2 ^ 63) bulk_size) % 2 ^ 64) in
    record {
      responses_received = responses;
      total_bytes_received = add64 progress.total_bytes_received total_bytes;
      end_flag = if at_least responses no_requests then true else progress.end_flag;
    }

abbrev pub new_progress : Progress
new_progress = record { responses_received = pos 0; total_bytes_received = pos 0; end_flag = false }

-- The messages of responses, in the order in which they are counted.
unfoldable pub update_all : ℤ → ℤ → List (ℕ × ℕ) → Progress → Progress
unfolding update_stats
update_all no_requests bulk_size [] progress = progress
update_all no_requests bulk_size ((messages, bytes) ∷ updates) progress =
    update_all no_requests bulk_size updates
      (update_stats no_requests bulk_size messages bytes progress)
