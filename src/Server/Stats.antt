-- ===== src/Server/Stats.antt =====
-- volodbserver/Test/TestStats.cpp: how the server measures its throughput. An int is its word, and the
-- contents of a new array are an argument, since nothing sets them.
pub mod Totals
use volo_db.Prelude.{
  ℕ, zero, suc, ◌+◌, ◌-◌, ◌/◌, ◌%◌, ◌^◌, ℤ, pos, negsuc, Text, Bool, true, false, Option, none,
  some, List, [], ◌∷◌, ◌++◌, codes, length, replicate, if◌then◌else◌,
}
use volo_db.Prelude.Int.{of_word}
use volo_db.Prelude.Decimal.{to_string}
use volo_db.Prelude.Outcome.{Outcome, ok, undefined, ◌>>=◌}

-- The static members. The counters are null until init; `was_started` is winner_flag.
pub record TestStats : Type 0 where
  pub should_run : Bool
  pub is_running : Bool
  pub no_of_executors : ℕ
  pub warm_up_time : ℕ
  pub total_time : ℕ
  pub counters : Option (List ℕ)
  pub was_started : Bool
  pub has_notify_thread : Bool

unfoldable pub init : Bool → ℕ → ℕ → ℕ → List ℕ → TestStats → TestStats
init do_run number_of_executors w_time t_time fresh stats = record stats {
  should_run = do_run;
  is_running = false;
  no_of_executors = number_of_executors;
  warm_up_time = w_time;
  total_time = t_time;
  counters = some fresh;
}

-- start, which calls runInternal once in the life of the program.
unfoldable pub start : TestStats → TestStats
start stats =
    if stats.was_started
    then stats
    else record stats { was_started = true; has_notify_thread = true }

-- The callback's `totalOperationsExecutedByServer[executorThreadNo] += size`.
unfoldable pub count_at : ℕ → ℕ → List ℕ → List ℕ
count_at k size [] = []
count_at zero size (c ∷ counters) = (c + size) % 2 ^ 32 ∷ counters
count_at (suc k) size (c ∷ counters) = c ∷ count_at k size counters

unfoldable pub count_all : List (ℕ × ℕ) → List ℕ → List ℕ
unfolding count_at
count_all [] counters = counters
count_all ((k, size) ∷ counts) counters = count_all counts (count_at k size counters)

-- transform with minus, of arrays of one length.
minus_each : List ℕ → List ℕ → List ℕ
minus_each [] before = []
minus_each (a ∷ after) [] = []
minus_each (a ∷ after) (b ∷ before) = (a + 2 ^ 32 - b) % 2 ^ 32 ∷ minus_each after before

accumulate : List ℕ → ℕ → ℕ
accumulate [] sum = sum
accumulate (x ∷ xs) sum = accumulate xs ((sum + x) % 2 ^ 32)

-- totalOperationsExecutedInTime, in printStats and in runContinuous.
unfoldable pub total_operations : List ℕ → List ℕ → ℕ
unfolding minus_each accumulate
total_operations before after = accumulate (minus_each after before) 0

-- The division of ints, which cuts towards zero.
quotient : ℤ → ℕ → Outcome ℤ
quotient z zero = undefined
quotient (pos n) (suc t) = ok (pos (n / suc t))
quotient (negsuc n) (suc t) = ok (elim (suc n / suc t) [ zero ↦ pos 0 | suc q ↦ negsuc q ])

-- printStats: the lines of the file, if it can be opened.
unfoldable pub print_stats : Bool → ℕ → List ℕ → List ℕ → Outcome (List Text)
unfolding quotient total_operations to_string of_word
print_stats is_open total_time before after =
    let total = of_word (2 ^ 31) (total_operations before after) in
    if is_open
    then (do
      throughput ← quotient total total_time
      ok (
          to_string throughput
          ∷ []
          ∷ (codes "Total requests processed: " ++ to_string total)
          ∷ (codes "Total Time Bechmaked: " ++ to_string (pos total_time))
          ∷ []))
    else ok []

-- run, around its two sleeps: what it does at once, and what it does with the copies that it has
-- taken after each of them.
unfoldable pub begin_run : TestStats → TestStats
begin_run stats = record stats { is_running = true; should_run = false }

unfoldable pub end_run :
    Bool → List ℕ → List ℕ → List ℕ → TestStats → Outcome (List Text × TestStats)
unfolding print_stats init
end_run is_open fresh before after stats = do
  lines ← print_stats is_open stats.total_time before after
  ok (
    lines,
    init false stats.no_of_executors stats.warm_up_time stats.total_time fresh
        (record stats { is_running = false }),
  )
