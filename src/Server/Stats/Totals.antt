-- ===== src/Server/Stats/Totals.antt =====
-- volodbserver/Test/TestStats.cpp: what a measurement counts.
use volo_db.Prelude.{
  ℕ, zero, suc, ◌+◌, ◌/◌, ◌%◌, ◌^◌, ◌<◌, ◌≡◌, refl, sym, ap, ◌∙◌, pos, true, List, [], ◌∷◌, ◌++◌,
  codes, arith, length, All,
}
use volo_db.Prelude.Int.{of_word}
use volo_db.Prelude.Decimal.{to_string}
use volo_db.Prelude.Outcome.{ok}
use volo_db.Server.Stats.{
  count_at, count_all, minus_each, accumulate, total_operations, quotient, print_stats,
}

-- How many operations the callbacks have counted.
abbrev pub counted : List (ℕ × ℕ) → ℕ
counted [] = 0
counted ((k, size) ∷ counts) = size + counted counts

abbrev sum : List ℕ → ℕ
sum [] = 0
sum (x ∷ xs) = x + sum xs

accumulate-sum : (xs : List ℕ) (s : ℕ) → accumulate xs s % 2 ^ 32 ≡ (s + sum xs) % 2 ^ 32
unfolding accumulate
accumulate-sum [] s = omega arith
accumulate-sum (x ∷ xs) s = omega (arith, accumulate-sum xs ((s + x) % 2 ^ 32))

accumulate-lt : (xs : List ℕ) (s : ℕ) → s < 2 ^ 32 → accumulate xs s < 2 ^ 32
unfolding accumulate
accumulate-lt [] s h = h
accumulate-lt (x ∷ xs) s h = accumulate-lt xs ((s + x) % 2 ^ 32) (omega arith)

-- Arrays of one length whose entries are words.
abbrev pub Words : List ℕ → Type 0
Words = All (λ c. c < 2 ^ 32)

count_at-Words : (k size : ℕ) (cs : List ℕ) → Words cs → Words (count_at k size cs)
unfolding count_at
count_at-Words k size [] h = tt
count_at-Words zero size (c ∷ cs) h = (omega arith, h.1)
count_at-Words (suc k) size (c ∷ cs) h = (h.0, count_at-Words k size cs h.1)

length-count_at : (k size : ℕ) (cs : List ℕ) → length (count_at k size cs) ≡ length cs
unfolding count_at
length-count_at k size [] = refl
length-count_at zero size (c ∷ cs) = refl
length-count_at (suc k) size (c ∷ cs) = ap suc (length-count_at k size cs)

minus_each-count_at :
    (k size : ℕ) (before after : List ℕ)
    → Words before
    → Words after
    → length before ≡ length after
    → k < length after
    → sum (minus_each (count_at k size after) before) % 2 ^ 32
      ≡ (sum (minus_each after before) + size) % 2 ^ 32
unfolding minus_each count_at
minus_each-count_at k size before [] h i e l = absurd (omega arith)
minus_each-count_at k size [] (a ∷ after) h i e l = absurd (omega arith)
minus_each-count_at zero size (b ∷ before) (a ∷ after) h i e l =
    let small = h.0 in let little = i.0 in omega arith
minus_each-count_at (suc k) size (b ∷ before) (a ∷ after) h i e l =
    omega (arith, minus_each-count_at k size before after h.1 i.1 (omega arith) (omega arith))

minus_each_itself : (cs : List ℕ) → Words cs → sum (minus_each cs cs) ≡ 0
unfolding minus_each
minus_each_itself [] h = refl
minus_each_itself (c ∷ cs) h = let small = h.0 in omega (arith, minus_each_itself cs h.1)

count_all_lem :
    (counts : List (ℕ × ℕ)) (before after : List ℕ)
    → Words before
    → Words after
    → length before ≡ length after
    → All (λ c. c.0 < length after) counts
    → sum (minus_each (count_all counts after) before) % 2 ^ 32
      ≡ (sum (minus_each after before) + counted counts) % 2 ^ 32
unfolding count_all
count_all_lem [] before after h i e l = omega arith
count_all_lem ((k, size) ∷ counts) before after h i e l = omega (
  arith,
  minus_each-count_at k size before after h i e l.0,
  count_all_lem counts before (count_at k size after) h (count_at-Words k size after i)
      (e ∙ sym (length-count_at k size after)) (rw (length-count_at k size after) l.1),
)

total_operations-count_all :
    (counts : List (ℕ × ℕ)) (before : List ℕ)
    → Words before
    → All (λ c. c.0 < length before) counts
    → counted counts < 2 ^ 31
    → total_operations before (count_all counts before) ≡ counted counts
unfolding total_operations
total_operations-count_all counts before h l small =
    let after = minus_each (count_all counts before) before in
    omega (
      arith,
      accumulate-sum after 0,
      accumulate-lt after 0 (omega arith),
      count_all_lem counts before before h h refl l,
      minus_each_itself before h,
    )

-- Whatever is in the counters when a measurement begins: it reports the number of operations that
-- the callbacks of all executors have counted in its time, and the quotient by the seconds that it
-- took, without the rest. It needs that the time is not 0, that the callbacks count at executors
-- that there are, and that there are fewer than 2^31 operations.
pub print_stats_lem :
    (total_time : ℕ) (counts : List (ℕ × ℕ)) (before : List ℕ)
    → 0 < total_time
    → All (λ c. c < 2 ^ 32) before
    → All (λ c. c.0 < length before) counts
    → counted counts < 2 ^ 31
    → print_stats true total_time before (count_all counts before)
      ≡ ok (
          to_string (pos (counted counts / total_time))
          ∷ []
          ∷ (codes "Total requests processed: " ++ to_string (pos (counted counts)))
          ∷ (codes "Total Time Bechmaked: " ++ to_string (pos total_time))
          ∷ [])
unfolding print_stats of_word quotient
print_stats_lem zero counts before t h l small = absurd (omega arith)
print_stats_lem (suc seconds) counts before t h l small =
    rw (total_operations-count_all counts before h l small, positive (counted counts) small) refl
  where
    positive : (n : ℕ) → n < 2 ^ 31 → of_word (2 ^ 31) n ≡ pos n
    positive n s = ground arith
