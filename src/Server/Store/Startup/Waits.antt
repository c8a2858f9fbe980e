-- ===== src/Server/Store/Startup/Waits.antt =====
-- volodbserver/Store/Store.cpp: when a store that is run has waited for its executors.
use volo_db.Prelude.{
  ℕ, zero, suc, ◌+◌, ◌≤◌, ◌<◌, ◌≡◌, ◌↔◌, refl, sym, ap, Bool, true, false, arith, ltb, ◌==◌, set_at,
  Bool-cases, inl, inr, if◌then◌else◌,
}
use volo_db.Server.Store.Startup.{
  Startup, Reachable, ran, counts, tests, add_executor_initialization_count,
  wait_for_executors_to_initialize,
}

-- How many of the first numbers pass a test.
abbrev pub tally : ℕ → (ℕ → Bool) → ℕ
tally zero f = 0
tally (suc n) f = (if f n then 1 else 0) + tally n f

tally-le : (n : ℕ) (f : ℕ → Bool) → tally n f ≤ n
tally-le zero f = omega arith
tally-le (suc n) f = ground (arith, tally-le n f)

tally_full : (n : ℕ) (f : ℕ → Bool) → n ≤ tally n f → (k : ℕ) → k < n → f k ≡ true
tally_full zero f h k l = absurd (omega arith)
tally_full (suc n) f h k l = elim (Bool-cases (k == n)) [
  | inl e ↦ let same : k ≡ n = ground arith in rw same (ground (arith, tally-le n f))
  | inr e ↦
      let below : k < n = ground arith in
      let rest : n ≤ tally n f = ground arith in tally_full n f rest k below
]

tally_all : (n : ℕ) (f : ℕ → Bool) → ((k : ℕ) → k < n → f k ≡ true) → tally n f ≡ n
tally_all zero f h = refl
tally_all (suc n) f h =
    rw (h n (omega arith)) (omega (arith, tally_all n f (λ k l. h k (omega arith))))

tally-set_at_above : (n k : ℕ) (f : ℕ → Bool) → n ≤ k → tally n (set_at k true f) ≡ tally n f
tally-set_at_above zero k f h = refl
tally-set_at_above (suc n) k f h =
    let other : (k == n) ≡ false = ground arith in
    rw other (ap (λ t. (if f n then 1 else 0) + t) (tally-set_at_above n k f (omega arith)))

tally-set_at :
    (n k : ℕ) (f : ℕ → Bool) → k < n → f k ≡ false → tally n (set_at k true f) ≡ tally n f + 1
tally-set_at zero k f h e = absurd (omega arith)
tally-set_at (suc n) k f h e = elim (Bool-cases (k == n)) [
  | inl s ↦
      let same : k ≡ n = ground arith in
      let unset : f n ≡ false = rw same at e in
      rw (s, unset) (omega (arith, tally-set_at_above n k f (omega arith)))
  | inr s ↦ let below : k < n = ground arith in rw s (omega (arith, tally-set_at n k f below e))
]

-- The count is that of the executors that have counted, and a wait that is over was over at n.
pub record IsCounted (n : ℕ) (s : Startup) : Type 0 where
  pub count_is : s.current_executor_init_count ≡ tally n s.counted
  pub all_counted : s.has_waited ≡ true → n ≤ s.current_executor_init_count

tally_none : (n : ℕ) → tally n (λ k. false) ≡ 0
tally_none zero = refl
tally_none (suc n) = omega (arith, tally_none n)

few :
    (n : ℕ) (s : Startup)
    → ltb s.current_executor_init_count n ≡ true
    → s.current_executor_init_count < n
few n s h = ground arith

many :
    (n : ℕ) (s : Startup)
    → ltb s.current_executor_init_count n ≡ false
    → n ≤ s.current_executor_init_count
many n s h = ground arith

Reachable-IsCounted : (n : ℕ) (s : Startup) → Reachable n s → IsCounted n s
unfolding add_executor_initialization_count wait_for_executors_to_initialize
Reachable-IsCounted n s ran = record { count_is = sym (tally_none n); all_counted = λ e. absurd cc }
Reachable-IsCounted n s (counts {startup = before} k r l e) =
    let earlier = Reachable-IsCounted n before r in
    record {
      count_is = omega (arith, earlier.count_is, tally-set_at n k before.counted l e);
      all_counted = λ w. omega (arith, earlier.all_counted w);
    }
Reachable-IsCounted n s (tests {startup = before} r) =
    let earlier = Reachable-IsCounted n before r in
    elim (Bool-cases (ltb before.current_executor_init_count n)) [
      | inl less ↦ rw less earlier
      | inr more ↦
          rw more (record { count_is = earlier.count_is; all_counted = λ w. ground (arith, more) })
    ]

-- In whatever order the executors count themselves, and however often run looks in between: where it
-- looks, it is behind its wait if and only if every executor has counted. So it neither goes on too
-- early nor waits on when all are there.
pub wait_for_executors_to_initialize_lem :
    (n : ℕ) (s : Startup)
    → Reachable n s
    → ((wait_for_executors_to_initialize n s).has_waited ≡ true)
      ↔ ((k : ℕ) → k < n → s.counted k ≡ true)
unfolding wait_for_executors_to_initialize
wait_for_executors_to_initialize_lem n s r =
    let now = Reachable-IsCounted n s r in
    elim (Bool-cases (ltb s.current_executor_init_count n)) [
      | inl less ↦ (
        λ w. absurd (omega (arith, now.all_counted (rw less at w), few n s less)),
        λ all. absurd (omega (arith, now.count_is, tally_all n s.counted all, few n s less)),
      )
      | inr more ↦ (
        λ w k l. tally_full n s.counted (omega (arith, now.count_is, many n s more)) k l,
        λ all. rw more refl,
      )
    ]
