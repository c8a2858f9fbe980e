-- ===== src/Server/Executor/Batch/Polls.antt =====
-- volodbserver/Store/NDBMessageExecutor.cpp: when a wait for transactions ends.
use volo_db.Prelude.{
  ℕ, zero, suc, ◌+◌, ◌≤◌, ◌<◌, ◌≡◌, refl, ap, ◌⊎◌, true, none, some, arith, ltb, Bool-cases, inl,
  inr, ltb→lt,
}
use volo_db.Server.Executor.Batch.{wait_from, wait_for_transactions_to_complete}

-- What the first polls report together.
unfoldable pub reported : (ℕ → ℕ) → ℕ → ℕ
reported polls zero = 0
reported polls (suc k) = reported polls k + polls k

reported_next : (polls : ℕ → ℕ) (i : ℕ) → reported polls (i + 1) ≡ reported polls i + polls i
unfolding reported
reported_next polls i = let next : i + 1 ≡ suc i = omega arith in rw next refl

reported_moved :
    (polls : ℕ → ℕ) (f i : ℕ) → reported polls (suc f + i) ≡ reported polls (f + (i + 1))
reported_moved polls f i =
    let same : suc f + i ≡ f + (i + 1) = omega arith in ap (reported polls) same

reported_grows : (polls : ℕ → ℕ) (f i : ℕ) → reported polls i ≤ reported polls (f + i)
reported_grows polls zero i =
    let same : 0 + i ≡ i = omega arith in let e = ap (reported polls) same in omega arith
reported_grows polls (suc f) i =
    let l = reported_grows polls f (i + 1) in
    let next = reported_next polls i in let moved = reported_moved polls f i in omega arith

-- It is the k-th poll, and none before it, with which as many are reported as are waited for.
abbrev pub Reaches : (ℕ → ℕ) → ℕ → ℕ → Type 0
Reaches polls total k = (total ≤ reported polls k) × ((j : ℕ) → j < k → reported polls j < total)

Before-next :
    (polls : ℕ → ℕ) (i total : ℕ)
    → ((j : ℕ) → j < i → reported polls j < total)
    → reported polls i < total
    → (j : ℕ) → j < i + 1
    → reported polls j < total
Before-next polls i total before more j l = elim (Bool-cases (ltb j i)) [
  | inl earlier ↦ before j (ltb→lt j i earlier)
  | inr not_earlier ↦ let same : j ≡ i = ground arith in rw same more
]

wait_from-ends :
    (polls : ℕ → ℕ) (f i c total : ℕ)
    → c ≡ reported polls i
    → ((j : ℕ) → j < i → reported polls j < total)
    → total ≤ reported polls (f + i)
    → (k : ℕ) × (wait_from polls (suc f) i c total ≡ some (reported polls k))
      × Reaches polls total k
unfolding wait_from
wait_from-ends polls zero i c total e before h = elim (Bool-cases (ltb c total)) [
  | inr done ↦ (i, rw done (ap some e), (ground arith, before))
  | inl more ↦
      let l = ltb→lt c total more in
      let same : 0 + i ≡ i = omega arith in
      let end = ap (reported polls) same in absurd (omega arith)
]
wait_from-ends polls (suc f) i c total e before h = elim (Bool-cases (ltb c total)) [
  | inr done ↦ (i, rw done (ap some e), (ground arith, before))
  | inl more ↦
      let l = ltb→lt c total more in
      let below : reported polls i < total = omega arith in
      let next = reported_next polls i in
      let moved = reported_moved polls f i in
      rw more (
        wait_from-ends polls f (i + 1) (c + polls i) total (omega arith)
          (Before-next polls i total before below) (omega arith))
]

wait_from-none :
    (polls : ℕ → ℕ) (f i c total : ℕ)
    → c ≡ reported polls i
    → reported polls (f + i) < total
    → wait_from polls (suc f) i c total ≡ none
unfolding wait_from
wait_from-none polls zero i c total e h =
    let l = reported_grows polls 0 i in let more : ltb c total ≡ true = ground arith in rw more refl
wait_from-none polls (suc f) i c total e h =
    let l = reported_grows polls (suc f) i in
    let more : ltb c total ≡ true = ground arith in
    let next = reported_next polls i in
    let moved = reported_moved polls f i in
    rw more (wait_from-none polls f (i + 1) (c + polls i) total (omega arith) (omega arith))

within :
    (polls : ℕ → ℕ) (k fuel total : ℕ)
    → Reaches polls total k
    → total ≤ reported polls fuel
    → k ≤ fuel
within polls k fuel total (reached, before) h = elim (Bool-cases (ltb fuel k)) [
  | inl over ↦ let l = before fuel (ltb→lt fuel k over) in absurd (omega arith)
  | inr not_over ↦ ground arith
]

-- A wait for some transactions ends exactly if the polls that its fuel allows report as many or more
-- together, and then with the first of them that brings the count to as many: it polls no more, and
-- the result is what has been reported. A wait for none does not poll.
pub wait_for_transactions_to_complete_lem :
    (polls : ℕ → ℕ) (fuel total : ℕ)
    → ((k : ℕ) × (wait_for_transactions_to_complete polls fuel total ≡ some (reported polls k))
        × Reaches polls total k
        × (k ≤ fuel))
      ⊎ ((wait_for_transactions_to_complete polls fuel total ≡ none)
          × (reported polls fuel < total))
unfolding wait_for_transactions_to_complete reported
wait_for_transactions_to_complete_lem polls fuel zero =
    inl (0, refl, (omega arith, λ j l. absurd (omega arith)), omega arith)
wait_for_transactions_to_complete_lem polls zero (suc total) =
    let some_left : ltb 0 (suc total) ≡ true = ground arith in inr (rw some_left refl, omega arith)
wait_for_transactions_to_complete_lem polls (suc f) (suc total) =
    let some_left : ltb 0 (suc total) ≡ true = ground arith in
    let one_more : f + 1 ≡ suc f = omega arith in
    let same = ap (reported polls) one_more in
    let first : polls 0 ≡ reported polls 1 = omega arith in
    let before : (j : ℕ) → j < 1 → reported polls j < suc total =
      λ j l. let zeroth : j ≡ 0 = omega arith in rw zeroth (omega arith) in
    elim (Bool-cases (ltb (reported polls (suc f)) (suc total))) [
      | inl fewer ↦
          let l = ltb→lt _ _ fewer in
          inr (rw some_left (wait_from-none polls f 1 (polls 0) (suc total) first (omega arith)), l)
      | inr enough ↦
          let all_there : suc total ≤ reported polls (suc f) = ground arith in
          let (k, ended, reached) =
            wait_from-ends polls f 1 (polls 0) (suc total) first before (omega arith) in
          inl (k, rw some_left ended, reached, within polls k (suc f) (suc total) reached all_there)
    ]
