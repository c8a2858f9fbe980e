-- ===== src/Common/Tasks/Ending.antt =====
-- volodb-common/Test/TaskBase.h: when a task that waits for its responses is done.
use native.Mathlib.Nat.{add-mul, mul-le-mul_right, le_of_mul-le-mul_right}
use volo_db.Prelude.{
  ℕ, zero, suc, ◌+◌, ◌*◌, ◌%◌, ◌^◌, ◌≤◌, ◌<◌, ◌≡◌, ◌≢◌, ◌↔◌, ◌⊎◌, inl, inr, refl, ap, ◌∙◌, pos,
  true, false, List, [], ◌∷◌, arith, length, length-append, leb, ltb, Bool-cases, if◌then◌else◌,
}
use volo_db.Prelude.Int.{to_word, of_word}
use volo_db.Common.Tasks.{
  Source, run, Progress, update_stats, update_all, new_progress, add64, at_least,
}
use volo_db.Common.Tasks.Batches.{batches, run_lem}

abbrev pub messages_of : List (ℕ × ℕ) → ℕ
messages_of [] = 0
messages_of ((messages, bytes) ∷ updates) = messages + messages_of updates

add64-pos : (m k : ℕ) → m + k < 2 ^ 63 → add64 (pos m) k ≡ pos (m + k)
unfolding add64 to_word of_word
add64-pos m k h = ground arith

small_mod : (k : ℕ) → k < 2 ^ 63 → k % 2 ^ 64 ≡ k
small_mod k h = omega arith

at_least-pos : (m n : ℕ) → at_least (pos m) (pos n) ≡ leb n m
unfolding at_least
at_least-pos m n = refl

module _ (n b : ℕ) where
  update_stats-responses :
      (messages bytes m : ℕ) (p : Progress)
      → p.responses_received ≡ pos m
      → m + messages * suc b < 2 ^ 63
      → ((update_stats (pos n) (pos (suc b)) messages bytes p).responses_received
          ≡ pos (m + messages * suc b))
        × ((update_stats (pos n) (pos (suc b)) messages bytes p).end_flag
            ≡ (if leb n (m + messages * suc b) then true else p.end_flag))
  unfolding update_stats to_word at_least
  update_stats-responses messages bytes m p e h =
      let whole : (messages * suc b) % 2 ^ 64 ≡ messages * suc b = small_mod _ (omega arith) in
      (
        rw (whole, e) (add64-pos m (messages * suc b) h),
        rw (whole, e, add64-pos m (messages * suc b) h) refl,
      )

  ended :
      (updates : List (ℕ × ℕ)) (m : ℕ) (p : Progress)
      → p.responses_received ≡ pos m
      → m + messages_of updates * suc b < 2 ^ 63
      → ((update_all (pos n) (pos (suc b)) updates p).end_flag ≡ true)
        ↔ ((p.end_flag ≡ true) ⊎ ((updates ≢ []) × (n ≤ m + messages_of updates * suc b)))
  unfolding update_all
  ended [] m p e h =
      (λ f. inl f, λ c. elim c [ inl f ↦ f | inr (some_update, l) ↦ absurd (some_update refl) ])
  ended ((messages, bytes) ∷ updates) m p e h =
      let spread : (messages + messages_of updates) * suc b
          ≡ messages * suc b + messages_of updates * suc b =
        add-mul messages (messages_of updates) (suc b) in
      let (responses, flag) = update_stats-responses messages bytes m p e (omega arith) in
      let (forward, backward) =
        ended updates (m + messages * suc b) (update_stats (pos n) (pos (suc b)) messages bytes p)
          responses (omega arith) in
      (
        λ f. elim (forward f) [
          | inl g ↦ elim (Bool-cases (leb n (m + messages * suc b))) [
            | inl enough ↦ inr ((λ nil. cc), ground arith)
            | inr less ↦ inl (ground arith)
          ]
          | inr (some_update, l) ↦ inr ((λ nil. cc), omega arith)
        ],
        λ c. elim (Bool-cases (leb n (m + messages * suc b))) [
          | inl enough ↦ backward (inl (ground arith))
          | inr less ↦ elim c [
            | inl g ↦ backward (inl (ground arith))
            | inr (some_update, l) ↦ backward (inr (more updates less l, omega arith))
          ]
        ],
      )
    where
      more :
          (left : List (ℕ × ℕ))
          → leb n (m + messages * suc b) ≡ false
          → n ≤ m + (messages + messages_of left) * suc b
          → left ≢ []
      more [] less l nil = absurd (ground arith)
      more (x ∷ left) less l nil = cc

length-batches :
    {T : Type 0} (source : Source T) (size i q : ℕ) → length (batches source i q size) ≡ q
length-batches source size i zero = refl
length-batches source size i (suc q) = ap suc (length-batches source size (i + size) q)

-- How many batches there are.
abbrev pub batch_count : ℕ → ℕ → ℕ
batch_count q zero = q
batch_count q (suc r) = suc q

length-run :
    {T : Type 0} (source : Source T) (b q r : ℕ)
    → r ≤ b
    → length (run source (pos (suc b)) (pos (q * suc b + r))) ≡ batch_count q r
length-run source b q zero h =
    ap length (run_lem source b q zero h)
    ∙ length-append (batches source 0 q (suc b)) []
    ∙ omega (arith, length-batches source (suc b) 0 q)
length-run source b q (suc r) h =
    ap length (run_lem source b q (suc r) h)
    ∙ length-append (batches source 0 q (suc b)) _
    ∙ omega (arith, length-batches source (suc b) 0 q)

-- Enough responses are as many as there are batches.
enough : (b q r s : ℕ) → r ≤ b → (q * suc b + r ≤ s * suc b) ↔ (batch_count q r ≤ s)
enough b q zero s h = (
  λ l. le_of_mul-le-mul_right {k = suc b} (omega arith) (omega arith),
  λ l. omega (arith, mul-le-mul_right (suc b) l),
)
enough b q (suc r) s h = (
  λ l. elim (Bool-cases (ltb q s)) [
    | inl more ↦ ground arith
    | inr less ↦
        let fewer : s ≤ q = ground arith in absurd (omega (arith, mul-le-mul_right (suc b) fewer))
  ],
  λ l. omega (arith, mul-le-mul_right (suc b) l),
)

-- A task of `q * (b + 1) + r` requests, one at least, in batches of `b + 1`: it has ended once it has
-- counted as many messages of responses as it has sent batches, one for each, and not before,
-- whatever their sizes and however they are grouped. It needs that the counter does not overflow.
pub update_all-run :
    {T : Type 0} (source : Source T) (b q r : ℕ) (updates : List (ℕ × ℕ))
    → r ≤ b
    → 0 < q * suc b + r
    → messages_of updates * suc b < 2 ^ 63
    → ((update_all (pos (q * suc b + r)) (pos (suc b)) updates new_progress).end_flag ≡ true)
      ↔ (length (run source (pos (suc b)) (pos (q * suc b + r))) ≤ messages_of updates)
update_all-run source b q r updates h some_request small =
    let (forward, backward) =
      ended (q * suc b + r) b updates 0 new_progress refl (omega (arith, small)) in
    let (counted, covers) = enough b q r (messages_of updates) h in
    (
      λ f. elim (forward f) [
        | inl e ↦ cc
        | inr (some_update, l) ↦ rw (length-run source b q r h) (counted (omega arith))
      ],
      λ l.
          let sent : batch_count q r ≤ messages_of updates = rw (length-run source b q r h) at l in
          let reached = covers sent in backward (inr (updated updates (omega arith), omega arith)),
    )
  where
    updated : (left : List (ℕ × ℕ)) → 0 < messages_of left * suc b → left ≢ []
    updated [] p nil = absurd (omega arith)
    updated (x ∷ left) p nil = cc
