-- ===== src/Common/Tasks/Batches.antt =====
-- volodb-common/Test/TaskBase.h: the batches that a task sends.
use volo_db.Prelude.{
  ℕ, zero, suc, ◌+◌, ◌*◌, ◌≤◌, ◌<◌, ◌≡◌, refl, sym, ap, ◌∙◌, pos, List, [], ◌∷◌, ◌++◌, append_assoc,
  append-nil, arith, length, ltb, ◌==◌, true, false,
}
use volo_db.Common.Tasks.{Source, get_data, is_last, send_from, run}

module _ {T : Type 0} (source : Source T) where
  -- The messages of `m` requests from number `i` on, the first of which is at place `c` of its batch.
  abbrev pub segment : ℕ → ℕ → ℕ → List T
  segment i c zero = []
  segment i c (suc m) = get_data source i c ∷ segment (suc i) (suc c) m

  -- So many batches of one size.
  abbrev pub batches : ℕ → ℕ → ℕ → List (List T)
  batches i zero size = []
  batches i (suc q) size = segment i 0 size ∷ batches (i + size) q size

  -- A last batch, unless it is empty.
  abbrev pub rest_of : List T → List (List T)
  rest_of [] = []
  rest_of (message ∷ messages) = (message ∷ messages) ∷ []

  module _ (b : ℕ) where
    sends : ℕ → ℕ → List T → ℕ → List (List T)
    unfolding send_from
    sends left i prepared c = send_from source (pos (suc b)) left i prepared c

    sends_same :
        {left left' i i' c c' : ℕ} {prepared prepared' : List T}
        → left ≡ left'
        → i ≡ i'
        → prepared ≡ prepared'
        → c ≡ c'
        → sends left i prepared c ≡ sends left' i' prepared' c'
    sends_same l e p d = rw (l, e, p, d) refl

    sends_more :
        (left i c : ℕ) (prepared : List T)
        → c < b
        → sends (suc left) i prepared c
          ≡ sends left (suc i) (prepared ++ get_data source i c ∷ []) (suc c)
    unfolding sends is_last
    sends_more left i c prepared h = let more : (c == b) ≡ false = ground arith in rw more refl

    sends_last :
        (left i c : ℕ) (prepared : List T)
        → c ≡ b
        → sends (suc left) i prepared c
          ≡ (prepared ++ get_data source i c ∷ []) ∷ sends left (suc i) [] 0
    unfolding sends is_last
    sends_last left i c prepared h = let last : (c == b) ≡ true = ground arith in rw last refl

    fill :
        (m left i c : ℕ) (prepared : List T)
        → c + m ≤ b
        → sends (m + left) i prepared c ≡ sends left (i + m) (prepared ++ segment i c m) (c + m)
    fill zero left i c prepared h =
        sends_same (omega arith) (omega arith) (sym (append-nil prepared)) (omega arith)
    fill (suc m) left i c prepared h =
        sends_same (omega arith) refl refl refl
        ∙ sends_more (m + left) i c prepared (omega arith)
        ∙ fill m left (suc i) (suc c) (prepared ++ get_data source i c ∷ []) (omega arith)
        ∙ sends_same refl (omega arith)
            (append_assoc prepared (get_data source i c ∷ []) (segment (suc i) (suc c) m))
            (omega arith)

    segment-snoc :
        (m i c : ℕ) → segment i c m ++ get_data source (i + m) (c + m) ∷ [] ≡ segment i c (suc m)
    segment-snoc zero i c =
        let e : i + 0 ≡ i = omega arith in let f : c + 0 ≡ c = omega arith in rw (e, f) refl
    segment-snoc (suc m) i c =
        let e : i + suc m ≡ suc i + m = omega arith in
        let f : c + suc m ≡ suc c + m = omega arith in
        rw (e, f) (ap (λ l. get_data source i c ∷ l) (segment-snoc m (suc i) (suc c)))

    batch :
        (left i : ℕ)
        → sends (suc b + left) i [] 0 ≡ segment i 0 (suc b) ∷ sends left (i + suc b) [] 0
    batch left i =
        sends_same (omega arith) refl refl refl
        ∙ fill b (suc left) i 0 [] (omega arith)
        ∙ sends_last left (i + b) (0 + b) (segment i 0 b) (omega arith)
        ∙ ap (λ l. l ∷ sends left (suc (i + b)) [] 0) (segment-snoc b i 0)
        ∙ ap (λ l. segment i 0 (suc b) ∷ l) (sends_same refl (omega arith) refl refl)

    last_batch : (prepared : List T) (i c : ℕ) → sends 0 i prepared c ≡ rest_of prepared
    unfolding sends
    last_batch [] i c = refl
    last_batch (message ∷ prepared) i c =
        let some_left : ltb 0 (length (message ∷ prepared)) ≡ true = ground arith in
        rw some_left refl

    sends_lem :
        (q r i : ℕ)
        → r ≤ b
        → sends (q * suc b + r) i [] 0
          ≡ batches i q (suc b) ++ rest_of (segment (i + q * suc b) 0 r)
    sends_lem zero r i h =
        sends_same {c = 0} {prepared = []} (omega arith) refl refl refl
        ∙ fill r 0 i 0 [] (omega arith)
        ∙ last_batch (segment i 0 r) (i + r) (0 + r)
        ∙ ap (λ k. rest_of (segment k 0 r)) (omega arith)
    sends_lem (suc q) r i h =
        sends_same (omega arith) refl refl refl
        ∙ batch (q * suc b + r) i
        ∙ ap (λ l. segment i 0 (suc b) ∷ l) (sends_lem q r (i + suc b) h)
        ∙ ap (λ k. segment i 0 (suc b) ∷ (batches (i + suc b) q (suc b) ++ rest_of (segment k 0 r)))
            (omega arith)

    -- A task with a bulk size of one at least sends its requests in the order of their numbers, each
    -- once, in batches of that size and a last one of what is left, if anything is. A delegate that
    -- makes the data is told a request's place in its batch where it asks for the request's size.
    pub run_lem :
        (q r : ℕ)
        → r ≤ b
        → run source (pos (suc b)) (pos (q * suc b + r))
          ≡ batches 0 q (suc b) ++ rest_of (segment (q * suc b) 0 r)
    unfolding run sends
    run_lem q r h =
        sends_lem q r 0 h ∙ ap (λ k. batches 0 q (suc b) ++ rest_of (segment k 0 r)) (omega arith)
