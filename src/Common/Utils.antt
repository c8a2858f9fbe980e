-- ===== src/Common/Utils.antt =====
-- volodb-common/Utils/Utils.cpp: the texts that stand for a Boolean.
use volo_db.Prelude.{
  ℕ, ◌+◌, ◌≤◌, All, ◌≡◌, refl, Text, Bool, true, false, ◌&&◌, ◌||◌, [], ◌∷◌, codes, arith, map, leb,
  text_eq, text_eq_sound, Bool-cases, ◌⊎◌, inl, inr, ◌↔◌, if◌then◌else◌,
}

-- `::tolower` in the C locale.
unfoldable pub tolower : ℕ → ℕ
tolower c = if leb b'A' c && leb c b'Z' then c + 32 else c

unfoldable pub to_lower : Text → Text
unfolding tolower
to_lower str = map tolower str

unfoldable pub to_bool : Text → Bool
unfolding to_lower text_eq
to_bool str =
    let lower_case_str = to_lower str in
    if text_eq lower_case_str (codes "true")
      || (text_eq lower_case_str (codes "1") || text_eq lower_case_str (codes "yes"))
    then true
    else false

-- A text that is a word of small letters but for the case of its own letters.
abbrev pub IsSpelling : Text → Text → Type 0
IsSpelling [] [] = Unit
IsSpelling (c ∷ cs) (d ∷ ds) = ((c ≡ d) ⊎ (c + 32 ≡ d)) × IsSpelling cs ds
IsSpelling _ _ = ⊥

abbrev IsSmall : ℕ → Type 0
IsSmall d = (b'a' ≤ d) × (d ≤ b'z')

same_letter : (c d : ℕ) → IsSmall d → tolower c ≡ d → (c ≡ d) ⊎ (c + 32 ≡ d)
unfolding tolower
same_letter c d (l, u) e = ground arith

lower_letter : (c d : ℕ) → IsSmall d → (c ≡ d) ⊎ (c + 32 ≡ d) → tolower c ≡ d
unfolding tolower
lower_letter c d (l, u) (inl e) = ground arith
lower_letter c d (l, u) (inr e) = ground arith

spelled : (s w : Text) → All IsSmall w → to_lower s ≡ w → IsSpelling s w
unfolding to_lower
spelled [] [] h e = tt
spelled [] (d ∷ ds) h e = absurd cc
spelled (c ∷ cs) [] h e = absurd cc
spelled (c ∷ cs) (d ∷ ds) h e =
    let first : tolower c ≡ d = cc in
    let rest : map tolower cs ≡ ds = cc in (same_letter c d h.0 first, spelled cs ds h.1 rest)

lowered : (s w : Text) → All IsSmall w → IsSpelling s w → to_lower s ≡ w
unfolding to_lower
lowered [] [] h e = refl
lowered [] (d ∷ ds) h e = elim e [ ]
lowered (c ∷ cs) [] h e = elim e [ ]
lowered (c ∷ cs) (d ∷ ds) h (first, rest) =
    let here = lower_letter c d h.0 first in
    let there : map tolower cs ≡ ds = lowered cs ds h.1 rest in rw (here, there) refl

of_one : (s : Text) → to_lower s ≡ codes "1" → s ≡ codes "1"
unfolding to_lower tolower
of_one [] e = absurd cc
of_one (c ∷ []) e =
    let digit : tolower c ≡ b'1' = cc in
    let same : c ≡ b'1' = ground (arith, tolower) in rw same refl
of_one (c ∷ d ∷ s) e = absurd cc

true-IsSmall : All IsSmall (codes "true")
true-IsSmall = (omega arith, (omega arith, (omega arith, (omega arith, tt))))

yes-IsSmall : All IsSmall (codes "yes")
yes-IsSmall = (omega arith, (omega arith, (omega arith, tt)))

accepted :
    (str : Text)
    → to_bool str ≡ true
    → (text_eq (to_lower str) (codes "true") ≡ true)
      ⊎ ((text_eq (to_lower str) (codes "1") ≡ true)
          ⊎ (text_eq (to_lower str) (codes "yes") ≡ true))
unfolding to_bool
accepted str e = elim (Bool-cases (text_eq (to_lower str) (codes "true"))) [
  | inl t ↦ inl t
  | inr f ↦ elim (Bool-cases (text_eq (to_lower str) (codes "1"))) [
    | inl o ↦ inr (inl o)
    | inr g ↦ elim (Bool-cases (text_eq (to_lower str) (codes "yes"))) [
      | inl y ↦ inr (inr y)
      | inr h ↦ absurd (cc (f, g, h))
    ]
  ]
]

-- toBool is true of the text 1 and of every spelling of true and yes, and of nothing else.
pub to_bool_lem :
    (str : Text)
    → (to_bool str ≡ true)
      ↔ ((str ≡ codes "1") ⊎ (IsSpelling str (codes "true") ⊎ IsSpelling str (codes "yes")))
unfolding to_bool
to_bool_lem str = (
  λ e. elim (accepted str e) [
    | inl t ↦ inr (inl (spelled str (codes "true") true-IsSmall (text_eq_sound _ _ t)))
    | inr (inl o) ↦ inl (of_one str (text_eq_sound _ _ o))
    | inr (inr y) ↦ inr (inr (spelled str (codes "yes") yes-IsSmall (text_eq_sound _ _ y)))
  ],
  λ c. elim c [
    | inl e ↦ rw e refl
    | inr (inl t) ↦ rw (lowered str (codes "true") true-IsSmall t) refl
    | inr (inr y) ↦ rw (lowered str (codes "yes") yes-IsSmall y) refl
  ],
)
