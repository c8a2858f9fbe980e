-- ===== src/Common/Numbers.antt =====
-- `std::stoi`, with which the programs read the numbers of their settings.
use volo_db.Prelude.{
  ℕ, zero, suc, ◌+◌, ◌-◌, ◌*◌, ◌^◌, ◌≡◌, refl, ℤ, pos, negsuc, Text, Bool, true, false, ◌&&◌, ◌||◌,
  Option, none, some, [], ◌∷◌, codes, ltb, leb, ◌==◌, ◌⊎◌, inl, inr, Bool-cases, if◌then◌else◌,
}
use volo_db.Prelude.Outcome.{Outcome, ok, throw}

-- `isspace` in the C locale.
is_space : ℕ → Bool
is_space c = (c == 32) || (leb 9 c && leb c 13)

skip_spaces : Text → Text
unfolding is_space
skip_spaces [] = []
skip_spaces (c ∷ str) = let rest = skip_spaces str in if is_space c then rest else c ∷ str

is_digit : ℕ → Bool
is_digit c = leb b'0' c && leb c b'9'

-- The number that the digits at the front of a text make, behind those that were read before.
digits : ℕ → Text → ℕ
unfolding is_digit
digits n [] = n
digits n (c ∷ str) = let rest = digits (n * 10 + (c - b'0')) str in if is_digit c then rest else n

some_digits : Text → Option ℕ
unfolding digits
some_digits [] = none
some_digits (c ∷ str) = if is_digit c then some (digits 0 (c ∷ str)) else none

-- The sign, if there is one, and the digits; 32 bits for an int.
signed : Bool → Option ℕ → Outcome ℤ
signed negative none = throw (codes "stoi")
signed true (some zero) = ok (pos zero)
signed true (some (suc n)) = if ltb n (2 ^ 31) then ok (negsuc n) else throw (codes "stoi")
signed false (some n) = if ltb n (2 ^ 31) then ok (pos n) else throw (codes "stoi")

after_sign : Text → Outcome ℤ
unfolding some_digits signed
after_sign [] = throw (codes "stoi")
after_sign (c ∷ str) =
    if c == b'-'
    then signed true (some_digits str)
    else if c == b'+'
    then signed false (some_digits str)
    else signed false (some_digits (c ∷ str))

-- `std::stoi`.
unfoldable pub stoi : Text → Outcome ℤ
unfolding skip_spaces after_sign
stoi str = after_sign (skip_spaces str)

-- A text that is a number of 32 bits, or not.
abbrev pub Read : Text → Type 0
Read text = ((z : ℤ) × (stoi text ≡ ok z)) ⊎ (stoi text ≡ throw (codes "stoi"))

signed-read :
    (negative : Bool) (digits : Option ℕ)
    → ((z : ℤ) × (signed negative digits ≡ ok z)) ⊎ (signed negative digits ≡ throw (codes "stoi"))
unfolding signed
signed-read true none = inr refl
signed-read false none = inr refl
signed-read true (some zero) = inl (pos zero, refl)
signed-read true (some (suc n)) = elim (Bool-cases (ltb n (2 ^ 31))) [
  | inl e ↦ inl (negsuc n, rw e refl)
  | inr e ↦ inr (rw e refl)
]
signed-read false (some n) = elim (Bool-cases (ltb n (2 ^ 31))) [
  | inl e ↦ inl (pos n, rw e refl)
  | inr e ↦ inr (rw e refl)
]

after_sign-read :
    (text : Text) → ((z : ℤ) × (after_sign text ≡ ok z)) ⊎ (after_sign text ≡ throw (codes "stoi"))
unfolding after_sign
after_sign-read [] = inr refl
after_sign-read (c ∷ text) = elim (Bool-cases (c == b'-')) [
  | inl e ↦ rw e (signed-read true (some_digits text))
  | inr e ↦ elim (Bool-cases (c == b'+')) [
    | inl f ↦ rw (e, f) (signed-read false (some_digits text))
    | inr f ↦ rw (e, f) (signed-read false (some_digits (c ∷ text)))
  ]
]

pub stoi-Read : (text : Text) → Read text
unfolding stoi
stoi-Read text = after_sign-read (skip_spaces text)
