-- ===== src/Common/Dict.antt =====
-- A `std::map` with strings for keys, as the list of its pairs, each key once.
use mathlib.Core.Option
use volo_db.Prelude.{
  ◌≡◌, refl, Text, Option, none, some, List, [], ◌∷◌, arith, text_eq, text_eq_iff, if◌then◌else◌,
}

module _ {A : Type 0} where
  -- `find`, and `at` where it does not throw.
  unfoldable pub find : Text → List (Text × A) → Option A
  find key [] = none
  find key ((k, a) ∷ pairs) = if text_eq k key then some a else find key pairs

  -- `map[key] = value`.
  unfoldable pub put : Text → A → List (Text × A) → List (Text × A)
  put key a [] = (key, a) ∷ []
  put key a ((k, b) ∷ pairs) = if text_eq k key then (k, a) ∷ pairs else (k, b) ∷ put key a pairs

  pub find-put :
      (j k : Text) (a : A) (pairs : List (Text × A))
      → find k (put j a pairs) ≡ (if text_eq j k then some a else find k pairs)
  unfolding find put
  find-put j k a [] = refl
  find-put j k a ((name, b) ∷ pairs) =
      ground (arith, text_eq_iff name j, text_eq_iff name k, text_eq_iff j k, find-put j k a pairs)

-- The same change of every value.
abbrev pub map_values : {A B : Type 0} → (A → B) → List (Text × A) → List (Text × B)
map_values f [] = []
map_values f ((k, a) ∷ pairs) = (k, f a) ∷ map_values f pairs

pub find-map_values :
    {A B : Type 0} (f : A → B) (key : Text) (pairs : List (Text × A))
    → find key (map_values f pairs) ≡ Option.map f (find key pairs)
unfolding find
find-map_values f key [] = refl
find-map_values f key ((k, a) ∷ pairs) = ground (arith, find-map_values f key pairs)
