-- ===== src/Tests/Formats.antt =====
-- Self-delimiting formats for test data: a writer and a reader that undoes it.
use volo_db.Prelude.{
  ℕ, zero, suc, ◌≡◌, refl, Text, Option, none, some, List, [], ◌∷◌, ◌++◌, append_assoc, append-nil,
  ◌≤◌, length, ◌==◌, if◌then◌else◌,
}
use volo_db.Proto.Wire.{Wire}

pub record Format (A : Type 0) : Type 0 where
  pub put : A → Text
  pub get : Text → Option (A × Text)
  pub get-put : (a : A) (rest : Text) → get (put a ++ rest) ≡ some (a, rest)

abbrev pub get_number : Text → Option (ℕ × Text)
get_number [] = none
get_number (n ∷ rest) = some (n, rest)

abbrev pub number : Format ℕ
number = record { put = λ n. n ∷ []; get = get_number; get-put = λ n rest. refl }

-- A type that another one represents.
abbrev pub via :
    {A B : Type 0} (to : A → B) (from : B → A) → ((a : A) → from (to a) ≡ a) → Format B → Format A
via to from inverse format = record {
  put = λ a. format.put (to a);
  get = λ bytes. elim (format.get bytes) [ none ↦ none | some (b, rest) ↦ some (from b, rest) ];
  get-put = λ a rest. rw (format.get-put (to a) rest, inverse a);
}

module _ {A B : Type 0} (first : Format A) (second : Format B) where
  abbrev get_second : A → Option (B × Text) → Option ((A × B) × Text)
  get_second a none = none
  get_second a (some (b, rest)) = some ((a, b), rest)

  abbrev get_pair : Option (A × Text) → Option ((A × B) × Text)
  get_pair none = none
  get_pair (some (a, rest)) = get_second a (second.get rest)

  abbrev pub pair : Format (A × B)
  pair = record {
    put = λ p. first.put p.0 ++ second.put p.1;
    get = λ bytes. get_pair (first.get bytes);
    get-put = λ p rest.
        rw (append_assoc, first.get-put p.0 (second.put p.1 ++ rest), second.get-put p.1 rest);
  }

module _ {A : Type 0} (format : Format A) where
  abbrev put_all : List A → Text
  put_all [] = []
  put_all (a ∷ others) = format.put a ++ put_all others

  abbrev cons : A → Option (List A × Text) → Option (List A × Text)
  cons a none = none
  cons a (some (others, rest)) = some (a ∷ others, rest)

  abbrev get_all : ℕ → Text → Option (List A × Text)
  get_all zero bytes = some ([], bytes)
  get_all (suc n) bytes = elim (format.get bytes) [
    | none ↦ none
    | some (a, rest) ↦ cons a (get_all n rest)
  ]

  pub get_all-put_all :
      (others : List A) (rest : Text)
      → get_all (length others) (put_all others ++ rest) ≡ some (others, rest)
  get_all-put_all [] rest = refl
  get_all-put_all (a ∷ others) rest =
      rw (append_assoc, format.get-put a (put_all others ++ rest), get_all-put_all others rest)

  abbrev get_list : Text → Option (List A × Text)
  get_list [] = none
  get_list (n ∷ bytes) = get_all n bytes

  abbrev pub list : Format (List A)
  list = record {
    put = λ others. length others ∷ put_all others;
    get = get_list;
    get-put = get_all-put_all;
  }

  abbrev put_option : Option A → Text
  put_option none = 0 ∷ []
  put_option (some a) = 1 ∷ format.put a

  abbrev get_option : Text → Option (Option A × Text)
  get_option [] = none
  get_option (n ∷ bytes) =
      if n == 0
      then some (none, bytes)
      else elim (format.get bytes) [ none ↦ none | some (a, rest) ↦ some (some a, rest) ]

  pub get_option-put_option :
      (a : Option A) (rest : Text) → get_option (put_option a ++ rest) ≡ some (a, rest)
  get_option-put_option none rest = refl
  get_option-put_option (some a) rest = rw (format.get-put a rest)

  abbrev pub option : Format (Option A)
  option = record { put = put_option; get = get_option; get-put = get_option-put_option }

  abbrev whole : Option (A × Text) → Option A
  whole none = none
  whole (some (a, rest)) = some a

  pub parse_put :
      (a : A) (bytes : Text)
      → some (format.put a) ≡ some bytes
      → length bytes ≤ 10000
      → whole (format.get bytes) ≡ some a
  parse_put a bytes e h =
      let same : format.put a ≡ bytes = cc in
      let read = format.get-put a [] in rw (← same) (rw (rw append-nil at read))

  -- The format as a message class, which is always written.
  abbrev pub wire : Wire A
  wire = record {
    serialize = λ a. some (format.put a);
    parse = λ bytes. whole (format.get bytes);
    limit = 10000;
    parse-serialize = parse_put;
  }
