-- ===== src/Common/Config.antt =====
-- volodb-common/Config/ConfigFileReader.cpp: the settings of a configuration file. The parser of
-- files is boost's; a tree of its is the sections of a file, each with its keys and their values.
use mathlib.Core.Option
use volo_db.Prelude.{
  ◌≡◌, refl, ap, ◌∙◌, Text, ℤ, Option, none, some, List, [], ◌∷◌, codes, arith, text_eq, get_or,
  if◌then◌else◌, Bool-cases, Option-cases, inl, inr,
}
use volo_db.Prelude.Outcome.{Outcome, ok, throw, undefined, ◌>>=◌}
use volo_db.Common.Dict.{find, put, find-put, map_values, find-map_values}
use volo_db.Common.Numbers.{stoi}

-- map<string, string>, and map<string, map<string, string>>.
abbrev pub Section : Type 0
Section = List (Text × Text)

abbrev pub Settings : Type 0
Settings = List (Text × Section)

-- boost's tree, whose children may repeat a name.
abbrev pub Tree : Type 0
Tree = List (Text × List (Text × Text))

unfoldable pub set_value_for_all_sections : Text → Text → Settings → Settings
unfolding put
set_value_for_all_sections attribute value settings = map_values (put attribute value) settings

-- The inner loop of read, from the map that it has made so far.
unfoldable pub read_keys : Section → List (Text × Text) → Section
unfolding put
read_keys current_section [] = current_section
read_keys current_section ((key, value) ∷ keys) = read_keys (put key value current_section) keys

-- The outer loop.
unfoldable pub read_sections : Settings → Tree → Settings
unfolding read_keys put
read_sections settings [] = settings
read_sections settings ((name, keys) ∷ sections) =
    read_sections (put name (read_keys [] keys) settings) sections

-- read, with what read_ini makes of the file, which throws before the settings are cleared.
unfoldable pub read : Outcome Tree → Settings → Settings × Outcome (Unit {0})
unfolding read_sections
read (ok tree) settings = (read_sections [] tree, ok tt)
read (throw e) settings = (settings, throw e)
read undefined settings = (settings, undefined)

-- What is found, or the out_of_range that `at` throws.
abbrev pub or_throw : {A : Type 0} → Option A → Outcome A
or_throw none = throw (codes "map::at")
or_throw (some a) = ok a

unfoldable pub at : {A : Type 0} → Text → List (Text × A) → Outcome A
unfolding find
at key pairs = or_throw (find key pairs)

unfoldable pub get_section_map : Text → Settings → Outcome Section
unfolding at
get_section_map section settings = at section settings

unfoldable pub get_value : Text → Text → Settings → Outcome Text
unfolding at
get_value section attribute settings = do keys ← at section settings; at attribute keys

-- What a catch of every exception leaves; there is nothing that is undefined to catch.
unfoldable pub or_default : {A : Type 0} → A → Outcome A → A
or_default default_value (ok a) = a
or_default default_value (throw e) = default_value
or_default default_value undefined = default_value

-- The overload with a default value.
unfoldable pub get_value_or : Text → Text → Text → Settings → Text
unfolding get_value or_default
get_value_or section attribute default_value settings =
    or_default default_value (get_value section attribute settings)

unfoldable pub get_value_int : Text → Text → ℤ → Settings → ℤ
unfolding get_value or_default stoi
get_value_int section attribute default_value settings =
    or_default default_value (do value ← get_value section attribute settings; stoi value)

-- The last pair with a name.
abbrev pub last_of : {A : Type 0} → Text → List (Text × A) → Option A
last_of key [] = none
last_of key ((k, a) ∷ pairs) = elim (last_of key pairs) [
  | some later ↦ some later
  | none ↦ if text_eq k key then some a else none
]

-- What a file says of an attribute: the last such key of the last such section.
abbrev pub said : Text → Text → Tree → Option Text
said section attribute tree = elim (last_of section tree) [
  | none ↦ none
  | some keys ↦ last_of attribute keys
]

abbrev pub or_else : {A : Type 0} → Option A → Option A → Option A
or_else (some a) earlier = some a
or_else none earlier = earlier

find-read_keys :
    (key : Text) (keys : List (Text × Text)) (sofar : Section)
    → find key (read_keys sofar keys) ≡ or_else (last_of key keys) (find key sofar)
unfolding read_keys
find-read_keys key [] sofar = refl
find-read_keys key ((k, v) ∷ keys) sofar =
    find-read_keys key keys (put k v sofar) ∙ later (last_of key keys)
  where
    later :
        (found : Option Text)
        → or_else found (find key (put k v sofar))
          ≡ or_else
              (elim found [ some a ↦ some a | none ↦ if text_eq k key then some v else none ])
              (find key sofar)
    later (some a) = refl
    later none = ground (arith, find-put k key v sofar)

find-read_sections :
    (name : Text) (tree : Tree) (sofar : Settings)
    → find name (read_sections sofar tree)
      ≡ or_else (Option.map (read_keys []) (last_of name tree)) (find name sofar)
unfolding read_sections
find-read_sections name [] sofar = refl
find-read_sections name ((n, keys) ∷ tree) sofar =
    find-read_sections name tree (put n (read_keys [] keys) sofar) ∙ later (last_of name tree)
  where
    later :
        (found : Option (List (Text × Text)))
        → or_else (Option.map (read_keys []) found) (find name (put n (read_keys [] keys) sofar))
          ≡ or_else
              (Option.map (read_keys []) (elim found [
                | some a ↦ some a
                | none ↦ if text_eq n name then some keys else none
              ]))
              (find name sofar)
    later (some a) = refl
    later none = elim (Bool-cases (text_eq n name)) [
      | inl e ↦ rw (find-put n name (read_keys [] keys) sofar, e)
      | inr e ↦ rw (find-put n name (read_keys [] keys) sofar, e)
    ]

at-read_keys :
    (attribute : Text) (found : Option (List (Text × Text)))
    → (or_throw (or_else (Option.map (read_keys []) found) none) >>= at attribute)
      ≡ or_throw (elim found [ none ↦ none | some keys ↦ last_of attribute keys ])
unfolding at
at-read_keys attribute none = refl
at-read_keys attribute (some keys) =
    ap or_throw (find-read_keys attribute keys [])
    ∙ elim (Option-cases (last_of attribute keys)) [ inl e ↦ rw e refl | inr (a, e) ↦ rw e refl ]

get_value-read_sections :
    (section attribute : Text) (tree : Tree)
    → get_value section attribute (read_sections [] tree) ≡ or_throw (said section attribute tree)
unfolding get_value at
get_value-read_sections section attribute tree =
    ap (λ o. or_throw o >>= at attribute) (find-read_sections section tree [])
    ∙ at-read_keys attribute (last_of section tree)

-- After a file is read, getValue gives what the last key of that name in the last section of that
-- name says, whatever there was before, and throws if the file has none; with a default value it
-- gives the default instead. A file that cannot be read leaves the settings as they are.
pub get_value-read :
    (section attribute default_value : Text) (tree : Tree) (before : Settings) (reason : Text)
    → (get_value section attribute (read (ok tree) before).0
        ≡ or_throw (said section attribute tree))
      × (get_value_or section attribute default_value (read (ok tree) before).0
          ≡ get_or default_value (said section attribute tree))
      × (read (throw reason) before ≡ (before, throw reason))
unfolding read get_value_or
get_value-read section attribute default_value tree before reason =
    let value = get_value-read_sections section attribute tree in
    (
      value,
      ap (or_default default_value) value ∙ elim (Option-cases (said section attribute tree)) [
        | inl e ↦ rw e refl
        | inr (a, e) ↦ rw e refl
      ],
      refl,
    )

at-put :
    (attribute key value : Text) (keys : Section)
    → at key (put attribute value keys) ≡ (if text_eq attribute key then ok value else at key keys)
unfolding at
at-put attribute key value keys =
    ap or_throw (find-put attribute key value keys)
    ∙ elim (Bool-cases (text_eq attribute key)) [ inl e ↦ rw e refl | inr e ↦ rw e refl ]

-- setValueForAllSections gives the attribute its value in every section that there is and makes no
-- section; every other value is as it was.
pub get_value-set_value_for_all_sections :
    (section key attribute value : Text) (settings : Settings)
    → get_value section key (set_value_for_all_sections attribute value settings) ≡ (
        if text_eq attribute key
        then (get_section_map section settings >>= λ keys. ok value)
        else get_value section key settings)
unfolding get_value set_value_for_all_sections get_section_map at
get_value-set_value_for_all_sections section key attribute value settings =
    ap (λ o. or_throw o >>= at key) (find-map_values (put attribute value) section settings)
    ∙ elim (Option-cases (find section settings)) [
      | inl e ↦
          rw e (elim (Bool-cases (text_eq attribute key)) [ inl b ↦ rw b refl | inr b ↦ rw b refl ])
      | inr (keys, e) ↦ rw e (at-put attribute key value keys)
    ]
