-- ===== src/Server/Cache/Ends.antt =====
-- volodbserver/Cache/TableInfoCache.cpp: when reading a table comes back, and with which table.
use volo_db.Prelude.{
  refl, Text, true, false, Option, none, some, List, [], ◌∷◌, All, text_eq, if◌then◌else◌,
}
use volo_db.Server.Ndb.{Environment, Event, Table}
use volo_db.Server.Ndb.Ends.{EndsIn, Ends, >>=-EndsIn, pure-EndsIn, either_ends}
use volo_db.Server.Cache.{
  Entries, find, assign, erase, get, get_internal, put, set, or_set, get_or_set, invalidate,
}

module _ (Good : Table → Type 0) where
  -- A table that is not missing is good.
  abbrev pub GoodIfAny : Option Table → Type 0
  GoodIfAny none = Unit
  GoodIfAny (some table) = Good table

  AllGood : Entries → Type 0
  AllGood = All (λ entry. Good entry.1)

  find-GoodIfAny :
      (name : Text) (entries : Entries) → AllGood entries → GoodIfAny (find name entries)
  unfolding find AllGood
  find-GoodIfAny name [] k = tt
  find-GoodIfAny name ((other, table) ∷ entries) k =
      elim (text_eq other name) as (λ b. GoodIfAny (if b then some table else find name entries)) [
        | true ↦ k.0
        | false ↦ find-GoodIfAny name entries k.1
      ]

  assign-AllGood :
      (name : Text) (table : Table) (entries : Entries)
      → Good table
      → AllGood entries
      → AllGood (assign name table entries)
  unfolding assign AllGood
  assign-AllGood name table [] g k = (g, tt)
  assign-AllGood name table ((other, old) ∷ entries) g k =
      elim (text_eq other name)
        as (λ b.
          All (λ entry. Good entry.1)
            (if b then (other, table) ∷ entries else (other, old) ∷ assign name table entries)) [
              | true ↦ (g, k.1)
              | false ↦ (k.0, assign-AllGood name table entries g k.1)
            ]

  erase-AllGood : (name : Text) (entries : Entries) → AllGood entries → AllGood (erase name entries)
  unfolding erase AllGood
  erase-AllGood name [] k = tt
  erase-AllGood name ((other, table) ∷ entries) k =
      elim (text_eq other name)
        as (λ b.
          All (λ entry. Good entry.1)
            (if b then entries else (other, table) ∷ erase name entries)) [
              | true ↦ k.1
              | false ↦ (k.0, erase-AllGood name entries k.1)
            ]

  pub invalidate-Ends : (name : Text) → Ends Good (invalidate name)
  unfolding invalidate AllGood
  invalidate-Ends name w k = (tt, _, refl, erase-AllGood name w.entries k, tt)

  put-EndsIn :
      (name : Text) (table : Option Table)
      → GoodIfAny table
      → EndsIn Good GoodIfAny (put name table)
  unfolding put AllGood
  put-EndsIn name none g w k = (none, w, refl, k, tt)
  put-EndsIn name (some table) g w k =
      (some table, _, refl, assign-AllGood name table w.entries g k, g)

  module _ (env : Environment)
      (good : (t : List Event) (name : Text) → GoodIfAny (env.table t name)) where
    get_internal-EndsIn : (name : Text) → EndsIn Good GoodIfAny (get_internal env name)
    unfolding get_internal
    get_internal-EndsIn name w k = either_ends Good _ _ _ k k (good w.trace name) tt

    set-EndsIn : (name : Text) → EndsIn Good GoodIfAny (set env name)
    unfolding set
    set-EndsIn name = >>=-EndsIn Good _ _ (get_internal-EndsIn name) (put-EndsIn name)

    or_set-EndsIn :
        (name : Text) (found : Option Table)
        → GoodIfAny found
        → EndsIn Good GoodIfAny (or_set env name found)
    unfolding or_set
    or_set-EndsIn name none g = set-EndsIn name
    or_set-EndsIn name (some table) g = pure-EndsIn Good (some table) g

    pub get_or_set-EndsIn : (name : Text) → EndsIn Good GoodIfAny (get_or_set env name)
    unfolding get_or_set get AllGood
    get_or_set-EndsIn name w k = or_set-EndsIn name _ (find-GoodIfAny name w.entries k) w k
