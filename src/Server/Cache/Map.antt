-- ===== src/Server/Cache/Map.antt =====
-- volodbserver/Cache/TableInfoCache.cpp: the entries are a map from store names to tables.
use volo_db.Prelude.{
  ◌≡◌, refl, sym, ◌∙◌, inl, inr, Option-cases, Text, Option, none, some, [], ◌∷◌, true, text_eq,
  text_eq_iff, arith, if◌then◌else◌,
}
use volo_db.Prelude.Outcome.{ok}
use volo_db.Server.Ndb.{Table, Environment, World, get_table, >>=-of_ok}
use volo_db.Server.Cache.{
  Entries, find, assign, erase, set, invalidate, get_or_set, get_internal, put,
}

-- Every store name has one entry at most, as in an unordered_map.
abbrev pub Distinct : Entries → Type 0
Distinct [] = Unit
Distinct ((name, table) ∷ entries) = (find name entries ≡ none) × Distinct entries

pub find-assign :
    (j k : Text) (t : Table) (entries : Entries)
    → find k (assign j t entries) ≡ (if text_eq j k then some t else find k entries)
unfolding find assign
find-assign j k t [] = refl
find-assign j k t ((name, table) ∷ entries) =
    ground
      (arith, text_eq_iff name j, text_eq_iff name k, text_eq_iff j k, find-assign j k t entries)

pub find-erase :
    (j k : Text) (entries : Entries)
    → Distinct entries
    → find k (erase j entries) ≡ (if text_eq j k then none else find k entries)
unfolding find erase
find-erase j k [] d = ground arith
find-erase j k ((name, table) ∷ entries) d =
    ground
      (arith, text_eq_iff name j, text_eq_iff name k, text_eq_iff j k, find-erase j k entries d.1)

pub assign-Distinct :
    (j : Text) (t : Table) (entries : Entries) → Distinct entries → Distinct (assign j t entries)
unfolding assign find
assign-Distinct j t [] d = (refl, tt)
assign-Distinct j t ((name, table) ∷ entries) d = ground (
  arith,
  text_eq_iff j name,
  text_eq_iff name j,
  find-assign j name t entries,
  assign-Distinct j t entries d.1,
)

pub erase-Distinct : (j : Text) (entries : Entries) → Distinct entries → Distinct (erase j entries)
unfolding erase
erase-Distinct j [] d = tt
erase-Distinct j ((name, table) ∷ entries) d =
    ground (arith, find-erase j name entries d.1, erase-Distinct j entries d.1)

-- The cache agrees with a dictionary: what it has for a store, the dictionary has.
abbrev pub Agrees : (Text → Option Table) → Entries → Type 0
Agrees dictionary entries = (k : Text) (t : Table) → find k entries ≡ some t → dictionary k ≡ some t

-- A dictionary without one store.
abbrev pub without : Text → (Text → Option Table) → Text → Option Table
without j dictionary k = if text_eq j k then none else dictionary k

assign-Agrees :
    (dictionary : Text → Option Table) (j : Text) (t : Table) (entries : Entries)
    → dictionary j ≡ some t
    → Agrees dictionary entries
    → Agrees dictionary (assign j t entries)
assign-Agrees dictionary j t entries e a k u f =
    ground (arith, find-assign j k t entries, text_eq_iff j k, a k u)

-- What the server's readers of the cache promise of a world: no store has two entries, and every
-- entry is the dictionary's.
pub record IsCoherent (dictionary : Text → Option Table) (w : World) : Type 0 where
  pub distinct : Distinct w.entries
  pub agrees : Agrees dictionary w.entries

module _ (env : Environment) (dictionary : Text → Option Table) (name : Text) (w : World) where
  asked : World
  asked = record w { trace = get_table name ∷ w.trace }

  get_or_set_cached :
      IsCoherent dictionary w
      → (t : Table) → find name w.entries ≡ some t
      → get_or_set env name w ≡ ok (dictionary name, w)
  unfolding get_or_set
  get_or_set_cached c t e = rw (e, c.agrees name t e)

  set_lem :
      env.has_dictionary w.trace ≡ true → set env name w ≡ put name (env.table w.trace name) asked
  unfolding set get_internal asked
  set_lem h = >>=-of_ok (get_internal env name) (put name) (rw h)

  get_or_set_missing : find name w.entries ≡ none → get_or_set env name w ≡ set env name w
  unfolding get_or_set
  get_or_set_missing e = rw e

  -- Reading a store's table through a coherent cache gives what the dictionary has, whether the
  -- store is cached or not, and leaves the cache coherent; a table that was found is cached from
  -- then on. It needs that the dictionary can be reached, and is asked at this moment.
  pub get_or_set_lem :
      env.has_dictionary w.trace ≡ true
      → ((k : Text) → env.table w.trace k ≡ dictionary k)
      → IsCoherent dictionary w
      → (w' : World) × (get_or_set env name w ≡ ok (dictionary name, w'))
        × IsCoherent dictionary w'
        × (find name w'.entries ≡ dictionary name)
  unfolding asked put
  get_or_set_lem h ask c = elim (Option-cases (find name w.entries)) [
    | inr (t, e) ↦ (w, get_or_set_cached c t e, c, ground (arith, c.agrees name t e))
    | inl e ↦ elim (Option-cases (dictionary name)) [
      | inl d ↦ (
        asked,
        rw (get_or_set_missing e, set_lem h, ask name, d) refl,
        record { distinct = c.distinct; agrees = c.agrees },
        e ∙ sym d,
      )
      | inr (t, d) ↦ (
        record asked { entries = assign name t w.entries },
        rw (get_or_set_missing e, set_lem h, ask name, d) refl,
        record {
          distinct = assign-Distinct name t w.entries c.distinct;
          agrees = assign-Agrees dictionary name t w.entries d c.agrees;
        },
        ground (arith, find-assign name name t w.entries, text_eq_iff name name),
      )
    ]
  ]

module _ (dictionary : Text → Option Table) (name : Text) (w : World) where
  -- Once a store is dropped and invalidated the cache is coherent with the dictionary without it,
  -- and no other store's entry is lost.
  invalidate_lem :
      IsCoherent dictionary w
      → (w' : World) × (invalidate name w ≡ ok (tt, w'))
        × IsCoherent (without name dictionary) w'
        × ((k : Text) → find k w'.entries ≡ (if text_eq name k then none else find k w.entries))
  unfolding invalidate
  invalidate_lem c = (
    record w { entries = erase name w.entries },
    refl,
    record {
      distinct = erase-Distinct name w.entries c.distinct;
      agrees = λ k t f. ground (arith, find-erase name k w.entries c.distinct, c.agrees k t);
    },
    λ k. find-erase name k w.entries c.distinct,
  )
