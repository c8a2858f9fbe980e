-- ===== src/Server/Cache.antt =====
-- volodbserver/Cache/TableInfoCache.cpp. Each operation holds the lock for all of its access to the
-- entries, so it is one step on them; `set` asks the dictionary before it takes the lock.
pub mod Map
pub mod Quiet
pub mod Ends
pub mod Replay
use volo_db.Prelude.{
  Text, Option, none, some, List, [], ◌∷◌, Bool, true, false, text_eq, if◌then◌else◌,
}
use volo_db.Prelude.Outcome.{ok}
use volo_db.Server.Ndb.{Table, Environment, World, M, ◌>>=◌, ◌>>◌, pure, call, get_table}

abbrev pub Entries : Type 0
Entries = List (Text × Table)

-- `_entries.find`.
unfoldable pub find : Text → Entries → Option Table
find store_name [] = none
find store_name ((name, table) ∷ entries) =
    if text_eq name store_name then some table else find store_name entries

-- `_entries[storeName] = newTableInfo`.
unfoldable pub assign : Text → Table → Entries → Entries
assign store_name new_table [] = (store_name, new_table) ∷ []
assign store_name new_table ((name, table) ∷ entries) =
    if text_eq name store_name
    then (name, new_table) ∷ entries
    else (name, table) ∷ assign store_name new_table entries

-- `_entries.erase`.
unfoldable pub erase : Text → Entries → Entries
erase store_name [] = []
erase store_name ((name, table) ∷ entries) =
    if text_eq name store_name then entries else (name, table) ∷ erase store_name entries

unfoldable pub get : Text → M (Option Table)
unfolding find
get store_name w = ok (find store_name w.entries, w)

-- _getInternal: asks the dictionary, if there is one.
unfoldable pub get_internal : Environment → Text → M (Option Table)
get_internal env store_name w =
    if env.has_dictionary w.trace
    then ok (env.table w.trace store_name, record w { trace = get_table store_name ∷ w.trace })
    else ok (none, w)

pub put : Text → Option Table → M (Option Table)
unfolding assign
put store_name none w = ok (none, w)
put store_name (some table) w =
    ok (some table, record w { entries = assign store_name table w.entries })

unfoldable pub set : Environment → Text → M (Option Table)
unfolding get_internal put
set env store_name = do new_table ← get_internal env store_name; put store_name new_table

unfoldable pub invalidate : Text → M (Unit {0})
unfolding erase
invalidate store_name w = ok (tt, record w { entries = erase store_name w.entries })

or_set : Environment → Text → Option Table → M (Option Table)
unfolding set
or_set env store_name (some table) = pure (some table)
or_set env store_name none = set env store_name

-- The cached table, or else the dictionary's: how every user of the cache reads it.
unfoldable pub get_or_set : Environment → Text → M (Option Table)
unfolding get or_set
get_or_set env store_name = do found ← get store_name; or_set env store_name found
