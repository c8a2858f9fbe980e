-- ===== src/Server/Cache/Quiet.antt =====
-- volodbserver/Cache/TableInfoCache.cpp: the cache's part in the account of a trace.
use volo_db.Prelude.{Text, Option, none, some, arith}
use volo_db.Server.Ndb.{Environment, Table}
use volo_db.Server.Ndb.Tally.{Keeps, >>=-Keeps, pure-Keeps}
use volo_db.Server.Cache.{get, get_internal, put, set, or_set, get_or_set, invalidate}

get_internal-Keeps : (env : Environment) (name : Text) → Keeps (get_internal env name)
unfolding get_internal
get_internal-Keeps env name w w' a e = ground arith

put-Keeps : (name : Text) (table : Option Table) → Keeps (put name table)
unfolding put
put-Keeps name none w w' a e = ground arith
put-Keeps name (some table) w w' a e = ground arith

set-Keeps : (env : Environment) (name : Text) → Keeps (set env name)
unfolding set
set-Keeps env name =
    >>=-Keeps (get_internal env name) (put name) (get_internal-Keeps env name) (put-Keeps name)

or_set-Keeps :
    (env : Environment) (name : Text) (found : Option Table) → Keeps (or_set env name found)
unfolding or_set
or_set-Keeps env name none = set-Keeps env name
or_set-Keeps env name (some table) = pure-Keeps (some table)

pub get_or_set-Keeps : (env : Environment) (name : Text) → Keeps (get_or_set env name)
unfolding get_or_set get
get_or_set-Keeps env name w w' a e = or_set-Keeps env name _ w w' a e

pub invalidate-Keeps : (name : Text) → Keeps (invalidate name)
unfolding invalidate
invalidate-Keeps name w w' a e = ground arith
