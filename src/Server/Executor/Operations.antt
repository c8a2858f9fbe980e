-- ===== src/Server/Executor/Operations.antt =====
-- volodbserver/Store/NDBMessageExecutor.cpp: how the set, delete and get operations are defined on a
-- transaction.
pub mod Quiet
pub mod Ends
use volo_db.Prelude.{
  ℕ, zero, suc, ◌+◌, Text, Bool, true, false, Option, none, some, List, [], ◌∷◌, ◌++◌, codes,
  length, ltb, ◌==◌, ◌&&◌, not, if◌then◌else◌,
}
use volo_db.Prelude.Outcome.{ok}
use volo_db.Proto.Column.{ColumnValue}
use volo_db.Proto.Operation.{StoreInfo, SetOperation, DeleteOperation, GetOperation}
use volo_db.Server.Ndb.{
  Table, Operation, Event, Environment, World, M, ◌>>=◌, ◌>>◌, pure, fault, call, ask, define,
  get_ndb_operation, get_ndb_scan_operation, get_ndb_index_scan_operation, write_tuple,
  delete_tuple, simple_read, read_tuples, equal, set_value, get_value, filter_begin, filter_end,
  filter_cmp,
}
use volo_db.Server.Cache

equals : Operation → List ColumnValue → List Event
equals operation [] = []
equals operation (key ∷ keys) = equal operation key.name key.value ∷ equals operation keys

assignments : Operation → List ColumnValue → List Event
assignments operation [] = []
assignments operation (value ∷ values) =
    set_value operation value.name value.value ∷ assignments operation values

-- A step, and what follows unless it returned -1.
abbrev pub and_then : Bool → M Bool → M Bool
and_then done rest = if done then rest else pure false

-- The operation if the calls on it succeeded, else the null pointer.
abbrev pub when : Operation → Bool → Option Operation
when operation done = if done then some operation else none

-- The column numbers that are recorded.
range_from : ℕ → ℕ → List ℕ
range_from i zero = []
range_from i (suc left) = i ∷ range_from (i + 1) left

module _ (env : Environment) where
  -- A loop of calls that stops at the first that returns -1; false is -1.
  ask_all : List Event → M Bool
  ask_all [] = pure true
  ask_all (event ∷ events) = do done ← ask env event; and_then done (ask_all events)

  -- setEqualPrimaryKey, and setEqualDistributedKey, which does the same on an index scan.
  unfoldable pub set_equal_primary_key : Operation → List ColumnValue → M Bool
  unfolding ask_all equals
  set_equal_primary_key operation keys = ask_all (equals operation keys)

  -- One comparison; `fault` is the null column of a name that the table lacks.
  compare : Operation → List ℕ → Option ℕ → M Bool
  unfolding ask
  compare operation value none = fault
  compare operation value (some column_no) = ask env (filter_cmp operation column_no value)

  -- The loop of setEqualValue.
  compare_all : Operation → Table → List ColumnValue → M Bool
  unfolding compare
  compare_all operation table [] = pure true
  compare_all operation table (value ∷ values) = do
    done ← compare operation value.value (table.column_no value.name)
    and_then done (compare_all operation table values)

  -- setEqualValue.
  unfoldable pub set_equal_value : Operation → Table → List ColumnValue → M Bool
  unfolding ask compare_all
  set_equal_value operation table values = do
    begun ← ask env (filter_begin operation)
    and_then begun do
      compared ← compare_all operation table values
      and_then compared (ask env (filter_end operation))

  set_on : SetOperation → Option Operation → M (Option Operation)
  unfolding set_equal_primary_key call assignments
  set_on m none = pure none
  set_on m (some operation) = do
    call (write_tuple operation)
    keyed ← set_equal_primary_key operation m.primary_key
    assigned ← and_then keyed (ask_all (assignments operation m.value))
    pure (when operation assigned)

  unfoldable pub execute_set : Text → SetOperation → ℕ → M (Option Operation)
  unfolding set_on define
  execute_set store_name m transaction = do
    operation ← define env false (get_ndb_operation transaction store_name)
    set_on m operation

  delete_on : DeleteOperation → Option Operation → M (Option Operation)
  unfolding set_equal_primary_key call
  delete_on m none = pure none
  delete_on m (some operation) = do
    call (delete_tuple operation)
    keyed ← set_equal_primary_key operation m.primary_key
    pure (when operation keyed)

  unfoldable pub execute_delete : Text → DeleteOperation → ℕ → M (Option Operation)
  unfolding delete_on define
  execute_delete store_name m transaction = do
    operation ← define env false (get_ndb_operation transaction store_name)
    delete_on m operation

  key_read_on : GetOperation → Option Operation → M (Option Operation)
  unfolding set_equal_primary_key call
  key_read_on m none = pure none
  key_read_on m (some operation) = do
    call (simple_read operation)
    keyed ← set_equal_primary_key operation m.primary_key
    pure (when operation keyed)

  index_scan_on : GetOperation → Option Operation → M (Option Operation)
  unfolding set_equal_primary_key call
  index_scan_on m none = pure none
  index_scan_on m (some operation) = do
    call (read_tuples operation)
    keyed ← set_equal_primary_key operation m.primary_key
    pure (when operation keyed)

  scan_on : GetOperation → Table → Option Operation → M (Option Operation)
  unfolding set_equal_value call
  scan_on m table none = pure none
  scan_on m table (some operation) = do
    call (read_tuples operation)
    filtered ← set_equal_value operation table m.value
    pure (when operation filtered)

  -- The three ways to read: by the whole primary key, by a part of it on the index, or by a scan of
  -- the store.
  define_read : Text → GetOperation → Table → ℕ → M (Option Operation)
  unfolding key_read_on index_scan_on scan_on define
  define_read store_name m table transaction =
      let keys = length m.primary_key in
      if keys == table.no_of_primary_keys
      then (define env false (get_ndb_operation transaction store_name) >>= key_read_on m)
      else if not (keys == 0) && ltb keys table.no_of_primary_keys
      then (define env true
            (get_ndb_index_scan_operation transaction (codes "VOLODB_PRUNE_INDEX") store_name)
          >>= index_scan_on m)
      else (define env true (get_ndb_scan_operation transaction store_name) >>= scan_on m table)

  -- The loop of getValue over the columns left, from column i on.
  get_values : Operation → ℕ → ℕ → M Bool
  unfolding ask
  get_values operation i zero = pure true
  get_values operation i (suc left) = do
    done ← ask env (get_value operation i)
    and_then done (get_values operation (i + 1) left)

  read_columns : Table → Option Operation → M (Option (Operation × List ℕ))
  unfolding get_values range_from
  read_columns table none = pure none
  read_columns table (some operation) = do
    done ← get_values operation 0 table.no_of_columns
    pure (if done then some (operation, range_from 0 table.no_of_columns) else none)

  get_from : Text → GetOperation → ℕ → Option Table → M (Option (Operation × List ℕ))
  unfolding define_read read_columns
  get_from store_name m transaction none = pure none
  get_from store_name m transaction (some table) = do
    operation ← define_read store_name m table transaction
    read_columns table operation

  unfoldable pub execute_get : Text → GetOperation → ℕ → M (Option (Operation × List ℕ))
  unfolding get_from Cache.get_or_set
  execute_get store_name m transaction = do
    table ← Cache.get_or_set env store_name
    get_from store_name m transaction table
