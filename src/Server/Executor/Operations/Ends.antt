-- ===== src/Server/Executor/Operations/Ends.antt =====
-- volodbserver/Store/NDBMessageExecutor.cpp: when defining an operation comes back.
use volo_db.Prelude.{
  ℕ, zero, suc, ◌+◌, ◌≡◌, Text, Bool, true, false, Option, none, some, List, [], ◌∷◌, codes, All,
  is_some, arith, length, ltb, ◌==◌, not, ◌&&◌,
}
use volo_db.Proto.Column.{ColumnValue}
use volo_db.Proto.Operation.{SetOperation, DeleteOperation, GetOperation}
use volo_db.Server.Ndb.{
  Table, Operation, Event, Environment, M, ◌>>=◌, ◌>>◌, pure, call, ask, get_ndb_operation,
  get_ndb_scan_operation, get_ndb_index_scan_operation, write_tuple, delete_tuple, simple_read,
  read_tuples, get_value, filter_begin, filter_end, filter_cmp,
}
use volo_db.Server.Ndb.Ends.{
  Ends, >>=-Ends, >>=-EndsIn, pure-Ends, if-Ends, call-Ends, ask-Ends, define-Ends,
}
use volo_db.Server.Cache.Ends.{GoodIfAny, get_or_set-EndsIn}
use volo_db.Server.Executor.Operations.{
  and_then, compare, ask_all, assignments, set_equal_primary_key, compare_all, set_equal_value,
  when, set_on, execute_set, delete_on, execute_delete, key_read_on, index_scan_on, scan_on,
  define_read, get_values, read_columns, get_from, execute_get,
}

-- The table has a column of each name.
abbrev pub HasColumns : List ColumnValue → Table → Type 0
HasColumns values table = All (λ v. is_some (table.column_no v.name) ≡ true) values

module _ (Good : Table → Type 0) (env : Environment) where
  and_then-Ends : (b : Bool) (m : M Bool) → Ends Good m → Ends Good (and_then b m)
  and_then-Ends b m e = if-Ends Good b m (pure false) e (pure-Ends Good false)

  ask_all-Ends : (events : List Event) → Ends Good (ask_all env events)
  unfolding ask_all
  ask_all-Ends [] = pure-Ends Good true
  ask_all-Ends (event ∷ events) =
      >>=-Ends Good (ask env event) _ (ask-Ends Good env event)
        (λ done. and_then-Ends done (ask_all env events) (ask_all-Ends events))

  set_equal_primary_key-Ends :
      (operation : Operation) (keys : List ColumnValue)
      → Ends Good (set_equal_primary_key env operation keys)
  unfolding set_equal_primary_key
  set_equal_primary_key-Ends operation keys = ask_all-Ends _

  compare-Ends :
      (operation : Operation) (value : List ℕ) (column_no : Option ℕ)
      → is_some column_no ≡ true
      → Ends Good (compare env operation value column_no)
  unfolding compare
  compare-Ends operation value none h = absurd (ground arith)
  compare-Ends operation value (some column_no) h =
      ask-Ends Good env (filter_cmp operation column_no value)

  compare_all-Ends :
      (operation : Operation) (table : Table) (values : List ColumnValue)
      → HasColumns values table
      → Ends Good (compare_all env operation table values)
  unfolding compare_all
  compare_all-Ends operation table [] h = pure-Ends Good true
  compare_all-Ends operation table (value ∷ values) h =
      >>=-Ends Good _ _ (compare-Ends operation value.value (table.column_no value.name) h.0)
        (λ done. and_then-Ends done _ (compare_all-Ends operation table values h.1))

  set_equal_value-Ends :
      (operation : Operation) (table : Table) (values : List ColumnValue)
      → HasColumns values table
      → Ends Good (set_equal_value env operation table values)
  unfolding set_equal_value
  set_equal_value-Ends operation table values h =
      >>=-Ends Good _ _ (ask-Ends Good env (filter_begin operation)) λ begun.
        and_then-Ends begun _ (
          >>=-Ends Good _ _ (compare_all-Ends operation table values h)
            λ compared. and_then-Ends compared _ (ask-Ends Good env (filter_end operation)))

  on-Ends :
      (event : Event) (operation : Operation) (m : M Bool)
      → Ends Good m
      → Ends Good (call event >> (m >>= λ done. pure (when operation done)))
  on-Ends event operation m e =
      >>=-Ends Good (call event) _ (call-Ends Good event)
        λ _. >>=-Ends Good m _ e (λ done. pure-Ends Good (when operation done))

  set_on-Ends :
      (m : SetOperation) (operation : Option Operation) → Ends Good (set_on env m operation)
  unfolding set_on
  set_on-Ends m none = pure-Ends Good none
  set_on-Ends m (some operation) =
      >>=-Ends Good (call (write_tuple operation)) _ (call-Ends Good _) λ _.
        >>=-Ends Good _ _ (set_equal_primary_key-Ends operation m.primary_key) λ keyed.
          >>=-Ends Good _ _ (and_then-Ends keyed _ (ask_all-Ends (assignments operation m.value)))
            (λ assigned. pure-Ends Good (when operation assigned))

  pub execute_set-Ends :
      (store_name : Text) (m : SetOperation) (transaction : ℕ)
      → Ends Good (execute_set env store_name m transaction)
  unfolding execute_set
  execute_set-Ends store_name m transaction =
      >>=-Ends Good _ _ (define-Ends Good env false (get_ndb_operation transaction store_name))
        (set_on-Ends m)

  delete_on-Ends :
      (m : DeleteOperation) (operation : Option Operation) → Ends Good (delete_on env m operation)
  unfolding delete_on
  delete_on-Ends m none = pure-Ends Good none
  delete_on-Ends m (some operation) =
      on-Ends (delete_tuple operation) operation _
        (set_equal_primary_key-Ends operation m.primary_key)

  pub execute_delete-Ends :
      (store_name : Text) (m : DeleteOperation) (transaction : ℕ)
      → Ends Good (execute_delete env store_name m transaction)
  unfolding execute_delete
  execute_delete-Ends store_name m transaction =
      >>=-Ends Good _ _ (define-Ends Good env false (get_ndb_operation transaction store_name))
        (delete_on-Ends m)

  key_read_on-Ends :
      (m : GetOperation) (operation : Option Operation) → Ends Good (key_read_on env m operation)
  unfolding key_read_on
  key_read_on-Ends m none = pure-Ends Good none
  key_read_on-Ends m (some operation) =
      on-Ends (simple_read operation) operation _
        (set_equal_primary_key-Ends operation m.primary_key)

  index_scan_on-Ends :
      (m : GetOperation) (operation : Option Operation) → Ends Good (index_scan_on env m operation)
  unfolding index_scan_on
  index_scan_on-Ends m none = pure-Ends Good none
  index_scan_on-Ends m (some operation) =
      on-Ends (read_tuples operation) operation _
        (set_equal_primary_key-Ends operation m.primary_key)

  scan_on-Ends :
      (m : GetOperation) (table : Table) (operation : Option Operation)
      → HasColumns m.value table
      → Ends Good (scan_on env m table operation)
  unfolding scan_on
  scan_on-Ends m table none h = pure-Ends Good none
  scan_on-Ends m table (some operation) h =
      on-Ends (read_tuples operation) operation _ (set_equal_value-Ends operation table m.value h)

  define_read-Ends :
      (store_name : Text) (m : GetOperation) (table : Table) (transaction : ℕ)
      → HasColumns m.value table
      → Ends Good (define_read env store_name m table transaction)
  unfolding define_read
  define_read-Ends store_name m table transaction h =
      if-Ends Good (length m.primary_key == table.no_of_primary_keys) _ _
        (>>=-Ends Good _ _ (define-Ends Good env false (get_ndb_operation transaction store_name))
          (key_read_on-Ends m))
        (if-Ends Good
          (not (length m.primary_key == 0) && ltb (length m.primary_key) table.no_of_primary_keys) _
          _
          (>>=-Ends Good _ _
            (define-Ends Good env true
              (get_ndb_index_scan_operation transaction (codes "VOLODB_PRUNE_INDEX") store_name))
            (index_scan_on-Ends m))
          (>>=-Ends Good _ _
            (define-Ends Good env true (get_ndb_scan_operation transaction store_name))
            (λ operation. scan_on-Ends m table operation h)))

  get_values-Ends :
      (operation : Operation) (i left : ℕ) → Ends Good (get_values env operation i left)
  unfolding get_values
  get_values-Ends operation i zero = pure-Ends Good true
  get_values-Ends operation i (suc left) =
      >>=-Ends Good _ _ (ask-Ends Good env (get_value operation i))
        λ done. and_then-Ends done _ (get_values-Ends operation (i + 1) left)

  read_columns-Ends :
      (table : Table) (operation : Option Operation) → Ends Good (read_columns env table operation)
  unfolding read_columns
  read_columns-Ends table none = pure-Ends Good none
  read_columns-Ends table (some operation) =
      >>=-Ends Good _ _ (get_values-Ends operation 0 table.no_of_columns) (λ done. pure-Ends Good _)

  module _ (good : (t : List Event) (name : Text) → GoodIfAny Good (env.table t name)) where
    get_from-Ends :
        (store_name : Text) (m : GetOperation) (transaction : ℕ)
        → ((table : Table) → Good table → HasColumns m.value table)
        → (table : Option Table) → GoodIfAny Good table
        → Ends Good (get_from env store_name m transaction table)
    unfolding get_from
    get_from-Ends store_name m transaction h none g = pure-Ends Good none
    get_from-Ends store_name m transaction h (some table) g =
        >>=-Ends Good _ _ (define_read-Ends store_name m table transaction (h table g))
          (read_columns-Ends table)

    pub execute_get-Ends :
        (store_name : Text) (m : GetOperation) (transaction : ℕ)
        → ((table : Table) → Good table → HasColumns m.value table)
        → Ends Good (execute_get env store_name m transaction)
    unfolding execute_get
    execute_get-Ends store_name m transaction h =
        >>=-EndsIn Good _ _ (get_or_set-EndsIn Good env good store_name)
          (get_from-Ends store_name m transaction h)
