-- ===== src/Server/Executor/Operations/Quiet.antt =====
-- volodbserver/Store/NDBMessageExecutor.cpp: the part of defining an operation in the account of
-- a trace.
use volo_db.Prelude.{
  ℕ, zero, suc, ◌+◌, refl, Text, Bool, true, false, Option, none, some, List, [], ◌∷◌, codes, All,
  length, ltb, ◌==◌, not, ◌&&◌,
}
use volo_db.Proto.Column.{ColumnValue}
use volo_db.Proto.Operation.{SetOperation, DeleteOperation, GetOperation}
use volo_db.Server.Ndb.{
  Table, Operation, Event, Environment, M, ◌>>=◌, ◌>>◌, pure, call, ask, get_ndb_operation,
  get_ndb_scan_operation, get_ndb_index_scan_operation, write_tuple, delete_tuple, simple_read,
  read_tuples, get_value, filter_begin, filter_end, filter_cmp,
}
use volo_db.Server.Ndb.Tally.{
  Quiet, Keeps, >>=-Keeps, pure-Keeps, fault-Keeps, if-Keeps, call-Keeps, ask-Keeps, define-Keeps,
}
use volo_db.Server.Cache.Quiet.{get_or_set-Keeps}
use volo_db.Server.Executor.Operations.{
  and_then, compare, ask_all, equals, assignments, set_equal_primary_key, compare_all,
  set_equal_value, when, set_on, execute_set, delete_on, execute_delete, key_read_on, index_scan_on,
  scan_on, define_read, get_values, read_columns, get_from, execute_get,
}

equals-Quiet : (operation : Operation) (keys : List ColumnValue) → All Quiet (equals operation keys)
unfolding equals
equals-Quiet operation [] = tt
equals-Quiet operation (key ∷ keys) = (λ t. refl, equals-Quiet operation keys)

assignments-Quiet :
    (operation : Operation) (values : List ColumnValue) → All Quiet (assignments operation values)
unfolding assignments
assignments-Quiet operation [] = tt
assignments-Quiet operation (value ∷ values) = (λ t. refl, assignments-Quiet operation values)

and_then-Keeps : (b : Bool) (m : M Bool) → Keeps m → Keeps (and_then b m)
and_then-Keeps b m km = if-Keeps b m (pure false) km (pure-Keeps false)

module _ (env : Environment) where
  ask_all-Keeps : (events : List Event) → All Quiet events → Keeps (ask_all env events)
  unfolding ask_all
  ask_all-Keeps [] q = pure-Keeps true
  ask_all-Keeps (event ∷ events) q =
      >>=-Keeps (ask env event) _ (ask-Keeps env event q.0)
        (λ done. and_then-Keeps done (ask_all env events) (ask_all-Keeps events q.1))

  set_equal_primary_key-Keeps :
      (operation : Operation) (keys : List ColumnValue)
      → Keeps (set_equal_primary_key env operation keys)
  unfolding set_equal_primary_key
  set_equal_primary_key-Keeps operation keys = ask_all-Keeps _ (equals-Quiet operation keys)

  compare-Keeps :
      (operation : Operation) (value : List ℕ) (column_no : Option ℕ)
      → Keeps (compare env operation value column_no)
  unfolding compare
  compare-Keeps operation value none = fault-Keeps
  compare-Keeps operation value (some column_no) =
      ask-Keeps env (filter_cmp operation column_no value) (λ t. refl)

  compare_all-Keeps :
      (operation : Operation) (table : Table) (values : List ColumnValue)
      → Keeps (compare_all env operation table values)
  unfolding compare_all
  compare_all-Keeps operation table [] = pure-Keeps true
  compare_all-Keeps operation table (value ∷ values) =
      >>=-Keeps _ _ (compare-Keeps operation value.value (table.column_no value.name))
        (λ done. and_then-Keeps done _ (compare_all-Keeps operation table values))

  set_equal_value-Keeps :
      (operation : Operation) (table : Table) (values : List ColumnValue)
      → Keeps (set_equal_value env operation table values)
  unfolding set_equal_value
  set_equal_value-Keeps operation table values =
      >>=-Keeps _ _ (ask-Keeps env (filter_begin operation) (λ t. refl)) λ begun.
        and_then-Keeps begun _ (
          >>=-Keeps _ _ (compare_all-Keeps operation table values) λ compared.
            and_then-Keeps compared _ (ask-Keeps env (filter_end operation) (λ t. refl)))

  -- After the call that says what the operation does, the calls on it.
  on-Keeps :
      (event : Event) (operation : Operation) (m : M Bool)
      → Quiet event
      → Keeps m
      → Keeps (call event >> (m >>= λ done. pure (when operation done)))
  on-Keeps event operation m q km =
      >>=-Keeps (call event) _ (call-Keeps event q)
        λ _. >>=-Keeps m _ km (λ done. pure-Keeps (when operation done))

  set_on-Keeps : (m : SetOperation) (operation : Option Operation) → Keeps (set_on env m operation)
  unfolding set_on
  set_on-Keeps m none = pure-Keeps none
  set_on-Keeps m (some operation) =
      >>=-Keeps (call (write_tuple operation)) _ (call-Keeps _ (λ t. refl)) λ _.
        >>=-Keeps _ _ (set_equal_primary_key-Keeps operation m.primary_key) λ keyed.
          >>=-Keeps _ _
            (and_then-Keeps keyed _ (ask_all-Keeps _ (assignments-Quiet operation m.value)))
            (λ assigned. pure-Keeps (when operation assigned))

  pub execute_set-Keeps :
      (store_name : Text) (m : SetOperation) (transaction : ℕ)
      → Keeps (execute_set env store_name m transaction)
  unfolding execute_set
  execute_set-Keeps store_name m transaction =
      >>=-Keeps _ _ (define-Keeps env false (get_ndb_operation transaction store_name) (λ t. refl))
        (set_on-Keeps m)

  delete_on-Keeps :
      (m : DeleteOperation) (operation : Option Operation) → Keeps (delete_on env m operation)
  unfolding delete_on
  delete_on-Keeps m none = pure-Keeps none
  delete_on-Keeps m (some operation) =
      on-Keeps (delete_tuple operation) operation _ (λ t. refl)
        (set_equal_primary_key-Keeps operation m.primary_key)

  pub execute_delete-Keeps :
      (store_name : Text) (m : DeleteOperation) (transaction : ℕ)
      → Keeps (execute_delete env store_name m transaction)
  unfolding execute_delete
  execute_delete-Keeps store_name m transaction =
      >>=-Keeps _ _ (define-Keeps env false (get_ndb_operation transaction store_name) (λ t. refl))
        (delete_on-Keeps m)

  key_read_on-Keeps :
      (m : GetOperation) (operation : Option Operation) → Keeps (key_read_on env m operation)
  unfolding key_read_on
  key_read_on-Keeps m none = pure-Keeps none
  key_read_on-Keeps m (some operation) =
      on-Keeps (simple_read operation) operation _ (λ t. refl)
        (set_equal_primary_key-Keeps operation m.primary_key)

  index_scan_on-Keeps :
      (m : GetOperation) (operation : Option Operation) → Keeps (index_scan_on env m operation)
  unfolding index_scan_on
  index_scan_on-Keeps m none = pure-Keeps none
  index_scan_on-Keeps m (some operation) =
      on-Keeps (read_tuples operation) operation _ (λ t. refl)
        (set_equal_primary_key-Keeps operation m.primary_key)

  scan_on-Keeps :
      (m : GetOperation) (table : Table) (operation : Option Operation)
      → Keeps (scan_on env m table operation)
  unfolding scan_on
  scan_on-Keeps m table none = pure-Keeps none
  scan_on-Keeps m table (some operation) =
      on-Keeps (read_tuples operation) operation _ (λ t. refl)
        (set_equal_value-Keeps operation table m.value)

  define_read-Keeps :
      (store_name : Text) (m : GetOperation) (table : Table) (transaction : ℕ)
      → Keeps (define_read env store_name m table transaction)
  unfolding define_read
  define_read-Keeps store_name m table transaction =
      if-Keeps (length m.primary_key == table.no_of_primary_keys) _ _
        (>>=-Keeps _ _
          (define-Keeps env false (get_ndb_operation transaction store_name) (λ t. refl))
          (key_read_on-Keeps m))
        (if-Keeps
          (not (length m.primary_key == 0) && ltb (length m.primary_key) table.no_of_primary_keys) _
          _
          (>>=-Keeps _ _
            (define-Keeps env true
              (get_ndb_index_scan_operation transaction (codes "VOLODB_PRUNE_INDEX") store_name)
              (λ t. refl))
            (index_scan_on-Keeps m))
          (>>=-Keeps _ _
            (define-Keeps env true (get_ndb_scan_operation transaction store_name) (λ t. refl))
            (scan_on-Keeps m table)))

  get_values-Keeps : (operation : Operation) (i left : ℕ) → Keeps (get_values env operation i left)
  unfolding get_values
  get_values-Keeps operation i zero = pure-Keeps true
  get_values-Keeps operation i (suc left) =
      >>=-Keeps _ _ (ask-Keeps env (get_value operation i) (λ t. refl))
        λ done. and_then-Keeps done _ (get_values-Keeps operation (i + 1) left)

  read_columns-Keeps :
      (table : Table) (operation : Option Operation) → Keeps (read_columns env table operation)
  unfolding read_columns
  read_columns-Keeps table none = pure-Keeps none
  read_columns-Keeps table (some operation) =
      >>=-Keeps _ _ (get_values-Keeps operation 0 table.no_of_columns) (λ done. pure-Keeps _)

  get_from-Keeps :
      (store_name : Text) (m : GetOperation) (transaction : ℕ) (table : Option Table)
      → Keeps (get_from env store_name m transaction table)
  unfolding get_from
  get_from-Keeps store_name m transaction none = pure-Keeps none
  get_from-Keeps store_name m transaction (some table) =
      >>=-Keeps _ _ (define_read-Keeps store_name m table transaction) (read_columns-Keeps table)

  pub execute_get-Keeps :
      (store_name : Text) (m : GetOperation) (transaction : ℕ)
      → Keeps (execute_get env store_name m transaction)
  unfolding execute_get
  execute_get-Keeps store_name m transaction =
      >>=-Keeps _ _ (get_or_set-Keeps env store_name) (get_from-Keeps store_name m transaction)
