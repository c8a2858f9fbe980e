-- ===== src/Server/Executor/Transaction/Starts.antt =====
-- volodbserver/Store/NDBMessageExecutor.cpp: the account of what defines one operation.
use volo_db.Prelude.{ℕ, ◌≡◌, Text, Option, none, some, List, [], ◌∷◌, arith, inl, inr, ◌⊎◌}
use volo_db.Prelude.Outcome.{ok}
use volo_db.Proto.Column.{ColumnValue}
use volo_db.Proto.Operation.{StoreInfo}
use volo_db.Proto.Wire.{Message, set_operation, delete_operation, get_operation}
use volo_db.Server.Ndb.{Table, KeyPart, Operation, World, Environment, M, pure, start, >>=-eq_ok}
use volo_db.Server.Ndb.Tally.{Keeps, pure-Keeps, >>=-Keeps}
use volo_db.Server.Cache
use volo_db.Server.Cache.Quiet.{get_or_set-Keeps}
use volo_db.Server.Executor.Operations.Quiet.{
  execute_set-Keeps, execute_delete-Keeps, execute_get-Keeps,
}
use volo_db.Server.Executor.Transaction.{
  Defined, start_on, start_transaction, ensure_transaction, define_if, define_manipulation,
  on_store, with_no_columns, with_columns, define_operation,
}
use volo_db.Server.Executor.Transaction.Account.{
  open_count, Runs, Runs-of_Keeps, Runs-bind, Runs-pure,
}

module _ (env : Environment) where
  start-Runs :
      (table : Table) (hint : List KeyPart) → Runs (start env table hint) none (λ t. t) (λ _. 0)
  unfolding start
  start-Runs table hint w w' t e = ground arith

  start_on-Runs :
      (columns : List ColumnValue) (table : Option Table)
      → Runs (start_on env columns table) none (λ t. t) (λ _. 0)
  unfolding start_on
  start_on-Runs columns none = Runs-pure none (λ t. t)
  start_on-Runs columns (some table) = start-Runs table _

  start_transaction-Runs :
      (columns : List ColumnValue) (store_name : Text)
      → Runs (start_transaction env columns store_name) none (λ t. t) (λ _. 0)
  unfolding start_transaction
  start_transaction-Runs columns store_name =
      Runs-bind (Cache.get_or_set env store_name) (start_on env columns) none (λ _. none) (λ t. t)
        (λ _. 0) (Runs-of_Keeps _ none (get_or_set-Keeps env store_name)) (start_on-Runs columns)

  ensure_transaction-Runs :
      (t : Option ℕ) (columns : List ColumnValue) (store_name : Text)
      → Runs (ensure_transaction env t columns store_name) t (λ t. t) (λ _. 0)
  unfolding ensure_transaction
  ensure_transaction-Runs none columns store_name = start_transaction-Runs columns store_name
  ensure_transaction-Runs (some t) columns store_name = Runs-pure (some t) (λ t. t)

  define_if-Runs :
      (define : ℕ → M (Option (Operation × Option (List ℕ))))
      → ((t : ℕ) → Keeps (define t))
      → (t : Option ℕ) → Runs (define_if env define t) t (λ d. d.transaction) (λ _. 0)
  unfolding define_if
  define_if-Runs define k none = Runs-pure (record { transaction = none; new_operation = none }) _
  define_if-Runs define k (some t) =
      Runs-bind (define t) _ (some t) (λ _. some t) (λ d. d.transaction) (λ _. 0)
        (Runs-of_Keeps (define t) (some t) (k t))
        (λ defined. Runs-pure (record { transaction = some t; new_operation = defined }) _)

  define_manipulation-Runs :
      (t : Option ℕ) (columns : List ColumnValue) (store_name : Text)
      (define : ℕ → M (Option (Operation × Option (List ℕ))))
      → ((t : ℕ) → Keeps (define t))
      → Runs (define_manipulation env t columns store_name define) t (λ d. d.transaction) (λ _. 0)
  unfolding define_manipulation
  define_manipulation-Runs t columns store_name define k =
      Runs-bind (ensure_transaction env t columns store_name) (define_if env define) t (λ t. t)
        (λ d. d.transaction) (λ _. 0) (ensure_transaction-Runs t columns store_name)
        (define_if-Runs define k)

  on_store-Runs :
      (t : Option ℕ) (store_info : List StoreInfo) (f : Text → M Defined)
      → ((name : Text) → Runs (f name) t (λ d. d.transaction) (λ _. 0))
      → Runs (on_store env store_info f) t (λ d. d.transaction) (λ _. 0)
  unfolding on_store
  on_store-Runs t [] f r w w' d e = cc
  on_store-Runs t (store_info ∷ _) f r w w' d e = r store_info.store_name w w' d e

  with_no_columns-Keeps : (m : M (Option Operation)) → Keeps m → Keeps (with_no_columns env m)
  with_no_columns-Keeps m k =
      >>=-Keeps m _ k
        (elim [ none ↦ pure-Keeps none | some operation ↦ pure-Keeps (some (operation, none)) ])

  with_columns-Keeps : (m : M (Option (Operation × List ℕ))) → Keeps m → Keeps (with_columns env m)
  with_columns-Keeps m k =
      >>=-Keeps m _ k
        (elim [ none ↦ pure-Keeps none | some read ↦ pure-Keeps (some (read.0, some read.1)) ])

  pub define_operation-Runs :
      (t : Option ℕ) (message : Message)
      → Runs (define_operation env t message) t (λ d. d.transaction) (λ _. 0)
  unfolding define_operation
  define_operation-Runs t (set_operation m) = on_store-Runs t m.store_info _ λ name.
      define_manipulation-Runs t m.primary_key name _
        λ n. with_no_columns-Keeps _ (execute_set-Keeps env name m n)
  define_operation-Runs t (delete_operation m) = on_store-Runs t m.store_info _ λ name.
      define_manipulation-Runs t m.primary_key name _
        λ n. with_no_columns-Keeps _ (execute_delete-Keeps env name m n)
  define_operation-Runs t (get_operation m) = on_store-Runs t m.store_info _ λ name.
      define_manipulation-Runs t m.primary_key name _
        λ n. with_columns-Keeps _ (execute_get-Keeps env name m n)
  define_operation-Runs t _ =
      Runs-pure (record { transaction = t; new_operation = none }) (λ d. d.transaction)

  -- An operation is defined only on a transaction.
  abbrev pub OnTransaction : Defined → Type 0
  OnTransaction d = (open_count d.transaction ≡ 1) ⊎ (d.new_operation ≡ none)

  define_if-OnTransaction :
      (define : ℕ → M (Option (Operation × Option (List ℕ)))) (t : Option ℕ) (w w' : World)
      (d : Defined)
      → define_if env define t w ≡ ok (d, w')
      → OnTransaction d
  unfolding define_if
  define_if-OnTransaction define none w w' d e = inr (ground arith)
  define_if-OnTransaction define (some t) w w' d e =
      let (a, v, p, q) =
        >>=-eq_ok (define t)
          (λ defined. pure (record { transaction = some t; new_operation = defined })) w e in
      inl (ground arith)

  define_manipulation-OnTransaction :
      (t : Option ℕ) (columns : List ColumnValue) (store_name : Text)
      (define : ℕ → M (Option (Operation × Option (List ℕ)))) (w w' : World) (d : Defined)
      → define_manipulation env t columns store_name define w ≡ ok (d, w')
      → OnTransaction d
  unfolding define_manipulation
  define_manipulation-OnTransaction t columns store_name define w w' d e =
      let (a, v, p, q) =
        >>=-eq_ok (ensure_transaction env t columns store_name) (define_if env define) w e in
      define_if-OnTransaction define a v w' d q

  on_store-OnTransaction :
      (store_info : List StoreInfo) (f : Text → M Defined) (w w' : World) (d : Defined)
      → ((name : Text) → f name w ≡ ok (d, w') → OnTransaction d)
      → on_store env store_info f w ≡ ok (d, w')
      → OnTransaction d
  unfolding on_store
  on_store-OnTransaction [] f w w' d h e = cc
  on_store-OnTransaction (store_info ∷ _) f w w' d h e = h store_info.store_name e

  pub define_operation-OnTransaction :
      (t : Option ℕ) (message : Message) (w w' : World) (d : Defined)
      → define_operation env t message w ≡ ok (d, w')
      → OnTransaction d
  unfolding define_operation
  define_operation-OnTransaction t (set_operation m) w w' d e =
      on_store-OnTransaction m.store_info _ w w' d
        (λ name. define_manipulation-OnTransaction t m.primary_key name _ w w' d) e
  define_operation-OnTransaction t (delete_operation m) w w' d e =
      on_store-OnTransaction m.store_info _ w w' d
        (λ name. define_manipulation-OnTransaction t m.primary_key name _ w w' d) e
  define_operation-OnTransaction t (get_operation m) w w' d e =
      on_store-OnTransaction m.store_info _ w w' d
        (λ name. define_manipulation-OnTransaction t m.primary_key name _ w w' d) e
  define_operation-OnTransaction t _ w w' d e = inr (ground arith)
