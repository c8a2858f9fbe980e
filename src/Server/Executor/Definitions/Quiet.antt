-- ===== src/Server/Executor/Definitions/Quiet.antt =====
-- volodbserver/Store/NDBMessageExecutor.cpp: the definition operations' part in the account of
-- a trace.
use volo_db.Prelude.{Text, none, some, is_some, arith}
use volo_db.Prelude.Outcome.{Outcome, ok, throw, undefined}
use volo_db.Proto.Operation.{CreateStoreOperation, DropStoreOperation}
use volo_db.Proto.Wire.{
  Message, create_database_operation, drop_database_operation, create_store_operation,
  drop_store_operation,
}
use volo_db.Server.Ndb.{Environment, ◌>>◌, pure}
use volo_db.Server.Ndb.Tally.{Keeps, >>=-Keeps, pure-Keeps, if-Keeps}
use volo_db.Server.Cache.{invalidate}
use volo_db.Server.Cache.Quiet.{invalidate-Keeps}
use volo_db.Server.Executor.Sql.{
  Statement, run, refuse, create_store_statement, create_database_statement,
  drop_database_statement,
}
use volo_db.Server.Executor.Reply.{lift}
use volo_db.Server.Executor.Definitions.{
  run_query, run_statement, execute_create_store, execute_drop_store, execute_definition,
}

lift-Keeps : {A : Type 0} (r : Outcome A) → Keeps (lift r)
unfolding lift
lift-Keeps (ok a) w w' b e = ground arith
lift-Keeps (throw t) w w' b e = cc
lift-Keeps undefined w w' b e = cc

module _ (env : Environment) (transaction_id : Text) where
  run_query-Keeps : (query : Text) → Keeps (run_query env transaction_id query)
  unfolding run_query
  run_query-Keeps query w w' a e = ground arith

  run_statement-Keeps : (statement : Statement) → Keeps (run_statement env transaction_id statement)
  unfolding run_statement
  run_statement-Keeps (run text) = run_query-Keeps text
  run_statement-Keeps (refuse description) = pure-Keeps _

  execute_create_store-Keeps :
      (m : CreateStoreOperation) → Keeps (execute_create_store env transaction_id m)
  unfolding execute_create_store
  execute_create_store-Keeps m =
      >>=-Keeps _ _ (lift-Keeps (create_store_statement m)) run_statement-Keeps

  execute_drop_store-Keeps :
      (m : DropStoreOperation) → Keeps (execute_drop_store env transaction_id m)
  unfolding execute_drop_store
  execute_drop_store-Keeps m = >>=-Keeps _ _ (run_query-Keeps _) λ res.
      if-Keeps (is_some res.error_code) (pure res) (invalidate m.store_info.store_name >> pure res)
        (pure-Keeps res)
        (>>=-Keeps _ _ (invalidate-Keeps m.store_info.store_name) (λ _. pure-Keeps res))

  pub execute_definition-Keeps : (m : Message) → Keeps (execute_definition env transaction_id m)
  unfolding execute_definition
  execute_definition-Keeps (create_database_operation m) =
      >>=-Keeps _ _ (run_query-Keeps (create_database_statement m.database_name))
        (λ res. pure-Keeps (some res))
  execute_definition-Keeps (drop_database_operation m) =
      >>=-Keeps _ _ (run_query-Keeps (drop_database_statement m.database_name))
        (λ res. pure-Keeps (some res))
  execute_definition-Keeps (create_store_operation m) =
      >>=-Keeps _ _ (execute_create_store-Keeps m) (λ res. pure-Keeps (some res))
  execute_definition-Keeps (drop_store_operation m) =
      >>=-Keeps _ _ (execute_drop_store-Keeps m) (λ res. pure-Keeps (some res))
  execute_definition-Keeps _ = pure-Keeps none
