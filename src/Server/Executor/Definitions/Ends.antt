-- ===== src/Server/Executor/Definitions/Ends.antt =====
-- volodbserver/Store/NDBMessageExecutor.cpp: when answers and definition operations come back.
use volo_db.Prelude.{◌≡◌, refl, Text, none, some, is_some}
use volo_db.Prelude.Outcome.{Outcome, ok}
use volo_db.Proto.Operation.{CreateStoreOperation, DropStoreOperation}
use volo_db.Proto.Result.{Result}
use volo_db.Proto.Wire.{
  Codec, Message, create_database_operation, drop_database_operation, create_store_operation,
  drop_store_operation,
}
use volo_db.Server.Ndb.{Environment, Table, ◌>>◌, pure}
use volo_db.Server.Ndb.Ends.{Ends, >>=-Ends, pure-Ends, if-Ends}
use volo_db.Server.Cache.{invalidate}
use volo_db.Server.Cache.Ends.{invalidate-Ends}
use volo_db.Server.Executor.Sql.{
  Statement, run, refuse, create_store_statement, create_database_statement,
  drop_database_statement,
}
use volo_db.Server.Executor.Sql.CreateTable.{create_store_statement_lem}
use volo_db.Server.Executor.Reply.{lift, reply_with_result, reply_with_result_lem}
use volo_db.Server.Executor.Definitions.{
  run_query, run_statement, execute_create_store, execute_drop_store, execute_definition,
}

module _ (Good : Table → Type 0) where
  lift-Ends : {A : Type 0} (r : Outcome A) (a : A) → r ≡ ok a → Ends Good (lift r)
  unfolding lift
  lift-Ends r a e w k = (a, w, rw e, k, tt)

  pub reply_with_result-Ends :
      (codec : Codec) (r : Result) (envelope : Text)
      → Ends Good (reply_with_result codec r envelope)
  reply_with_result-Ends codec r envelope w k =
      (_, _, reply_with_result_lem codec r envelope w, k, tt)

  module _ (env : Environment) (transaction_id : Text) where
    run_query-Ends : (query : Text) → Ends Good (run_query env transaction_id query)
    unfolding run_query
    run_query-Ends query w k = (_, _, refl, k, tt)

    run_statement-Ends :
        (statement : Statement) → Ends Good (run_statement env transaction_id statement)
    unfolding run_statement
    run_statement-Ends (run text) = run_query-Ends text
    run_statement-Ends (refuse description) = pure-Ends Good _

    execute_create_store-Ends :
        (m : CreateStoreOperation) → Ends Good (execute_create_store env transaction_id m)
    unfolding execute_create_store
    execute_create_store-Ends m =
        >>=-Ends Good _ _ (lift-Ends (create_store_statement m) _ (create_store_statement_lem m))
          run_statement-Ends

    execute_drop_store-Ends :
        (m : DropStoreOperation) → Ends Good (execute_drop_store env transaction_id m)
    unfolding execute_drop_store
    execute_drop_store-Ends m = >>=-Ends Good _ _ (run_query-Ends _) λ res.
        if-Ends Good (is_some res.error_code) (pure res)
          (invalidate m.store_info.store_name >> pure res) (pure-Ends Good res)
          (>>=-Ends Good _ _ (invalidate-Ends Good m.store_info.store_name)
            (λ _. pure-Ends Good res))

    pub execute_definition-Ends :
        (m : Message) → Ends Good (execute_definition env transaction_id m)
    unfolding execute_definition
    execute_definition-Ends (create_database_operation m) =
        >>=-Ends Good _ _ (run_query-Ends (create_database_statement m.database_name))
          (λ res. pure-Ends Good (some res))
    execute_definition-Ends (drop_database_operation m) =
        >>=-Ends Good _ _ (run_query-Ends (drop_database_statement m.database_name))
          (λ res. pure-Ends Good (some res))
    execute_definition-Ends (create_store_operation m) =
        >>=-Ends Good _ _ (execute_create_store-Ends m) (λ res. pure-Ends Good (some res))
    execute_definition-Ends (drop_store_operation m) =
        >>=-Ends Good _ _ (execute_drop_store-Ends m) (λ res. pure-Ends Good (some res))
    execute_definition-Ends _ = pure-Ends Good none
