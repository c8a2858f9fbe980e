-- ===== src/Server/Executor/Definitions.antt =====
-- volodbserver/Store/NDBMessageExecutor.cpp: the definition operations, which run at once as SQL.
pub mod Quiet
pub mod Ends
use volo_db.Prelude.{
  ℕ, ℤ, pos, Text, Bool, true, false, Option, none, some, [], is_some, not, if◌then◌else◌,
}
use volo_db.Prelude.Outcome.{Outcome, ok}
use volo_db.Proto.Operation.{CreateStoreOperation, DropStoreOperation}
use volo_db.Proto.Result.{Result}
use volo_db.Proto.Wire.{
  Message, create_database_operation, drop_database_operation, create_store_operation,
  drop_store_operation,
}
use volo_db.Server.Ndb.{
  Environment, World, M, ◌>>=◌, ◌>>◌, pure, ask, last_error_message, mysql_query,
}
use volo_db.Server.Cache.{invalidate}
use volo_db.Server.Executor.Sql.{
  Statement, run, refuse, create_store_statement, create_database_statement,
  drop_database_statement, drop_store_statement,
}
use volo_db.Server.Executor.Reply.{make_result, make_result_for_error, lift}

module _ (env : Environment) (transaction_id : Text) where
  -- runQuery: an error is answered with the text of mysql_error and the default code 0.
  unfoldable pub run_query : Text → M Result
  unfolding ask last_error_message make_result make_result_for_error
  run_query query_string = do
    done ← ask env (mysql_query query_string)
    message ← last_error_message env
    pure (
        if done
        then make_result transaction_id
        else make_result_for_error transaction_id message (pos 0))

  run_statement : Statement → M Result
  unfolding run_query make_result_for_error
  run_statement (run text) = run_query text
  run_statement (refuse description) =
      pure (make_result_for_error transaction_id description (pos 0))

  unfoldable pub execute_create_store : CreateStoreOperation → M Result
  unfolding lift run_statement create_store_statement
  execute_create_store operation = do
    statement ← lift (create_store_statement operation)
    run_statement statement

  -- The cached table goes only if the store was dropped.
  unfoldable pub execute_drop_store : DropStoreOperation → M Result
  unfolding run_query invalidate drop_store_statement
  execute_drop_store operation = do
    res ← run_query (drop_store_statement operation.store_info.store_name)
    if is_some res.error_code
        then pure res
        else (invalidate operation.store_info.store_name >> pure res)

  -- The dispatch on the type; the null pointer of `ExecutionResult result` where no branch is taken.
  unfoldable pub execute_definition : Message → M (Option Result)
  unfolding execute_create_store execute_drop_store run_query create_database_statement
      drop_database_statement
  execute_definition (create_database_operation m) = do
    res ← run_query (create_database_statement m.database_name)
    pure (some res)
  execute_definition (drop_database_operation m) = do
    res ← run_query (drop_database_statement m.database_name)
    pure (some res)
  execute_definition (create_store_operation m) = do res ← execute_create_store m; pure (some res)
  execute_definition (drop_store_operation m) = do res ← execute_drop_store m; pure (some res)
  execute_definition _ = pure none
