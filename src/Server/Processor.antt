-- ===== src/Server/Processor.antt =====
-- volodbserver/Store/NDBMessageProcessor.cpp and .h: which executor thread a request goes to. The
-- values that rand() returns are arguments.
pub mod Dispatch
pub mod Buckets
pub mod Hint
use volo_db.Prelude.{
  ℕ, suc, ◌+◌, ◌%◌, Text, Option, none, some, List, [], ◌∷◌, ◌++◌, Bool, true, false, ◌&&◌, length,
  ltb, ◌==◌, get_or, is_some, if◌then◌else◌,
}
use volo_db.Prelude.Outcome.{Outcome, ok, undefined}
use volo_db.Proto.Column.{ColumnValue}
use volo_db.Proto.Operation.{StoreInfo}
use volo_db.Proto.Wire.{Message, set_operation, delete_operation, get_operation}
use volo_db.Frame.Utils.{is_definition_frame}
use volo_db.Frame.Decoder.{FrameMessagesTuple}
use volo_db.Server.Ndb.{
  Table, KeyPart, part, terminator, Environment, World, M, ◌>>=◌, ◌>>◌, pure, fault, call, start,
  close_transaction,
}
use volo_db.Server.Cache

-- has_distribution_key() && distribution_key().
unfoldable pub is_distribution_key : ColumnValue → Bool
is_distribution_key column = get_or false column.distribution_key

unfoldable pub get_no_distribution_key_indexes : List ColumnValue → ℕ
unfolding is_distribution_key
get_no_distribution_key_indexes [] = 0
get_no_distribution_key_indexes (column ∷ columns) =
    let rest = get_no_distribution_key_indexes columns in
    if is_distribution_key column then suc rest else rest

-- The cells of the array that are written.
unfoldable pub get_hint : List ColumnValue → List KeyPart
unfolding is_distribution_key
get_hint [] = terminator ∷ []
get_hint (column ∷ columns) =
    let rest = get_hint columns in
    if is_distribution_key column then part column.value ∷ rest else rest

-- What _getResonsibleDataNode reads of the operation, for each of the three classes;
-- `undefined` is store_info(0) of an operation that names no store.
unfoldable pub extract_info_for_responsible_data_node :
    List StoreInfo → List ColumnValue → Outcome (Text × List ColumnValue)
extract_info_for_responsible_data_node [] primary_key = undefined
extract_info_for_responsible_data_node (store_info ∷ _) primary_key =
    ok (store_info.store_name, primary_key)

module _ (env : Environment) where
  -- `none` is -1. The transaction is opened to learn its node, and closed at once.
  unfoldable pub get_responsible_data_node_internal : Text → List ColumnValue → M (Option ℕ)
  unfolding get_hint start call Cache.get_or_set
  get_responsible_data_node_internal store_name columns = do
    table ← Cache.get_or_set env store_name
    elim table [
      | none ↦ pure none
      | some t ↦ do
        count_transaction
        transaction ← start env t (get_hint columns)
        elim transaction [ some trans ↦ close_and_return trans | none ↦ count_failure ]
    ]
    where
      count_transaction : M (Unit {0})
      count_transaction w =
          ok (tt, record w { no_recent_transactions = w.no_recent_transactions + 1 })

      count_failure : M (Option ℕ)
      count_failure w =
          ok
            (none, record w { no_recent_failed_transactions = w.no_recent_failed_transactions + 1 })

      close_and_return : ℕ → M (Option ℕ)
      close_and_return trans w =
          ok (some (env.node_id w.trace), record w { trace = close_transaction trans ∷ w.trace })

  -- The choice of the data node once the operation's store and keys are known.
  data_node_of : Outcome (Text × List ColumnValue) → M (Option ℕ)
  unfolding get_no_distribution_key_indexes get_responsible_data_node_internal
  data_node_of (ok (store_name, columns)) =
      if ltb 0 (get_no_distribution_key_indexes columns)
      then get_responsible_data_node_internal store_name columns
      else pure none
  data_node_of _ = fault

  unfoldable pub get_responsible_data_node : Message → M (Option ℕ)
  unfolding data_node_of extract_info_for_responsible_data_node
  get_responsible_data_node (set_operation m) =
      data_node_of (extract_info_for_responsible_data_node m.store_info m.primary_key)
  get_responsible_data_node (delete_operation m) =
      data_node_of (extract_info_for_responsible_data_node m.store_info m.primary_key)
  get_responsible_data_node (get_operation m) =
      data_node_of (extract_info_for_responsible_data_node m.store_info m.primary_key)
  get_responsible_data_node _ = pure none

  -- `x % noOfExecutors`, which is undefined for 0.
  modulo : ℕ → ℕ → M (Option ℕ)
  modulo x no_of_executors =
      if ltb 0 no_of_executors then pure (some (x % no_of_executors)) else fault

  unfoldable pub get_responsible_executor : ℕ → Message → ℕ → M (Option ℕ)
  unfolding get_responsible_data_node modulo is_definition_frame
  get_responsible_executor rand message no_of_executors =
      if is_definition_frame message then modulo rand no_of_executors else do
        node ← get_responsible_data_node message
        elim node [ none ↦ pure none | some n ↦ modulo n no_of_executors ]

abbrev pub ExecutorTaskMap : Type 0
ExecutorTaskMap = List (ℕ × List FrameMessagesTuple)

-- The bucket is made where there is none; the tuple goes to its end.
unfoldable pub add_to_executor_list : ExecutorTaskMap → ℕ → FrameMessagesTuple → ExecutorTaskMap
add_to_executor_list [] executor_no tuple = (executor_no, tuple ∷ []) ∷ []
add_to_executor_list ((key, bucket) ∷ tasks) executor_no tuple =
    if key == executor_no
    then (key, bucket ++ tuple ∷ []) ∷ tasks
    else (key, bucket) ∷ add_to_executor_list tasks executor_no tuple

-- The loop, after some of the list; `rand i` is what the i-th call of rand() returns.
pub process_from :
    (ℕ → ℕ) → ℕ → ExecutorTaskMap → List FrameMessagesTuple → ℕ → Outcome ExecutorTaskMap
unfolding add_to_executor_list
process_from rand i tasks [] no_of_executors = ok tasks
process_from rand i tasks (tuple ∷ tuples) no_of_executors =
    let rest =
      process_from rand (i + 1) (add_to_executor_list tasks (rand i % no_of_executors) tuple) tuples
        no_of_executors in
    if ltb 0 no_of_executors then rest else undefined

unfoldable pub process_for_executor :
    (ℕ → ℕ) → List FrameMessagesTuple → ℕ → Outcome ExecutorTaskMap
unfolding process_from
process_for_executor rand tuples no_of_executors = process_from rand 0 [] tuples no_of_executors
