-- ===== src/Server/Executor/Callback.antt =====
-- volodbserver/Store/NDBMessageExecutor.cpp, ndbExecuteCallback: the answer to a transaction that NDB
-- has run. What the transaction read is an argument.
pub mod Lifecycle
pub mod Served
use volo_db.Prelude.{
  ℕ, suc, zero, ◌+◌, ℤ, Text, Bool, true, false, Option, none, some, List, [], ◌∷◌, ◌++◌, map,
  length, ◌&&◌, not, if◌then◌else◌,
}
use volo_db.Proto.Column.{ColumnType, ColumnValue}
use volo_db.Proto.Frame.{FrameItemType, get}
use volo_db.Proto.Result.{Row, OperationResult, Result}
use volo_db.Proto.Wire.{Codec}
use volo_db.Frame.Utils.{is_type}
use volo_db.Server.Ndb.{
  Operation, PreparedOperation, Environment, World, M, ◌>>=◌, ◌>>◌, pure, call, last_error_message,
  last_error_code, close_transaction,
}
use volo_db.Server.Executor.Reply.{make_result, make_result_for_error, reply_with_result}

-- An NdbRecAttr that holds a value: the column's name and type, and the bytes.
pub record RecAttr : Type 0 where
  pub name : Text
  pub type : ColumnType
  pub bytes : List ℕ

-- What NDB gives for an operation that reads: the one row, or the rows of a scan, up to the first
-- nextResult that is not 0.
pub record Reads : Type 0 where
  pub row : Operation → List RecAttr
  pub scan : Operation → List (List RecAttr)

-- TestStats, as far as the callback uses it: `starts` counts the calls of TestStats::start.
pub record Stats : Type 0 where
  pub should_run : Bool
  pub is_running : Bool
  pub starts : ℕ
  pub total_operations : List ℕ

abbrev column_value_of : RecAttr → ColumnValue
column_value_of r = record {
  name = r.name;
  type = some r.type;
  primary_key = none;
  distribution_key = none;
  value = r.bytes;
}

-- addRecordToResult: the row that is added.
unfoldable pub row_of : List RecAttr → Row
row_of columns = record { column = map column_value_of columns }

-- The rows of one operation.
unfoldable pub rows_of : Reads → PreparedOperation → List Row
unfolding is_type row_of
rows_of reads prepared =
    if is_type prepared.type get
    then (if prepared.operation.is_scan
        then map row_of (reads.scan prepared.operation)
        else row_of (reads.row prepared.operation) ∷ [])
    else []

unfoldable pub operation_results : Reads → List PreparedOperation → List OperationResult
unfolding rows_of
operation_results reads [] = []
operation_results reads (prepared ∷ operations) =
    record { row = rows_of reads prepared; type = prepared.type }
    ∷ operation_results reads operations

-- The thread number of the last operation, 0 if there is none.
last_thread_no : ℕ → List PreparedOperation → ℕ
last_thread_no n [] = n
last_thread_no n (prepared ∷ operations) = last_thread_no prepared.thread_no operations

add_at : List ℕ → ℕ → ℕ → List ℕ
add_at [] i n = []
add_at (total ∷ totals) zero n = (total + n) ∷ totals
add_at (total ∷ totals) (suc i) n = total ∷ add_at totals i n

-- The end of the callback; a thread number past the totals is not met, and is left out.
unfoldable pub count_operations : List PreparedOperation → Stats → Stats
unfolding last_thread_no add_at
count_operations operations stats =
    if stats.should_run && not stats.is_running
    then record stats { starts = stats.starts + 1 }
    else if stats.is_running
    then record stats {
      total_operations =
          add_at stats.total_operations (last_thread_no 0 operations) (length operations);
    }
    else stats

module _ (env : Environment) (codec : Codec) (reads : Reads) where
  -- `failed` is a result of -1; the state is that which executeAsynchPrepare was given.
  unfoldable pub ndb_execute_callback :
      Bool → ℕ → Text → Text → List PreparedOperation → Stats → M Stats
  unfolding last_error_message last_error_code call make_result make_result_for_error
      operation_results count_operations
  ndb_execute_callback true transaction id envelope operations stats = do
    message ← last_error_message env
    code ← last_error_code env
    call (close_transaction transaction)
    reply_with_result codec (make_result_for_error id message code) envelope
    pure stats
  ndb_execute_callback false transaction id envelope operations stats = do
    call (close_transaction transaction)
    reply_with_result codec
        (record (make_result id) { result = operation_results reads operations }) envelope
    pure (count_operations operations stats)
