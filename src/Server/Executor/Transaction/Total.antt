-- ===== src/Server/Executor/Transaction/Total.antt =====
-- volodbserver/Store/NDBMessageExecutor.cpp: what a client can count on for one request.
use volo_db.Prelude.{ℕ, ◌+◌, ◌≡◌, ◌≢◌, Text, Bool, false, List, [], All, arith, if◌then◌else◌}
use volo_db.Prelude.Outcome.{ok}
use volo_db.Proto.Wire.{Codec}
use volo_db.Frame.Utils.{is_definition_frame}
use volo_db.Frame.Decoder.{FrameMessagesTuple}
use volo_db.Server.Ndb.{Table, Event, Environment, World}
use volo_db.Server.Ndb.Tally.{tally}
use volo_db.Server.Ndb.Ends.{IsKnown}
use volo_db.Server.Cache.Ends.{GoodIfAny}
use volo_db.Server.Executor.Transaction.{execute_tuple}
use volo_db.Server.Executor.Transaction.Ends.{IsRunnable, execute_tuple-Ends}
use volo_db.Server.Executor.Transaction.Sent.{Sends}
use volo_db.Server.Executor.Transaction.Requests.{execute_tuple-balanced, execute_tuple-answered}

-- A request of at least one operation and manipulations only always comes back, whatever NDB
-- answers. Either it returns false, one answer has been sent to the client, and every transaction
-- that was started is closed; or it returns true, nothing has been sent to the client, and exactly
-- one transaction is left open, for the callback. It needs that every operation names a store, that
-- the columns by which a get filters are columns of every table that the dictionary or the cache
-- has, and that the runtime serialises the frame of every answer, without which none is sent.
pub execute_tuple_lem :
    (Good : Table → Type 0) (env : Environment) (codec : Codec) (thread_no : ℕ)
    (tuple : FrameMessagesTuple) (w : World)
    → ((t : List Event) (name : Text) → GoodIfAny Good (env.table t name))
    → IsKnown Good w
    → Sends codec
    → All (IsRunnable Good) tuple.messages
    → All (λ m. is_definition_frame m ≡ false) tuple.messages
    → tuple.messages ≢ []
    → (b : Bool) × (w' : World) × (execute_tuple env codec thread_no tuple w ≡ ok (b, w'))
      × ((tally w'.trace).replied ≡ (tally w.trace).replied + (if b then 0 else 1))
      × ((tally w'.trace).started + (tally w.trace).closed
          ≡ (tally w.trace).started + (tally w'.trace).closed + (if b then 1 else 0))
execute_tuple_lem Good env codec thread_no tuple w good known sends runnable manipulations
      some_message =
    let (b, w', e, _, _) =
      execute_tuple-Ends Good env good codec thread_no tuple runnable w known in
    let (live, handed) = execute_tuple-balanced env codec thread_no tuple w w' b e in
    let answered =
      execute_tuple-answered env codec thread_no tuple w w' b e sends manipulations some_message in
    (b, w', e, ground arith, omega arith)
