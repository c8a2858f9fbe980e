-- ===== src/Tests/Served.antt =====
-- Requests, definitions and the callback, at the cluster.
use volo_db.Prelude.{
  arith, ℕ, ◌+◌, ◌≡◌, refl, true, false, none, some, List, [], ◌∷◌, codes, All, map, text_eq,
  is_some,
}
use volo_db.Prelude.Outcome.{ok}
use volo_db.Proto.Column.{varchar}
use volo_db.Proto.Frame.{set, get}
use volo_db.Proto.Result.{Result}
use volo_db.Frame.Utils.{is_definition_frame, get_frame_type}
use volo_db.Server.Ndb.{
  Event, PreparedOperation, World, reply, close_transaction, execute_asynch_prepare,
}
use volo_db.Server.Ndb.Tally.{tally}
use volo_db.Server.Executor.Transaction.{execute_tuple}
use volo_db.Server.Executor.Transaction.Requests.{execute_tuple-balanced, execute_tuple-definitions}
use volo_db.Server.Executor.Transaction.Prepared.{Prepared, execute_tuple-Prepared}
use volo_db.Server.Executor.Reply.{make_result, answer_frame, reply_with_result}
use volo_db.Server.Executor.Callback.{operation_results, Reads, Stats, ndb_execute_callback}
use volo_db.Server.Executor.Callback.Lifecycle.{answer}
use volo_db.Server.Executor.Callback.Served.{execute_tuple-answered_with}
use volo_db.Tests.Messages.{codec}
use volo_db.Tests.Requests.{set_and_get, mixed, mixed-Fits, atomic_written}
use volo_db.Client.Answers.{Sent}
use volo_db.System.Exchange.{exchange}
use volo_db.Client.Executor.{execute_all, did_receive_message}
use volo_db.Frame.Decoder.{decode}
use volo_db.Tests.Cluster.{
  sends, cluster, start, world_after, cached, request, handed_over, request_returned,
  set_and_get-All, some_message, drop_person,
}

execute_tuple-balanced_example :
    ((tally handed_over.trace).started + 0 + 0
      ≡ 0 + (tally handed_over.trace).closed + (tally handed_over.trace).prepared)
    × ((tally handed_over.trace).prepared ≡ 0 + 1)
execute_tuple-balanced_example =
    execute_tuple-balanced cluster codec 0 request start handed_over true request_returned

execute_tuple-Prepared_example :
    (t : ℕ) × (prepared : List PreparedOperation) × (earlier : List Event) × (handed_over.trace
      ≡ execute_asynch_prepare t (codes "a") (codes "client") prepared ∷ earlier)
    × Prepared 0 set_and_get prepared
execute_tuple-Prepared_example =
    execute_tuple-Prepared cluster codec 0 request start handed_over request_returned

abbrev dropped : World
dropped = world_after (execute_tuple cluster codec 0 drop_person cached)

drop_returned : execute_tuple cluster codec 0 drop_person cached ≡ ok (false, dropped)
unfolding execute_tuple reply_with_result text_eq
drop_returned = refl

drop_person-All : All (λ m. is_definition_frame m ≡ true) drop_person.messages
unfolding is_definition_frame
drop_person-All = (refl, tt)

execute_tuple-definitions_example : ((tally dropped.trace).replied ≡ 0 + 1) × (false ≡ false)
execute_tuple-definitions_example =
    execute_tuple-definitions cluster codec 0 drop_person cached dropped false drop_returned sends
      drop_person-All

abbrev reads : Reads
reads = record {
  row = λ o. record { name = codes "name"; type = varchar; bytes = 2 ∷ 0 ∷ 104 ∷ 105 ∷ [] } ∷ [];
  scan = λ o. [];
}

abbrev operations : List PreparedOperation
operations =
    record {
      type = set;
      operation = record { handle = 1; is_scan = false };
      columns = none;
      thread_no = 0;
    }
    ∷ record {
      type = get;
      operation = record { handle = 2; is_scan = false };
      columns = some (0 ∷ 1 ∷ []);
      thread_no = 0;
    }
    ∷ []

abbrev stats : Stats
stats = record { should_run = true; is_running = true; starts = 0; total_operations = 0 ∷ [] }

unfoldable answer_sent : Sent codec
unfolding answer operation_results make_result
answer_sent = record {
  content =
      answer cluster codec reads (codes "a") (codes "client") operations 0 stats false handed_over;
  item = record { bytes = _; written = refl; short = omega arith };
  frame = record { bytes = _; written = refl; short = omega arith };
}

execute_tuple-answered_with_example :
    (t : ℕ) × (prepared : List PreparedOperation) × (earlier : List Event) × (r : Result)
    × (stats' : Stats) × (w' : World) × (handed_over.trace
        ≡ execute_asynch_prepare t (codes "a") (codes "client") prepared ∷ earlier)
    × (ndb_execute_callback cluster codec reads false t
          (codes "a")
          (codes "client")
          prepared
          stats
          handed_over
        ≡ ok (stats', w'))
    × (w'.trace
        ≡ reply (codes "client") (codec.frame.serialize (answer_frame codec r))
          ∷ close_transaction t
          ∷ handed_over.trace)
    × (r.transaction_identifier ≡ codes "a")
    × (map (λ o. o.type) r.result ≡ map get_frame_type set_and_get)
    × (is_some r.error_code ≡ false)
    × ((tally w'.trace).replied ≡ 0 + 1)
    × ((tally w'.trace).started + 0 ≡ 0 + (tally w'.trace).closed)
execute_tuple-answered_with_example =
    execute_tuple-answered_with cluster codec reads 0 request start handed_over false stats sends
      set_and_get-All some_message request_returned

abbrev all_but_first : List Event → List Event
all_but_first [] = []
all_but_first (event ∷ events) = events

abbrev earlier_events : List Event
earlier_events = all_but_first handed_over.trace

last_event :
    handed_over.trace
    ≡ execute_asynch_prepare 0 (codes "a") (codes "client") operations ∷ earlier_events
unfolding execute_tuple text_eq get_frame_type
last_event = refl

exchange_example :
    (execute_all codec mixed (codes "a" ∷ []) true ≡ ok atomic_written.bytes)
    × (decode codec atomic_written.bytes (some (codes "client")) ≡ request ∷ [])
    × ((stats' : Stats) × (w' : World) × (ndb_execute_callback cluster codec reads false 0
            (codes "a")
            (codes "client")
            operations
            stats
            handed_over
          ≡ ok (stats', w'))
        × (w'.trace
            ≡ reply (codes "client") (some answer_sent.frame.bytes)
              ∷ close_transaction 0
              ∷ handed_over.trace))
    × (did_receive_message codec true (answer_sent.frame.bytes ∷ [])
        ≡ some (answer_sent.content ∷ []))
    × (answer_sent.content.transaction_identifier ≡ codes "a")
    × (map (λ r. r.type) answer_sent.content.result ≡ map get_frame_type set_and_get)
    × (is_some answer_sent.content.error_code ≡ false)
unfolding answer_sent
exchange_example =
    exchange cluster codec reads mixed (codes "a") [] (codes "client") atomic_written 0 0 start
      handed_over operations earlier_events false stats answer_sent mixed-Fits set_and_get-All
      request_returned last_event refl
