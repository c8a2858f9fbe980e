-- ===== src/Tests/Stores.antt =====
-- A store with two executors: its start and stop, its sockets and its monitor.
use volo_db.Prelude.{
  ◌+◌, ◌%◌, ◌≤◌, ◌<◌, ◌≡◌, refl, Text, true, List, [], ◌∷◌, ◌++◌, codes, arith, get_or, set_at,
}
use volo_db.Prelude.Outcome.{ok, undefined}
use volo_db.Proto.Column.{column_type_value}
use volo_db.Frame.Builder.{serialize}
use volo_db.Frame.Decoder.{FrameMessagesTuple}
use volo_db.Server.Store.Receive.{receive_queued_messages, receive_queued_messages_lem}
use volo_db.Server.Store.Monitor.{Monitor, should_ignore_request, should_ignore_request_lem}
use volo_db.Server.Store.Threads.{
  Sockets, nothing, processed, received, no_messages, process_messages, receive_task,
}
use volo_db.Server.Store.Threads.Delivery.{taken_from, concat, dealt_to, taken_from-dealt_to}
use volo_db.Server.Store.Life.{Store, made, ran, stopped, new_store, run, stop}
use volo_db.Server.Store.Life.Phases.{Phase, IsLive, IsOver, Lived-Phase, run-stop}
use volo_db.Client.RoundTrip.{atomic_frame}
use volo_db.Tests.Messages.{codec}
use volo_db.Tests.Requests.{set_and_get}

receive_queued_messages_lem_example :
    receive_queued_messages true 2 (codes "a" ∷ codes "b" ∷ codes "c" ∷ [])
    ≡ ok (codes "a" ∷ codes "b" ∷ [], codes "c" ∷ [])
receive_queued_messages_lem_example =
    receive_queued_messages_lem 2 (codes "a" ∷ codes "b" ∷ codes "c" ∷ []) (omega arith)

abbrev failing : Monitor
failing = record {
  no_recent_transactions = 4;
  no_recent_failed_transactions = 4;
  last_failed_transactions_start_time = 10;
}

failing_ignored : (should_ignore_request 12 200 failing).0 ≡ true
unfolding should_ignore_request
failing_ignored = refl

should_ignore_request_lem_example :
    (failing.no_recent_failed_transactions ≡ failing.no_recent_transactions)
    × (0 < 4)
    × (12 ≤ 10 + 3)
    × (200 % 100 ≡ 0)
should_ignore_request_lem_example =
    should_ignore_request_lem 12 200 failing (omega arith) failing_ignored

abbrev live : Store
live = record (new_store 2 3) {
  has_ndb_executors = true;
  has_transport = true;
  is_listening = true;
  task_sender_sockets = 6;
  executor_threads = true ∷ true ∷ true ∷ [];
  current_executor_init_count = 3;
  is_running = true;
}

runs : run (new_store 2 3) ≡ ok live
unfolding run new_store
runs = refl

Lived-Phase_example : Phase 2 3 (stop live)
Lived-Phase_example = Lived-Phase 2 3 (stop live) (stopped (ran made runs))

live-IsLive : IsLive 2 3 live
live-IsLive = record {
  running = refl;
  transport = refl;
  listening = refl;
  sockets = refl;
  threads = refl;
  initialised = refl;
}

run-stop_example :
    (run live ≡ ok live)
    × IsOver 3 (stop live)
    × (stop (stop live) ≡ stop live)
    × (run (stop live) ≡ undefined)
run-stop_example = run-stop 2 3 live live-IsLive

-- An atomic request as it is received, behind its envelope.
abbrev messages : List Text
messages =
    codes "client"
    ∷ get_or [] (codec.frame.serialize (atomic_frame codec (codes "a") set_and_get))
    ∷ []

abbrev tuple : FrameMessagesTuple
tuple = record { id = codes "a"; envelope = codes "client"; messages = set_and_get }

abbrev dealt : Sockets
dealt = record {
  waiting = set_at 0 (set_at 1 ((tuple ∷ []) ∷ []) (λ executor. [])) (λ thread executor. []);
  taken = λ executor. [];
}

messages_processed : process_messages codec (λ i. 5) 2 messages 0 no_messages ≡ ok dealt
unfolding process_messages serialize column_type_value
messages_processed = refl

taken_from-dealt_to_example :
    taken_from 0 ((receive_task 0 1 dealt).taken 1) ++ concat ((receive_task 0 1 dealt).waiting 0 1)
    ≡ dealt_to codec 2 1 (((λ i. 5), messages) ∷ [])
taken_from-dealt_to_example =
    taken_from-dealt_to codec 2 (set_at 0 (((λ i. 5), messages) ∷ []) (λ thread. []))
      (receive_task 0 1 dealt) (omega arith)
      (received 0 1 (processed 0 (λ i. 5) messages nothing messages_processed)) 0 1
