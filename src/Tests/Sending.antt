-- ===== src/Tests/Sending.antt =====
-- The transport of a client: calls in and out of order, worker threads, and requests.
use volo_db.Prelude.{◌≡◌, refl, Text, Bool, true, false, some, none, List, [], ◌∷◌, codes, set_at}
use volo_db.Prelude.Outcome.{ok}
use volo_db.Client.Transport.{Transport, new_transport, connect, send, close}
use volo_db.Client.Transport.Calls.{Call, to_connect, to_send, to_close, to_receive, calls}
use volo_db.Client.Transport.Phases.{object, replay, calls_lem}
use volo_db.Client.Transport.Receiving.{
  error_of, receive_all, first_empty, empty_messages, unless_overwritten, receive_all_lem,
}
use volo_db.Client.Transport.Worker.{Worker, worker_thread_round}
use volo_db.Client.Transport.Delivery.{Client, new_worker, started, sends, passes, works}
use volo_db.Client.Transport.Delivery.Kept.{Kept, Reachable-Kept}
use volo_db.Client.Transport.Requests.{IsRequest}
use volo_db.Tests.Messages.{codec}
use volo_db.Tests.Requests.{mixed, uuids, mixed_some, mixed-Fits, single_written}

abbrev session : List Call
session =
    to_send (codes "early")
    ∷ to_connect false
    ∷ to_connect true
    ∷ to_send (codes "one")
    ∷ to_close
    ∷ to_close
    ∷ to_connect true
    ∷ to_receive true false
    ∷ to_send (codes "two")
    ∷ []

calls_lem_example :
    (has_context : Bool) × (calls session (new_transport true 5)
      ≡ (object true 5 has_context (replay 5 session none).0, (replay 5 session none).1))
calls_lem_example = calls_lem true 5 session

abbrev receiver : Transport
receiver = record (new_transport true 0) {
  client_socket = some (record { inbox = codes "a" ∷ [] ∷ codes "b" ∷ []; outbox = [] });
  is_connected = true;
}

receive_all_lem_example :
    (receive_all true true receiver
      ≡ ok (empty_messages (error_of true) [] (first_empty (codes "a" ∷ [] ∷ codes "b" ∷ []))))
    × (receive_all true false receiver
        ≡ unless_overwritten (error_of true) (codes "a" ∷ [] ∷ codes "b" ∷ []))
unfolding new_transport
receive_all_lem_example =
    receive_all_lem true (codes "a" ∷ [] ∷ codes "b" ∷ []) receiver (refl, [], refl)

abbrev busy : Worker
busy = record {
  client_socket = record { inbox = codes "x" ∷ codes "y" ∷ []; outbox = codes "p" ∷ [] };
  sink_socket = codes "q" ∷ codes "r" ∷ [];
  delivered = [];
  is_running = true;
}

abbrev two_workers : List Text → Transport
two_workers queue = object true 2 true (some queue)

two_workers_connected : connect true (new_transport true 2) ≡ (two_workers [], ok tt)
unfolding connect new_transport
two_workers_connected = refl

two_workers_sent : send (codes "m") (two_workers []) ≡ (two_workers (codes "m" ∷ []), ok tt)
unfolding send
two_workers_sent = refl

abbrev given : Worker
given = record new_worker { sink_socket = codes "m" ∷ [] }

abbrev at_work : Client
at_work = record {
  transport = two_workers [];
  worker =
      set_at 1
        (worker_thread_round false true (record { at_end = true; when_asked = true })
          (record { at_end = true; when_asked = true }) given)
        (set_at 1 given (λ k. new_worker));
}

Reachable-Kept_example :
    Kept 1
      (record { sent = codes "m" ∷ []; passed = (1, codes "m") ∷ []; arrived = λ k. [] })
      at_work
    × (close at_work.transport ≡ object true 2 true none)
Reachable-Kept_example = Reachable-Kept 1 _ at_work (
    works 1 true true
      (passes 1 (codes "m") [] (sends (codes "m") (started two_workers_connected) two_workers_sent)
        refl)
      refl)

abbrev pub request : IsRequest codec (mixed, uuids)
request = record {
  paired = refl;
  some_operation = mixed_some;
  fits = mixed-Fits;
  frame = single_written;
}
