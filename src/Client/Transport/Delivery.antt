-- ===== src/Client/Transport/Delivery.antt =====
-- volodb-client/Transport/ClientTransport.cpp: a client with worker threads at work. ZeroMQ gives a
-- message of the push socket to one of the workers, and keeps the order.
pub mod Kept
use volo_db.Prelude.{
  ℕ, suc, ◌≡◌, refl, sym, ap, ◌∙◌, Text, Bool, true, false, some, List, [], ◌∷◌, ◌++◌, append_assoc,
  append-nil, map, map-append, arith, ◌==◌, if◌then◌else◌, set_at, Bool-cases, inl, inr,
}
use volo_db.Prelude.Outcome.{ok}
use volo_db.Client.Transport.{Transport, new_transport, connect, send}
use volo_db.Client.Transport.Phases.{object, connect-object, send-object}
use volo_db.Client.Transport.Worker.{Worker, worker_thread_round}
use volo_db.Client.Transport.Worker.Rounds.{worker_thread_round_lem, one_call}

pub record Client : Type 0 where
  pub transport : Transport
  pub worker : ℕ → Worker

abbrev pub new_worker : Worker
new_worker = record {
  client_socket = record { inbox = []; outbox = [] };
  sink_socket = [];
  delivered = [];
  is_running = true;
}

-- What has been sent by the program, passed to which worker, and has arrived at each, the oldest
-- first.
pub record History : Type 0 where
  pub sent : List Text
  pub passed : List (ℕ × Text)
  pub arrived : ℕ → List Text

-- Every way in which the program, ZeroMQ and the workers can interleave from the first connect to the
-- first close, while no receive of a worker throws; the errno after it is any.
pub data Reachable (n : ℕ) : History → Client → Type 0 where
  started :
      {transport : Transport}
      → connect true (new_transport true (suc n)) ≡ (transport, ok tt)
      → Reachable n
          (record { sent = []; passed = []; arrived = λ k. [] })
          (record { transport = transport; worker = λ k. new_worker })
  sends :
      {history : History} {client : Client} {transport : Transport} (message : Text)
      → Reachable n history client
      → send message client.transport ≡ (transport, ok tt)
      → Reachable n
          (record history { sent = history.sent ++ message ∷ [] })
          (record client { transport = transport })
  passes :
      {history : History} {client : Client} (k : ℕ) (message : Text) (queue : List Text)
      → Reachable n history client
      → client.transport.send_push_socket ≡ some (message ∷ queue)
      → Reachable n
          (record history { passed = history.passed ++ (k, message) ∷ [] })
          (record {
            transport = record client.transport { send_push_socket = some queue };
            worker =
                set_at k
                  (record (client.worker k) {
                    sink_socket = (client.worker k).sink_socket ++ message ∷ [];
                  })
                  client.worker;
          })
  arrives :
      {history : History} {client : Client} (k : ℕ) (message : Text)
      → Reachable n history client
      → Reachable n
          (record history {
            arrived = set_at k (history.arrived k ++ message ∷ []) history.arrived;
          })
          (record client {
            worker =
                set_at k
                  (record (client.worker k) {
                    client_socket = record (client.worker k).client_socket {
                      inbox = (client.worker k).client_socket.inbox ++ message ∷ [];
                    };
                  })
                  client.worker;
          })
  works :
      {history : History} {client : Client} (k : ℕ) (first second : Bool)
      → Reachable n history client
      → (client.worker k).is_running ≡ true
      → Reachable n history (record client {
        worker =
            set_at k
              (worker_thread_round client.transport.stop_flag client.transport.has_delegate
                (record { at_end = true; when_asked = first })
                (record { at_end = true; when_asked = second })
                (client.worker k))
              client.worker;
      })
