-- ===== src/Tests/Transported.antt =====
-- A worker of the server's transport, with a request that has come in and two answers to send.
use volo_db.Prelude.{◌≡◌, refl, true, [], ◌∷◌, codes}
use volo_db.Prelude.Outcome.{ok}
use volo_db.Server.Transport.{Worker, worker_round, worker_round_lem}

abbrev busy : Worker
busy = record {
  has_delegate = true;
  worker_socket = codes "client" ∷ codes "request" ∷ [];
  sink_socket = codes "one" ∷ codes "first" ∷ codes "two" ∷ codes "second" ∷ [];
  delivered = [];
  sent = [];
}

worker_round_lem_example :
    worker_round true busy
    ≡ ok (record {
      has_delegate = true;
      worker_socket = [];
      sink_socket = [];
      delivered = (codes "client" ∷ codes "request" ∷ []) ∷ [];
      sent = (codes "one" ∷ codes "first" ∷ []) ∷ (codes "two" ∷ codes "second" ∷ []) ∷ [];
    })
worker_round_lem_example =
    worker_round_lem busy ((codes "one", codes "first") ∷ (codes "two", codes "second") ∷ []) refl
      refl
