-- ===== src/Server/Program/Serving.antt =====
-- volodbserver/main.cpp and volodbserver/Store/Store.cpp: how the start of the server's store ends.
use volo_db.Prelude.{
  ℕ, ◌+◌, ◌*◌, ◌<◌, ◌≡◌, ◌==◌, refl, ap, ◌∙◌, ltb, ltb→lt, arith, Bool-cases, Text, true, some,
  Option, List, replicate, ◌⊎◌, inl, inr,
}
use volo_db.Prelude.Outcome.{Outcome, ok, undefined}
use volo_db.Common.Logging.{from_string}
use volo_db.Server.Store.Life.{Store, new_store, run}
use volo_db.Server.Store.Startup.{init_db}
use volo_db.Server.Store.Startup.Connections.{Accepts, Refuses, connections_of, init_db_lem}
use volo_db.Server.Program.{
  Cluster, ServerSettings, Started, TestMode, find_senders, connected, unsigned_short,
  cluster_connections, start_store,
}

abbrev pub definers_of : ServerSettings → ℕ
definers_of s = unsigned_short s.no_definer_threads

abbrev pub executors_of : ServerSettings → ℕ
executors_of s = unsigned_short s.no_executor_threads

abbrev pub total_connections : ServerSettings → ℕ
total_connections s = cluster_connections s.single_cluster_connection (executors_of s)

-- What a server has that has started with these settings.
pub record IsServing (now : Text) (s : ServerSettings) (started : Started) : Type 0 where
  pub same_settings : started.settings ≡ s
  pub port : started.store_port ≡ s.store_port
  pub listening : started.store.is_listening ≡ true
  pub running : started.store.is_running ≡ true
  pub executors : started.store.executor_threads ≡ replicate (executors_of s) true
  pub sockets : started.store.task_sender_sockets ≡ definers_of s * executors_of s
  pub level_read : started.level ≡ from_string now s.log_level
  pub connections :
      started.connections ≡ connections_of s.single_cluster_connection (executors_of s)

-- How the start of a store ends: it divides by zero, NDB refuses it, or it serves.
abbrev pub EndsAs : Cluster → Text → ServerSettings → Outcome (ℕ ⊎ Started) → Type 0
EndsAs cluster now s end =
    ((end ≡ undefined) × (definers_of s ≡ 0) × (0 < executors_of s))
    ⊎ (((end ≡ ok (inl 1))
          × (Refuses cluster.connects (total_connections s)
              ⊎ Refuses cluster.is_ready (executors_of s)))
        ⊎ ((started : Started) × (end ≡ ok (inr started))
            × IsServing now s started
            × Accepts cluster.connects 0 (total_connections s)
            × Accepts cluster.is_ready 0 (executors_of s)))

find_senders_lem :
    (definers executors : ℕ)
    → (find_senders definers executors ≡ ok tt)
      ⊎ ((find_senders definers executors ≡ undefined) × (definers ≡ 0) × (0 < executors))
unfolding find_senders
find_senders_lem definers executors = elim (Bool-cases (definers == 0)) [
  | inr some_definer ↦ inl (rw some_definer refl)
  | inl no_definer ↦ elim (Bool-cases (ltb 0 executors)) [
    | inr no_executor ↦ inl (rw (no_definer, no_executor) refl)
    | inl some_executor ↦
        inr (rw (no_definer, some_executor) refl, ground arith, ltb→lt 0 executors some_executor)
  ]
]

-- A store that has been run.
abbrev live : ℕ → ℕ → Store
live definers executors = record (new_store definers executors) {
  has_ndb_executors = true;
  is_listening = true;
  task_sender_sockets = definers * executors;
  executor_threads = replicate executors true;
  current_executor_init_count = 0 + executors;
  is_running = true;
}

start_store-found :
    (cluster : Cluster) (now : Text) (s : ServerSettings) (mode : TestMode)
    → find_senders (definers_of s) (executors_of s) ≡ ok tt
    → start_store cluster now s mode
      ≡ ok (
          connected now s mode
            (live (definers_of s) (executors_of s))
            (init_db (total_connections s) cluster.connects cluster.is_ready (executors_of s)))
unfolding start_store run new_store
start_store-found cluster now s mode found = rw found refl

started_on : Text → ServerSettings → TestMode → List ℕ → Started
started_on now s mode connections = record {
  settings = s;
  mode = mode;
  level = from_string now s.log_level;
  store = live (definers_of s) (executors_of s);
  store_port = s.store_port;
  connections = connections;
}

started_on-IsServing :
    (now : Text) (s : ServerSettings) (mode : TestMode)
    → IsServing now s
        (started_on now s mode (connections_of s.single_cluster_connection (executors_of s)))
unfolding started_on new_store
started_on-IsServing now s mode = record {
  same_settings = refl;
  port = refl;
  listening = refl;
  running = refl;
  executors = refl;
  sockets = refl;
  level_read = refl;
  connections = refl;
}

connected-started_on :
    (now : Text) (s : ServerSettings) (mode : TestMode) (connections : List ℕ)
    → connected now s mode (live (definers_of s) (executors_of s)) (some connections)
      ≡ inr (started_on now s mode connections)
unfolding connected started_on
connected-started_on now s mode connections = refl

pub start_store-EndsAs :
    (cluster : Cluster) (now : Text) (s : ServerSettings) (mode : TestMode)
    → EndsAs cluster now s (start_store cluster now s mode)
unfolding start_store connected
start_store-EndsAs cluster now s mode = elim (find_senders_lem (definers_of s) (executors_of s)) [
  | inr (crashed, none_there, some_executor) ↦ inl (rw crashed refl, none_there, some_executor)
  | inl found ↦
      let begins = start_store-found cluster now s mode found in
      let finish : Option (List ℕ) → Outcome (ℕ ⊎ Started) =
        λ result. ok (connected now s mode (live (definers_of s) (executors_of s)) result) in
      elim (init_db_lem s.single_cluster_connection (executors_of s) cluster.connects
        cluster.is_ready) [
          | inr (failed, refused) ↦ inr (inl (begins ∙ ap finish failed, refused))
          | inl (made, connects, ready) ↦ inr (
              inr (
                started_on now s mode (connections_of s.single_cluster_connection (executors_of s)),
                begins ∙ ap finish made ∙ ap ok (connected-started_on now s mode _),
                started_on-IsServing now s mode,
                connects,
                ready,
              ))
        ]
]
