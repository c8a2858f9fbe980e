-- ===== src/Server/Store/Startup.antt =====
-- volodbserver/Store/Store.cpp: how a store that is run waits for its executors and connects to NDB.
-- Whether a connection is made, and whether an Ndb object gets ready, are NDB's answers; the program
-- ends where one is no.
pub mod Waits
pub mod Connections
use volo_db.Prelude.{
  ℕ, zero, suc, ◌+◌, ◌<◌, ◌≡◌, Bool, true, false, Option, none, some, List, [], ◌∷◌, ltb, set_at,
  if◌then◌else◌,
}

-- _initNDB: the connection that each object is made on; `none` is the end of the program. The loop
-- has its passes that are left and the object's number.
init_ndb_from : ℕ → (ℕ → Bool) → ℕ → ℕ → Option (List ℕ)
init_ndb_from total_cluster_connections is_ready zero i = some []
init_ndb_from total_cluster_connections is_ready (suc left) i =
    let connection = if ltb i total_cluster_connections then i else 0 in
    let rest = init_ndb_from total_cluster_connections is_ready left (suc i) in
    if is_ready i
    then (elim rest [ none ↦ none | some connections ↦ some (connection ∷ connections) ])
    else none

unfoldable pub init_ndb : ℕ → (ℕ → Bool) → ℕ → Option (List ℕ)
unfolding init_ndb_from
init_ndb total_cluster_connections is_ready total =
    init_ndb_from total_cluster_connections is_ready total 0

-- The loop of _initDB over the connections: whether the program goes on.
unfoldable pub connect_all : (ℕ → Bool) → ℕ → ℕ → Bool
connect_all connects zero i = true
connect_all connects (suc left) i =
    let rest = connect_all connects left (suc i) in if connects i then rest else false

-- _initDB.
unfoldable pub init_db : ℕ → (ℕ → Bool) → (ℕ → Bool) → ℕ → Option (List ℕ)
unfolding init_ndb connect_all
init_db total_cluster_connections connects is_ready no_executor_threads =
    if connect_all connects total_cluster_connections 0
    then init_ndb total_cluster_connections is_ready no_executor_threads
    else none

-- The executors that have called addExecutorInitializationCount, their count, and whether run is
-- behind its wait.
pub record Startup : Type 0 where
  pub counted : ℕ → Bool
  pub current_executor_init_count : ℕ
  pub has_waited : Bool

abbrev pub new_startup : Startup
new_startup = record { counted = λ k. false; current_executor_init_count = 0; has_waited = false }

-- addExecutorInitializationCount of executor k.
unfoldable pub add_executor_initialization_count : ℕ → Startup → Startup
add_executor_initialization_count k startup = record startup {
  counted = set_at k true startup.counted;
  current_executor_init_count = startup.current_executor_init_count + 1;
}

-- The test of waitForExecutorsToInitialize, each time that the thread holds the lock: it goes on or
-- waits on.
unfoldable pub wait_for_executors_to_initialize : ℕ → Startup → Startup
wait_for_executors_to_initialize no_executor_threads startup =
    if ltb startup.current_executor_init_count no_executor_threads
    then startup
    else record startup { has_waited = true }

-- Every order in which the executors, each of which counts once, and the waiting thread take the
-- lock.
pub data Reachable (no_executor_threads : ℕ) : Startup → Type 0 where
  ran : Reachable no_executor_threads new_startup
  counts :
      {startup : Startup} (k : ℕ)
      → Reachable no_executor_threads startup
      → k < no_executor_threads
      → startup.counted k ≡ false
      → Reachable no_executor_threads (add_executor_initialization_count k startup)
  tests :
      {startup : Startup}
      → Reachable no_executor_threads startup
      → Reachable no_executor_threads (wait_for_executors_to_initialize no_executor_threads startup)
