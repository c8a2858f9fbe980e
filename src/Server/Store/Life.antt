-- ===== src/Server/Store/Life.antt =====
-- volodbserver/Store/Store.cpp: the start and the stop of a store. A thread is whether it can be
-- joined; connecting to NDB, which ends the program where it fails, is taken to succeed, and to MySQL
-- is left out.
pub mod Phases
pub mod Destruction
use volo_db.Prelude.{
  ℕ, zero, suc, ◌+◌, ◌*◌, ◌≤◌, ◌<◌, ◌≡◌, refl, Bool, true, false, List, [], ◌∷◌, ◌++◌, arith,
  length, length-append, length-replicate, replicate, map, All, ltb, if◌then◌else◌,
}
use volo_db.Prelude.Outcome.{Outcome, ok, undefined, ◌>>=◌, ◌>>◌}

-- `has_transport`, `has_ndb_definers` and `has_ndb_executors` are whether _serverTransport,
-- _ndbDefiners and _ndbExecutors point to something.
pub record Store : Type 0 where
  pub no_definer_thread : ℕ
  pub no_executor_threads : ℕ
  pub has_transport : Bool
  pub has_ndb_definers : Bool
  pub has_ndb_executors : Bool
  pub is_listening : Bool
  pub task_sender_sockets : ℕ
  pub executor_threads : List Bool
  pub current_executor_init_count : ℕ
  pub stop_flag : Bool
  pub is_running : Bool

-- The constructor.
unfoldable pub new_store : ℕ → ℕ → Store
new_store no_definer_thread no_executor_threads = record {
  no_definer_thread = no_definer_thread;
  no_executor_threads = no_executor_threads;
  has_transport = true;
  has_ndb_definers = false;
  has_ndb_executors = false;
  is_listening = false;
  task_sender_sockets = 0;
  executor_threads = [];
  current_executor_init_count = 0;
  stop_flag = false;
  is_running = false;
}

-- createExecutorTaskSenderSockets and the start of the transport, which are calls on _serverTransport.
unfoldable pub start_transport : Store → Outcome Store
start_transport store =
    if store.has_transport
    then ok (record store {
      task_sender_sockets = store.no_definer_thread * store.no_executor_threads;
      is_listening = true;
    })
    else undefined

-- The new executor threads, once each has called addExecutorInitializationCount.
unfoldable pub start_executors : Store → Store
start_executors store = record store {
  executor_threads = store.executor_threads ++ replicate store.no_executor_threads true;
  current_executor_init_count = store.current_executor_init_count + store.no_executor_threads;
}

-- _initDB, which makes Ndb objects for the executors only: the call for those of the transport's
-- threads is commented out.
unfoldable pub init_db : Store → Store
init_db store = record store { has_ndb_executors = true }

unfoldable pub run : Store → Outcome Store
unfolding start_transport start_executors init_db
run store = if store.is_running then ok store else do
  started ← start_transport store
  ok (record (init_db (start_executors started)) { is_running = true })

-- _stopWorkerThreads, which clears its own copy of the vector: the threads stay in it, joined. The
-- join of a thread that was joined before throws, which is caught.
unfoldable pub stop_worker_threads : List Bool → List Bool
stop_worker_threads threads = map (λ joinable. false) threads

unfoldable pub clean_up : Store → Store
unfolding stop_worker_threads
clean_up store = record store {
  executor_threads = stop_worker_threads store.executor_threads;
  stop_flag = false;
  task_sender_sockets = 0;
  has_transport = false;
  is_listening = false;
}

unfoldable pub stop : Store → Store
unfolding clean_up
stop store = if store.is_running then record (clean_up store) { is_running = false } else store

-- _clearNDb, on a pointer that may be null.
unfoldable pub clear_ndb : Bool → ℕ → Outcome (Unit {0})
clear_ndb has_ndb zero = ok tt
clear_ndb has_ndb (suc total) =
    let rest = clear_ndb has_ndb total in if has_ndb then rest else undefined

-- The destructor.
unfoldable pub destroy : Store → Outcome (Unit {0})
unfolding stop clear_ndb
destroy store =
    let stopped = stop store in
    do
      clear_ndb stopped.has_ndb_definers stopped.no_definer_thread
      clear_ndb stopped.has_ndb_executors stopped.no_executor_threads

-- Every store that calls of run and stop can bring about.
pub data Lived (no_definer_thread no_executor_threads : ℕ) : Store → Type 0 where
  made :
      Lived no_definer_thread no_executor_threads (new_store no_definer_thread no_executor_threads)
  ran :
      {before after : Store}
      → Lived no_definer_thread no_executor_threads before
      → run before ≡ ok after
      → Lived no_definer_thread no_executor_threads after
  stopped :
      {before : Store}
      → Lived no_definer_thread no_executor_threads before
      → Lived no_definer_thread no_executor_threads (stop before)
