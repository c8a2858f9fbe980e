-- ===== src/Server/Program.antt =====
-- volodbserver/main.cpp: the start of the server. The command line and the configuration file are
-- read by boost; what it makes of them is an argument, and so are NDB's answers. The connections to
-- MySQL are left out.
pub mod Serving
pub mod Starts
use volo_db.Prelude.{
  ℕ, zero, suc, ◌%◌, ◌^◌, ◌≡◌, refl, ℤ, pos, negsuc, Text, Bool, true, false, not, ◌&&◌, ltb, ◌==◌,
  Option, none, some, List, [], ◌∷◌, codes, ◌⊎◌, inl, inr, if◌then◌else◌,
}
use volo_db.Prelude.Int.{to_word}
use volo_db.Prelude.Outcome.{Outcome, ok, throw, undefined, ◌>>=◌, ◌>>◌}
use volo_db.Common.Config.{Settings, Tree, read, get_value_or}
use volo_db.Common.Utils.{to_bool}
use volo_db.Common.Numbers.{stoi}
use volo_db.Common.Logging.{LogLevel, from_string}
use volo_db.Server.Store.Life.{Store, new_store, run}
use volo_db.Server.Store.Startup.{init_db}

-- The command line: --config-path, which has a default, --test and --test-throughput.
pub record Options : Type 0 where
  pub config_path : Text
  pub test : Bool
  pub test_throughput : Bool

-- The settings, as their variables hold them.
pub record ServerSettings : Type 0 where
  pub no_definer_threads : ℤ
  pub no_executor_threads : ℤ
  pub single_cluster_connection : Bool
  pub transport_poll_wait : ℤ
  pub store_poll_wait : ℤ
  pub store_port : ℤ
  pub mysql_address : Text
  pub mysql_port : ℕ
  pub ndb_connect_string : Text
  pub ndb_port : ℕ
  pub user_name : Text
  pub password : Text
  pub database : Text
  pub log_level : Text

-- A setting of the section of the server, or its default.
unfoldable pub setting : Settings → Text → Text → Text
unfolding get_value_or
setting settings name default_value = get_value_or (codes "settings") name default_value settings

-- static_cast<unsigned int>.
unfoldable pub unsigned_int : ℤ → ℕ
unfolding to_word
unsigned_int z = to_word (2 ^ 31) z

-- All settings, with the numbers among them.
unfoldable pub settings_with : Settings → ℤ → ℤ → ℤ → ℤ → ℤ → ℤ → ℤ → ServerSettings
unfolding setting to_bool unsigned_int
settings_with settings definers executors transport_wait store_wait port mysql_port ndb_port =
    record {
      no_definer_threads = definers;
      no_executor_threads = executors;
      single_cluster_connection =
          to_bool (setting settings (codes "single_cluster_connection") (codes "1"));
      transport_poll_wait = transport_wait;
      store_poll_wait = store_wait;
      store_port = port;
      mysql_address = setting settings (codes "mysql_server_ip") (codes "localhost");
      mysql_port = unsigned_int mysql_port;
      ndb_connect_string = setting settings (codes "ndb_connect_string") (codes "localhost");
      ndb_port = unsigned_int ndb_port;
      user_name = setting settings (codes "mysql_user_name") (codes "hop");
      password = setting settings (codes "mysql_password") (codes "hop");
      database = setting settings (codes "database") (codes "vdb");
      log_level = setting settings (codes "log_level") (codes "INFO");
    }

unfoldable pub read_settings : Settings → Outcome ServerSettings
unfolding setting stoi settings_with
read_settings settings = do
  no_definer_threads ← stoi (setting settings (codes "no_definer_threads") (codes "5"))
  no_executor_threads ← stoi (setting settings (codes "no_executor_threads") (codes "30"))
  transport_poll_wait ← stoi (setting settings (codes "transport_poll_wait") (codes "10"))
  store_poll_wait ← stoi (setting settings (codes "store_poll_wait") (codes "10"))
  store_port ← stoi (setting settings (codes "store_port") (codes "5570"))
  mysql_port ← stoi (setting settings (codes "mysql_port") (codes "3306"))
  ndb_port ← stoi (setting settings (codes "ndb_port") (codes "1186"))
  ok (
      settings_with settings no_definer_threads no_executor_threads transport_poll_wait
        store_poll_wait store_port mysql_port ndb_port)

-- What TestStats::init is called with.
pub data TestMode : Type 0 where
  no_test : TestMode
  timed_test : ℤ → ℤ → TestMode
  throughput_test : TestMode

-- TestStats::init makes an array of an int for each executor, which throws below zero.
init_stats : ℤ → TestMode → Outcome TestMode
init_stats (pos n) mode = ok mode
init_stats (negsuc k) mode = throw (codes "std::bad_array_new_length")

-- The two test modes; the one with the throughput wins if both are asked for.
unfoldable pub test_mode : Bool → Bool → Settings → ℤ → Outcome TestMode
unfolding get_value_or stoi init_stats
test_mode test test_throughput settings no_executor_threads =
    if test && not test_throughput
    then (do
      warmup_time ← stoi (get_value_or (codes "test") (codes "warmup_time") (codes "4") settings)
      total_time ← stoi (get_value_or (codes "test") (codes "total_time") (codes "5") settings)
      init_stats no_executor_threads (timed_test warmup_time total_time))
    else if test_throughput
    then init_stats no_executor_threads throughput_test
    else ok no_test

-- Store's constructor takes unsigned shorts for the numbers of threads.
unfoldable pub unsigned_short : ℤ → ℕ
unfolding to_word
unsigned_short z = to_word (2 ^ 31) z % 2 ^ 16

-- _totalClusterConnections.
unfoldable pub cluster_connections : Bool → ℕ → ℕ
cluster_connections single_cluster_connection no_executor_threads =
    if single_cluster_connection then 1 else no_executor_threads

-- NDB's answers: whether a connection is made, and whether an Ndb object gets ready.
pub record Cluster : Type 0 where
  pub connects : ℕ → Bool
  pub is_ready : ℕ → Bool

-- A server that waits till it is stopped: its reporting level with what was written of it, its store,
-- the port that run starts the store's transport on, and the connection of each executor.
pub record Started : Type 0 where
  pub settings : ServerSettings
  pub mode : TestMode
  pub level : LogLevel × Option Text
  pub store : Store
  pub store_port : ℤ
  pub connections : List ℕ

-- Each executor thread takes its number modulo the number of transport threads.
unfoldable pub find_senders : ℕ → ℕ → Outcome (Unit {0})
find_senders definers executors = if definers == 0 && ltb 0 executors then undefined else ok tt

-- What _initDB has made, or the end of the program.
connected : Text → ServerSettings → TestMode → Store → Option (List ℕ) → ℕ ⊎ Started
unfolding from_string
connected now settings mode store none = inl 1
connected now settings mode store (some connections) = inr (record {
  settings = settings;
  mode = mode;
  level = from_string now settings.log_level;
  store = store;
  store_port = settings.store_port;
  connections = connections;
})

-- The start of the store: the exit code where NDB refuses it.
unfoldable pub start_store : Cluster → Text → ServerSettings → TestMode → Outcome (ℕ ⊎ Started)
unfolding unsigned_short cluster_connections run new_store find_senders init_db connected
start_store cluster now settings mode =
    let definers = unsigned_short settings.no_definer_threads in
    let executors = unsigned_short settings.no_executor_threads in
    let total = cluster_connections settings.single_cluster_connection executors in
    do
      find_senders definers executors
      store ← run (new_store definers executors)
      ok (
          connected now settings mode store
            (init_db total cluster.connects cluster.is_ready executors))

-- The body of the try block once the options are known, up to the wait.
unfoldable pub start_with : Cluster → Options → Settings → Text → Outcome (ℕ ⊎ Started)
unfolding read_settings test_mode start_store
start_with cluster options file now = do
  settings ← read_settings file
  mode ← test_mode options.test options.test_throughput file settings.no_executor_threads
  start_store cluster now settings mode

-- The file that the options name; an exception of its reader is caught.
unfoldable pub settings_of : (Text → Outcome Tree) → Options → Settings
unfolding read
settings_of read_ini options = (read (read_ini options.config_path) []).0

unfoldable pub start_server :
    Cluster → Outcome Options → (Text → Outcome Tree) → Text → Outcome (ℕ ⊎ Started)
unfolding start_with settings_of
start_server cluster command_line read_ini now = do
  options ← command_line
  start_with cluster options (settings_of read_ini options) now

-- The catch of main and its return.
exit_of : Outcome (ℕ ⊎ Started) → Outcome (ℕ ⊎ Started)
exit_of (ok started) = ok started
exit_of (throw e) = ok (inl 1)
exit_of undefined = undefined

-- main: the exit code, unless the server has started.
unfoldable pub main :
    Cluster → Outcome Options → (Text → Outcome Tree) → Text → Outcome (ℕ ⊎ Started)
unfolding start_server exit_of
main cluster command_line read_ini now = exit_of (start_server cluster command_line read_ini now)
