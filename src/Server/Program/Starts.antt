-- ===== src/Server/Program/Starts.antt =====
-- volodbserver/main.cpp: whether the server starts, and with what.
pub mod Defaults
use volo_db.Prelude.{
  ℕ, ◌*◌, ◌<◌, ◌≡◌, ◌==◌, ltb, ltb→lt, arith, Bool-cases, refl, ℤ, pos, Text, true, false, none,
  some, Option, List, [], ◌∷◌, codes, get_elem?, replicate,
}
use volo_db.Prelude.Outcome.{Outcome, ok, throw, undefined, ◌>>=◌}
use volo_db.Common.Config.{Settings}
use volo_db.Common.Numbers.{stoi}
use volo_db.Common.Logging.{log_info, from_string}
use volo_db.Server.Store.Life.{Store, new_store, run}
use volo_db.Server.Store.Startup.{init_db}
use volo_db.Server.Store.Startup.Connections.{Accepts, Refuses, connections_of, init_db_lem}
use volo_db.Server.Program.{
  Options, ServerSettings, TestMode, no_test, setting, read_settings, Cluster, find_senders,
  connected, test_mode, unsigned_short, cluster_connections, start_store, start_with,
}
use volo_db.Server.Program.Serving.{definers_of, executors_of}

-- The settings that are numbers, with their defaults, in the order in which they are read.
abbrev pub numbers : List (Text × Text)
numbers =
    (codes "no_definer_threads", codes "5")
    ∷ (codes "no_executor_threads", codes "30")
    ∷ (codes "transport_poll_wait", codes "10")
    ∷ (codes "store_poll_wait", codes "10")
    ∷ (codes "store_port", codes "5570")
    ∷ (codes "mysql_port", codes "3306")
    ∷ (codes "ndb_port", codes "1186")
    ∷ []

-- A number of the file that cannot be read.
abbrev pub HasBadNumber : Settings → Type 0
HasBadNumber file =
    (i : ℕ) × (name : Text) × (default_value : Text) × (get_elem? numbers i
      ≡ some (name, default_value))
    × (stoi (setting file name default_value) ≡ throw (codes "stoi"))

-- The numbers of the file, as the server keeps them.
pub record KeepsNumbers (file : Settings) (s : ServerSettings) : Type 0 where
  pub no_definer_threads_is :
      stoi (setting file (codes "no_definer_threads") (codes "5")) ≡ ok s.no_definer_threads
  pub no_executor_threads_is :
      stoi (setting file (codes "no_executor_threads") (codes "30")) ≡ ok s.no_executor_threads
  pub transport_poll_wait_is :
      stoi (setting file (codes "transport_poll_wait") (codes "10")) ≡ ok s.transport_poll_wait
  pub store_poll_wait_is :
      stoi (setting file (codes "store_poll_wait") (codes "10")) ≡ ok s.store_poll_wait
  pub store_port_is : stoi (setting file (codes "store_port") (codes "5570")) ≡ ok s.store_port

test_mode_lem :
    (options : Options) (file : Settings) (executors : ℤ)
    → options.test ≡ false
    → options.test_throughput ≡ false
    → test_mode options.test options.test_throughput file executors ≡ ok no_test
unfolding test_mode
test_mode_lem options file executors e f = rw (e, f) refl

start_with-made :
    (cluster : Cluster) (options : Options) (file : Settings) (now : Text) (s : ServerSettings)
    → read_settings file ≡ ok s
    → start_with cluster options file now ≡ (
        test_mode options.test options.test_throughput file s.no_executor_threads >>= λ mode.
        start_store cluster now s mode)
unfolding start_with
start_with-made cluster options file now s made = rw made refl
