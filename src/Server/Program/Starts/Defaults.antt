-- ===== src/Server/Program/Starts/Defaults.antt =====
-- volodbserver/main.cpp: the start of a server without a configuration file.
use volo_db.Prelude.{
  ◌≡◌, refl, ap, ◌∙◌, pos, Text, true, false, none, [], codes, inl, inr, arith, replicate,
}
use volo_db.Prelude.Outcome.{Outcome, ok, throw, ◌>>=◌}
use volo_db.Common.Config.{Tree}
use volo_db.Common.Logging.{log_info, from_string}
use volo_db.Server.Program.{
  Cluster, unsigned_short, Options, ServerSettings, Started, no_test, read_settings, settings_with,
  cluster_connections, start_store, start_with, settings_of, start_server, exit_of, main,
}
use volo_db.Server.Store.Startup.Connections.{Accepts}
use volo_db.Server.Program.Serving.{IsServing, start_store-EndsAs}
use volo_db.Server.Program.Starts.{start_with-made, test_mode_lem}

-- The settings of a server that has no file.
abbrev pub defaults : ServerSettings
defaults = record {
  no_definer_threads = pos 5;
  no_executor_threads = pos 30;
  single_cluster_connection = true;
  transport_poll_wait = pos 10;
  store_poll_wait = pos 10;
  store_port = pos 5570;
  mysql_address = codes "localhost";
  mysql_port = 3306;
  ndb_connect_string = codes "localhost";
  ndb_port = 1186;
  user_name = codes "hop";
  password = codes "hop";
  database = codes "vdb";
  log_level = codes "INFO";
}

defaults-read : read_settings [] ≡ ok defaults
unfolding read_settings settings_with
defaults-read = refl

settings_of-unreadable :
    (read_ini : Text → Outcome Tree) (options : Options) (reason : Text)
    → read_ini options.config_path ≡ throw reason
    → settings_of read_ini options ≡ []
unfolding settings_of
settings_of-unreadable read_ini options reason e = rw (settings_of, e) refl

-- A configuration file that cannot be read is no reason for the server not to start: unless NDB
-- refuses it, it starts with the default of every setting, with 30 executor threads that share one
-- connection to the cluster, and at the level INFO, which nothing is written of.
pub main-defaults :
    (cluster : Cluster) (options : Options) (read_ini : Text → Outcome Tree) (now reason : Text)
    → options.test ≡ false
    → options.test_throughput ≡ false
    → read_ini options.config_path ≡ throw reason
    → Accepts cluster.connects 0 1
    → Accepts cluster.is_ready 0 30
    → (started : Started) × (main cluster (ok options) read_ini now ≡ ok (inr started))
      × IsServing now defaults started
      × (started.level ≡ (log_info, none))
      × (started.connections ≡ replicate 30 0)
unfolding main start_server exit_of from_string cluster_connections unsigned_short
main-defaults cluster options read_ini now reason e f failed connects ready =
    let starts =
      ap (λ file. start_with cluster options file now)
        (settings_of-unreadable read_ini options reason failed)
      ∙ start_with-made cluster options [] now defaults defaults-read
      ∙ ap (λ o. o >>= λ mode. start_store cluster now defaults mode)
          (test_mode_lem options [] (pos 30) e f) in
    elim (start_store-EndsAs cluster now defaults no_test) [
      | inl (_, none_there, _) ↦ absurd (omega arith)
      | inr (inl (_, inl (k, l, refused))) ↦ absurd (ground (arith, connects k (omega arith) l))
      | inr (inl (_, inr (k, l, refused))) ↦ absurd (ground (arith, ready k (omega arith) l))
      | inr (inr (started, ends, serves, _, _)) ↦
          (started, ap exit_of (starts ∙ ends), serves, serves.level_read, serves.connections)
    ]
