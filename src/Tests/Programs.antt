-- ===== src/Tests/Programs.antt =====
-- The settings of a server, its log and its start.
use volo_db.Prelude.{true, ◌≡◌, Text, false, [], ◌∷◌, codes, get_or}
use volo_db.Prelude.Outcome.{Outcome, ok, throw}
use volo_db.Common.Config.{Tree, read, get_value, get_value_or, said, or_throw, get_value-read}
use volo_db.Server.Program.{Cluster, Options}

abbrev file : Tree
file =
    (codes "settings", (codes "store_port", codes "5000") ∷ (codes "database", codes "d") ∷ [])
    ∷ (codes "test", [])
    ∷ (codes "settings", (codes "store_port", codes "6000") ∷ [])
    ∷ []

get_value-read_example :
    (get_value (codes "settings") (codes "store_port") (read (ok file) []).0
      ≡ or_throw (said (codes "settings") (codes "store_port") file))
    × (get_value_or (codes "settings") (codes "store_port") (codes "5570") (read (ok file) []).0
        ≡ get_or (codes "5570") (said (codes "settings") (codes "store_port") file))
    × (read (throw (codes "no file")) [] ≡ ([], throw (codes "no file")))
get_value-read_example =
    get_value-read (codes "settings") (codes "store_port") (codes "5570") file [] (codes "no file")

abbrev options : Options
options = record { config_path = codes "/etc/volodb.conf"; test = false; test_throughput = false }

abbrev read_ini : Text → Outcome Tree
read_ini path = ok file

abbrev ready_cluster : Cluster
ready_cluster = record { connects = λ k. true; is_ready = λ k. true }
