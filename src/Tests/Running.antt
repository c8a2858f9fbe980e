-- ===== src/Tests/Running.antt =====
-- A store of two executors that starts and ends, and a measurement of its throughput.
use volo_db.Prelude.{
  ℕ, ◌/◌, ◌<◌, ◌≡◌, ◌↔◌, ◌⊎◌, refl, pos, true, false, some, none, [], ◌∷◌, ◌++◌, codes, arith,
}
use volo_db.Prelude.Decimal.{to_string}
use volo_db.Prelude.Outcome.{ok, undefined}
use volo_db.Server.Program.{cluster_connections}
use volo_db.Server.Stats.{count_all, print_stats}
use volo_db.Server.Stats.Totals.{print_stats_lem}
use volo_db.Server.Store.Life.{made, stopped, new_store, stop, destroy}
use volo_db.Server.Store.Life.Destruction.{destroy-Lived}
use volo_db.Server.Store.Startup.{
  Startup, ran, counts, tests, new_startup, add_executor_initialization_count,
  wait_for_executors_to_initialize, init_db,
}
use volo_db.Server.Store.Startup.Waits.{wait_for_executors_to_initialize_lem}
use volo_db.Server.Store.Startup.Connections.{Accepts, Refuses, connections_of, init_db_lem}

init_db_lem_example :
    ((init_db (cluster_connections false 2) (λ i. true) (λ i. true) 2
        ≡ some (connections_of false 2))
      × Accepts (λ i. true) 0 (cluster_connections false 2)
      × Accepts (λ i. true) 0 2)
    ⊎ ((init_db (cluster_connections false 2) (λ i. true) (λ i. true) 2 ≡ none)
        × (Refuses (λ i. true) (cluster_connections false 2) ⊎ Refuses (λ i. true) 2))
init_db_lem_example = init_db_lem false 2 (λ i. true) (λ i. true)

abbrev one_there : Startup
one_there = wait_for_executors_to_initialize 2 (add_executor_initialization_count 1 new_startup)

wait_for_executors_to_initialize_lem_example :
    ((wait_for_executors_to_initialize 2 one_there).has_waited ≡ true)
    ↔ ((k : ℕ) → k < 2 → one_there.counted k ≡ true)
wait_for_executors_to_initialize_lem_example =
    wait_for_executors_to_initialize_lem 2 one_there (tests (counts 1 ran (omega arith) refl))

destroy-Lived_example : destroy (stop (new_store 5 30)) ≡ undefined
destroy-Lived_example = destroy-Lived 5 30 (stop (new_store 5 30)) (omega arith) (stopped made)

print_stats_lem_example :
    print_stats true 2
      (7 ∷ 4294967295 ∷ [])
      (count_all ((0, 3) ∷ (1, 2) ∷ (0, 1) ∷ []) (7 ∷ 4294967295 ∷ []))
    ≡ ok (
        to_string (pos (6 / 2))
        ∷ []
        ∷ (codes "Total requests processed: " ++ to_string (pos 6))
        ∷ (codes "Total Time Bechmaked: " ++ to_string (pos 2))
        ∷ [])
print_stats_lem_example =
    print_stats_lem 2 ((0, 3) ∷ (1, 2) ∷ (0, 1) ∷ []) (7 ∷ 4294967295 ∷ []) (omega arith)
      (omega arith, (omega arith, tt)) (omega arith, (omega arith, (omega arith, tt))) (omega arith)
