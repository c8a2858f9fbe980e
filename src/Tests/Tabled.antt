-- ===== src/Tests/Tabled.antt =====
-- The cache, the processor and the statement for a store, at the cluster.
use mathlib.Core.List.{Perm}
use volo_db.Prelude.{
  ℕ, ◌+◌, ◌≡◌, refl, pos, true, none, some, List, [], ◌∷◌, ◌++◌, codes, arith, map, length, keep_if,
  text_eq, text_eq_iff,
}
use volo_db.Prelude.Outcome.{ok}
use volo_db.Proto.Column.{int32, varchar}
use volo_db.Proto.Operation.{CreateStoreOperation}
use volo_db.Frame.Decoder.{FrameMessagesTuple}
use volo_db.Server.Ndb.{part, terminator, World}
use volo_db.Server.Cache.{find, get_or_set}
use volo_db.Server.Cache.Map.{IsCoherent, get_or_set_lem}
use volo_db.Server.Cache.Replay.{
  CacheStep, to_get, to_ask, to_put, to_invalidate, take_steps, replay, StandsFor, take_steps_lem,
}
use volo_db.Server.Processor.{
  ExecutorTaskMap, process_for_executor, get_hint, get_no_distribution_key_indexes,
  is_distribution_key,
}
use volo_db.Server.Processor.Dispatch.{
  bucket_of, assigned, KeysBelow, dispatched, process_for_executor_lem,
}
use volo_db.Server.Processor.Hint.{get_hint_lem}
use volo_db.Server.Executor.Sql.{create_store_statement, run}
use volo_db.Server.Executor.Sql.CreateTable.{create_table, create_store_statement_lem}
use volo_db.Tests.Requests.{key, name_value, set_and_get}
use volo_db.Tests.Cluster.{person, person_table, dictionary, cluster, start, cached, tuple_of}

start-IsCoherent : IsCoherent dictionary start
unfolding find
start-IsCoherent = record { distinct = tt; agrees = λ k t e. cc }

get_or_set_lem_example :
    (w : World) × (get_or_set cluster person start ≡ ok (some person_table, w))
    × IsCoherent dictionary w
    × (find person w.entries ≡ some person_table)
unfolding text_eq
get_or_set_lem_example =
    get_or_set_lem cluster dictionary person start refl (λ k. refl) start-IsCoherent

cached-IsCoherent : IsCoherent dictionary cached
unfolding find
cached-IsCoherent = record {
  distinct = (refl, tt);
  agrees = λ k t e. ground (arith, text_eq_iff person k, text_eq_iff k person);
}

abbrev cache_steps : List CacheStep
cache_steps =
    to_get person
    ∷ to_ask person
    ∷ to_invalidate person
    ∷ to_put person (some person_table)
    ∷ to_get person
    ∷ []

take_steps_lem_example :
    (w : World) × (take_steps cluster cache_steps start
      ≡ ok ((replay cluster cache_steps ((λ k. find k start.entries), start.trace)).0, w))
    × StandsFor cluster w (replay cluster cache_steps ((λ k. find k start.entries), start.trace)).1
take_steps_lem_example = take_steps_lem cluster cache_steps start tt

abbrev tuples : List FrameMessagesTuple
tuples =
    tuple_of (codes "a") set_and_get
    ∷ tuple_of (codes "b") []
    ∷ tuple_of (codes "c") set_and_get
    ∷ []

process_for_executor_lem_example :
    (tasks : ExecutorTaskMap) × (process_for_executor (λ i. i + 5) tuples 2 ≡ ok tasks)
    × ((k : ℕ) → bucket_of k tasks ≡ assigned (λ i. i + 5) 0 tuples 2 k)
    × KeysBelow 2 tasks
    × Perm (dispatched tasks) tuples
process_for_executor_lem_example = process_for_executor_lem (λ i. i + 5) 2 (omega arith) tuples

get_hint_lem_example :
    (get_hint (key ∷ name_value ∷ [])
      ≡ map (λ c. part c.value) (keep_if is_distribution_key (key ∷ name_value ∷ []))
        ++ terminator ∷ [])
    × (length (get_hint (key ∷ name_value ∷ []))
        ≡ get_no_distribution_key_indexes (key ∷ name_value ∷ []) + 1)
get_hint_lem_example = get_hint_lem (key ∷ name_value ∷ [])

abbrev create_person : CreateStoreOperation
create_person = record {
  store_info = record { store_name = person };
  column =
      record {
        name = codes "id";
        type = int32;
        primary_key = some true;
        distribution_key = some true;
        length = none;
      }
      ∷ record {
        name = codes "name";
        type = varchar;
        primary_key = none;
        distribution_key = none;
        length = some (pos 20);
      }
      ∷ [];
}

create_store_statement_lem_example :
    create_store_statement create_person ≡ ok (run (create_table create_person))
create_store_statement_lem_example = create_store_statement_lem create_person
