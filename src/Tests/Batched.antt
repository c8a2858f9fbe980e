-- ===== src/Tests/Batched.antt =====
-- Requests and batches that come back, at the cluster.
use volo_db.Prelude.{
  ℕ, zero, suc, ◌<◌, ◌==◌, ◌⊎◌, none, ◌+◌, ◌≤◌, ◌≡◌, ◌≢◌, refl, Text, Bool, true, false, none, some,
  List, [], ◌∷◌, codes, arith, All, text_eq, if◌then◌else◌,
}
use volo_db.Prelude.Outcome.{ok}
use volo_db.Proto.Operation.{GetOperation}
use volo_db.Proto.Wire.{get_operation}
use volo_db.Frame.Decoder.{FrameMessagesTuple}
use volo_db.Frame.Utils.{is_definition_frame}
use volo_db.Server.Ndb.{Table, World, Event}
use volo_db.Server.Ndb.Tally.{tally}
use volo_db.Server.Executor.Transaction.{execute_tuple}
use volo_db.Server.Cache.Ends.{GoodIfAny}
use volo_db.Server.Executor.Operations.Ends.{HasColumns}
use volo_db.Server.Executor.Transaction.Ends.{IsRunnable}
use volo_db.Server.Executor.Transaction.Total.{execute_tuple_lem}
use volo_db.Server.Executor.Batch.Ends.{execute_all-Ends}
use volo_db.Server.Executor.Batch.{wait_for_transactions_to_complete, max_transactions, execute_all}
use volo_db.Server.Executor.Batch.Polls.{reported, Reaches, wait_for_transactions_to_complete_lem}
use volo_db.Tests.Messages.{codec}
use volo_db.Tests.Requests.{name_value}
use volo_db.Tests.Cluster.{sends, person, person_table, cluster, cached, tuple_of, drop_person}

-- A poll that times out reports none.
abbrev slow_polls : ℕ → ℕ
slow_polls i = if i == 0 then 0 else i

wait_for_transactions_to_complete_lem_example :
    ((k : ℕ) × (wait_for_transactions_to_complete slow_polls 6 5 ≡ some (reported slow_polls k))
      × Reaches slow_polls 5 k
      × (k ≤ 6))
    ⊎ ((wait_for_transactions_to_complete slow_polls 6 5 ≡ none) × (reported slow_polls 6 < 5))
wait_for_transactions_to_complete_lem_example = wait_for_transactions_to_complete_lem slow_polls 6 5

reported_ones : (n : ℕ) → reported (λ i. 1) n ≡ n
unfolding reported
reported_ones zero = refl
reported_ones (suc n) = let e = reported_ones n in omega arith

one_by_one : (t : List Event) (n : ℕ) → n ≤ reported (λ i. 1) n
one_by_one t n = let e = reported_ones n in omega arith

abbrev Good : Table → Type 0
Good table = table ≡ person_table

dictionary-GoodIfAny : (t : List Event) (name : Text) → GoodIfAny Good (cluster.table t name)
dictionary-GoodIfAny t name =
    elim (text_eq name person) as (λ b. GoodIfAny Good (if b then some person_table else none)) [
      | true ↦ refl
      | false ↦ tt
    ]

-- A get that scans for a name.
abbrev scan_person : GetOperation
scan_person = record {
  store_info = record { store_name = person } ∷ [];
  primary_key = [];
  value = name_value ∷ [];
}

abbrev scan_request : FrameMessagesTuple
scan_request = tuple_of (codes "s") (get_operation scan_person ∷ [])

names_a_store : scan_person.store_info ≢ []
names_a_store e = cc

scan_person-HasColumns : (table : Table) → Good table → HasColumns scan_person.value table
unfolding text_eq
scan_person-HasColumns table e = rw e (refl, tt)

scan_request-IsRunnable : All (IsRunnable Good) scan_request.messages
scan_request-IsRunnable = ((names_a_store, scan_person-HasColumns), tt)

some_scan : scan_request.messages ≢ []
some_scan e = cc

execute_tuple_lem_example :
    (b : Bool) × (w : World) × (execute_tuple cluster codec 0 scan_request cached ≡ ok (b, w))
    × ((tally w.trace).replied ≡ 0 + (if b then 0 else 1))
    × ((tally w.trace).started + 0 ≡ 0 + (tally w.trace).closed + (if b then 1 else 0))
unfolding is_definition_frame
execute_tuple_lem_example =
    execute_tuple_lem Good cluster codec 0 scan_request cached dictionary-GoodIfAny (refl, tt) sends
      scan_request-IsRunnable (refl, tt) some_scan

execute_all-Ends_example :
    (w : World) × (execute_all cluster codec 0
        (λ t i. 1)
        (λ n. n)
        ((scan_request ∷ drop_person ∷ []) ∷ [])
        cached
      ≡ ok (tt, w))
    × ((tally w.trace).prepared ≡ (tally w.trace).waited)
    × ((tally w.trace).longest_wait ≤ max_transactions)
execute_all-Ends_example =
    execute_all-Ends Good cluster dictionary-GoodIfAny codec 0 (λ t i. 1) (λ n. n) one_by_one
      ((scan_request ∷ drop_person ∷ []) ∷ []) cached
      ((scan_request-IsRunnable, ((tt, tt), tt)), tt) (refl, tt) refl (omega arith)
