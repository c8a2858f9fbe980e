-- ===== src/Server/Processor/Buckets.antt =====
-- volodbserver/Store/NDBMessageProcessor.cpp: the map of tasks has one bucket for an executor, which
-- has all that is passed on to it.
use volo_db.Prelude.{
  ℕ, ◌+◌, ◌%◌, ◌<◌, ◌≡◌, refl, ◌∙◌, false, List, [], ◌∷◌, ◌++◌, append-nil, arith, All, ltb, ◌==◌,
  if◌then◌else◌, Bool-cases, inl, inr,
}
use volo_db.Prelude.Outcome.{ok}
use volo_db.Frame.Decoder.{FrameMessagesTuple}
use volo_db.Server.Processor.{
  ExecutorTaskMap, add_to_executor_list, process_from, process_for_executor,
}
use volo_db.Server.Processor.Dispatch.{bucket_of, assigned, process_for_executor_lem}

-- No bucket is that of the executor.
abbrev Absent : ℕ → ExecutorTaskMap → Type 0
Absent k = All (λ entry. (entry.0 == k) ≡ false)

-- No two buckets are those of one executor, as in an unordered_map.
abbrev pub Distinct : ExecutorTaskMap → Type 0
Distinct [] = Unit
Distinct ((key, bucket) ∷ tasks) = Absent key tasks × Distinct tasks

add_to_executor_list-Absent :
    (k no_of : ℕ) (tuple : FrameMessagesTuple) (tasks : ExecutorTaskMap)
    → (no_of == k) ≡ false
    → Absent k tasks
    → Absent k (add_to_executor_list tasks no_of tuple)
unfolding add_to_executor_list
add_to_executor_list-Absent k no_of tuple [] h a = (h, tt)
add_to_executor_list-Absent k no_of tuple ((key, bucket) ∷ tasks) h a =
    ground (arith, add_to_executor_list-Absent k no_of tuple tasks h a.1)

add_to_executor_list-Distinct :
    (no_of : ℕ) (tuple : FrameMessagesTuple) (tasks : ExecutorTaskMap)
    → Distinct tasks
    → Distinct (add_to_executor_list tasks no_of tuple)
unfolding add_to_executor_list
add_to_executor_list-Distinct no_of tuple [] d = (tt, tt)
add_to_executor_list-Distinct no_of tuple ((key, bucket) ∷ tasks) d =
    elim (Bool-cases (key == no_of)) [
      | inl e ↦ rw e d
      | inr e ↦ rw e (
        add_to_executor_list-Absent key no_of tuple tasks (ground arith) d.0,
        add_to_executor_list-Distinct no_of tuple tasks d.1,
      )
    ]

process_from-Distinct :
    (rand : ℕ → ℕ) (n i : ℕ) (tasks tasks' : ExecutorTaskMap) (tuples : List FrameMessagesTuple)
    → Distinct tasks
    → process_from rand i tasks tuples n ≡ ok tasks'
    → Distinct tasks'
unfolding process_from
process_from-Distinct rand n i tasks tasks' [] d e = ground arith
process_from-Distinct rand n i tasks tasks' (tuple ∷ tuples) d e = elim (Bool-cases (ltb 0 n)) [
  | inl some_executor ↦
      process_from-Distinct rand n (i + 1) (add_to_executor_list tasks (rand i % n) tuple) tasks'
        tuples (add_to_executor_list-Distinct (rand i % n) tuple tasks d) (rw some_executor at e)
  | inr no_executor ↦ absurd (ground arith)
]

-- All that is passed on to an executor, bucket after bucket.
abbrev pub sent_to : ℕ → ExecutorTaskMap → List FrameMessagesTuple
sent_to k [] = []
sent_to k ((key, bucket) ∷ tasks) = (if key == k then bucket else []) ++ sent_to k tasks

sent_to-Absent : (k : ℕ) (tasks : ExecutorTaskMap) → Absent k tasks → sent_to k tasks ≡ []
sent_to-Absent k [] a = refl
sent_to-Absent k ((key, bucket) ∷ tasks) a = rw a.0 (sent_to-Absent k tasks a.1)

sent_to-bucket_of :
    (k : ℕ) (tasks : ExecutorTaskMap) → Distinct tasks → sent_to k tasks ≡ bucket_of k tasks
sent_to-bucket_of k [] d = refl
sent_to-bucket_of k ((key, bucket) ∷ tasks) d = elim (Bool-cases (key == k)) [
  | inl e ↦
      let same : key ≡ k = ground arith in
      rw (e, sent_to-Absent k tasks (rw same at d.0)) (append-nil bucket)
  | inr e ↦ rw e (sent_to-bucket_of k tasks d.1)
]

pub sent_to-assigned :
    (rand : ℕ → ℕ) (n : ℕ) (tuples : List FrameMessagesTuple) (tasks : ExecutorTaskMap)
    → 0 < n
    → process_for_executor rand tuples n ≡ ok tasks
    → (k : ℕ) → sent_to k tasks ≡ assigned rand 0 tuples n k
unfolding process_for_executor
sent_to-assigned rand n tuples tasks h e k =
    let (tasks', e', buckets, _, _) = process_for_executor_lem rand n h tuples in
    let same : tasks' ≡ tasks = cc in
    let distinct = process_from-Distinct rand n 0 [] tasks tuples tt e in
    sent_to-bucket_of k tasks distinct ∙ (rw same at (buckets k))
