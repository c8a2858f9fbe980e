-- ===== src/Server/Processor/Dispatch.antt =====
-- volodbserver/Store/NDBMessageProcessor.cpp, processForExecutor: the buckets of requests
-- against the random numbers that were drawn.
use mathlib.Core.List.{Perm, perm_middle}
use mathlib.Core.List.Perm
use volo_db.Prelude.{
  ℕ, ◌+◌, ◌%◌, ◌<◌, ◌≡◌, refl, sym, ap, ◌∙◌, List, [], ◌∷◌, ◌++◌, append_assoc, append-nil, true,
  false, arith, All, lt→ltb, ◌==◌, Bool-cases, inl, inr, if◌then◌else◌,
}
use volo_db.Prelude.Outcome.{ok}
use volo_db.Frame.Decoder.{FrameMessagesTuple}
use volo_db.Server.Processor.{
  ExecutorTaskMap, add_to_executor_list, process_from, process_for_executor,
}

-- The tuples that an executor's bucket holds.
abbrev pub bucket_of : ℕ → ExecutorTaskMap → List FrameMessagesTuple
bucket_of k [] = []
bucket_of k ((key, bucket) ∷ tasks) = if key == k then bucket else bucket_of k tasks

-- The tuples that the random numbers from the i-th on give to an executor, in order.
abbrev pub assigned : (ℕ → ℕ) → ℕ → List FrameMessagesTuple → ℕ → ℕ → List FrameMessagesTuple
assigned rand i [] n k = []
assigned rand i (tuple ∷ tuples) n k =
    (if rand i % n == k then tuple ∷ [] else []) ++ assigned rand (i + 1) tuples n k

-- Every bucket is that of an executor thread that there is.
abbrev pub KeysBelow : ℕ → ExecutorTaskMap → Type 0
KeysBelow n = All (λ entry. entry.0 < n)

-- All that is passed on, bucket after bucket.
abbrev pub dispatched : ExecutorTaskMap → List FrameMessagesTuple
dispatched [] = []
dispatched ((key, bucket) ∷ tasks) = bucket ++ dispatched tasks

bucket_of-add_to_executor_list :
    (k no_of : ℕ) (tuple : FrameMessagesTuple) (tasks : ExecutorTaskMap)
    → bucket_of k (add_to_executor_list tasks no_of tuple)
      ≡ bucket_of k tasks ++ (if no_of == k then tuple ∷ [] else [])
unfolding add_to_executor_list
bucket_of-add_to_executor_list k no_of tuple [] = refl
bucket_of-add_to_executor_list k no_of tuple ((key, bucket) ∷ tasks) =
    elim (Bool-cases (key == no_of)) [
      | inl e ↦ rw e (ground (arith, append-nil bucket, append-nil (bucket_of k tasks)))
      | inr e ↦
          rw e
            (ground (arith, append-nil bucket, bucket_of-add_to_executor_list k no_of tuple tasks))
    ]

add_to_executor_list-KeysBelow :
    (n no_of : ℕ) (tuple : FrameMessagesTuple) (tasks : ExecutorTaskMap)
    → no_of < n
    → KeysBelow n tasks
    → KeysBelow n (add_to_executor_list tasks no_of tuple)
unfolding add_to_executor_list
add_to_executor_list-KeysBelow n no_of tuple [] h b = (h, tt)
add_to_executor_list-KeysBelow n no_of tuple ((key, bucket) ∷ tasks) h b =
    ground (arith, add_to_executor_list-KeysBelow n no_of tuple tasks h b.1)

dispatched-add_to_executor_list :
    (no_of : ℕ) (tuple : FrameMessagesTuple) (tasks : ExecutorTaskMap)
    → Perm (dispatched (add_to_executor_list tasks no_of tuple)) (tuple ∷ dispatched tasks)
unfolding add_to_executor_list
dispatched-add_to_executor_list no_of tuple [] = Perm.refl _
dispatched-add_to_executor_list no_of tuple ((key, bucket) ∷ tasks) =
    elim (key == no_of)
      as (λ b.
        Perm
          (dispatched (
            if b
            then (key, bucket ++ tuple ∷ []) ∷ tasks
            else (key, bucket) ∷ add_to_executor_list tasks no_of tuple))
          (tuple ∷ bucket ++ dispatched tasks)) [
            | true ↦ rw append_assoc (perm_middle bucket (dispatched tasks))
            | false ↦
                Perm.trans
                  (Perm.append_left bucket (dispatched-add_to_executor_list no_of tuple tasks))
                  (perm_middle bucket (dispatched tasks))
          ]

module _ (rand : ℕ → ℕ) (n : ℕ) (some_executor : 0 < n) where
  process_from_lem :
      (i : ℕ) (tasks : ExecutorTaskMap) (tuples : List FrameMessagesTuple)
      → KeysBelow n tasks
      → (tasks' : ExecutorTaskMap) × (process_from rand i tasks tuples n ≡ ok tasks')
        × ((k : ℕ) → bucket_of k tasks' ≡ bucket_of k tasks ++ assigned rand i tuples n k)
        × KeysBelow n tasks'
        × Perm (dispatched tasks') (tuples ++ dispatched tasks)
  unfolding process_from
  process_from_lem i tasks [] b = (tasks, refl, λ k. sym (append-nil _), b, Perm.refl _)
  process_from_lem i tasks (tuple ∷ tuples) b =
      let added = add_to_executor_list tasks (rand i % n) tuple in
      let (tasks', e, buckets, keys, p) =
        process_from_lem (i + 1) added tuples
          (add_to_executor_list-KeysBelow n (rand i % n) tuple tasks (omega arith) b) in
      (
        tasks',
        rw (lt→ltb 0 n some_executor) e,
        λ k.
            buckets k
            ∙ ap (λ l. l ++ assigned rand (i + 1) tuples n k)
                (bucket_of-add_to_executor_list k (rand i % n) tuple tasks)
            ∙ append_assoc (bucket_of k tasks) _ _,
        keys,
        Perm.trans p (
            Perm.trans
              (Perm.append_left tuples (dispatched-add_to_executor_list (rand i % n) tuple tasks))
              (perm_middle tuples (dispatched tasks))),
      )

  -- With at least one executor thread, whatever random numbers are drawn: the tasks are those of
  -- threads that there are, each thread gets the requests that were drawn for it in the order in
  -- which they came, and all threads together get each request exactly once.
  pub process_for_executor_lem :
      (tuples : List FrameMessagesTuple)
      → (tasks : ExecutorTaskMap) × (process_for_executor rand tuples n ≡ ok tasks)
        × ((k : ℕ) → bucket_of k tasks ≡ assigned rand 0 tuples n k)
        × KeysBelow n tasks
        × Perm (dispatched tasks) tuples
  unfolding process_for_executor
  process_for_executor_lem tuples =
      let (tasks, e, buckets, keys, p) = process_from_lem 0 [] tuples tt in
      (tasks, e, buckets, keys, rw append-nil at p)
