-- ===== src/Server/Store/Threads/Delivery.antt =====
-- volodbserver/Store/Store.cpp: what an executor gets of the requests that the transport's
-- threads deal out.
use volo_db.Prelude.{
  ℕ, ◌<◌, ◌≡◌, refl, sym, ap, ◌∙◌, Text, true, List, [], ◌∷◌, ◌++◌, append_assoc, append-nil, arith,
  ◌==◌, if◌then◌else◌, Bool-cases, inl, inr, ◌⊎◌, Option-cases, get_or, set_at,
}
use volo_db.Prelude.Outcome.{Outcome, ok, throw, undefined, ◌>>=◌}
use volo_db.Proto.Wire.{Codec}
use volo_db.Frame.Decoder.{FrameMessagesTuple, decode_with_identifiers}
use volo_db.Server.Processor.{ExecutorTaskMap, process_for_executor}
use volo_db.Server.Processor.Dispatch.{assigned}
use volo_db.Server.Processor.Buckets.{sent_to, sent_to-assigned}
use volo_db.Server.Store.Threads.{
  Task, Sockets, send_task_to_executor, send_tasks, process_messages, receive_task, History,
  Reachable, nothing, processed, received,
}

abbrev pub concat : List Task → List FrameMessagesTuple
concat [] = []
concat (task ∷ tasks) = task ++ concat tasks

-- The requests that an executor has taken from a thread.
abbrev pub taken_from : ℕ → List (ℕ × Task) → List FrameMessagesTuple
taken_from thread [] = []
taken_from thread ((other, task) ∷ taken) =
    (if other == thread then task else []) ++ taken_from thread taken

-- The requests that the random numbers of a thread's batches give to an executor.
abbrev pub dealt_to : Codec → ℕ → ℕ → List ((ℕ → ℕ) × List Text) → List FrameMessagesTuple
dealt_to codec n k [] = []
dealt_to codec n k ((rand, messages) ∷ batches) =
    assigned rand 0 (get_or [] (decode_with_identifiers codec messages)) n k
    ++ dealt_to codec n k batches

concat-append : (xs ys : List Task) → concat (xs ++ ys) ≡ concat xs ++ concat ys
concat-append [] ys = refl
concat-append (x ∷ xs) ys = ap (λ l. x ++ l) (concat-append xs ys) ∙ sym (append_assoc x _ _)

taken_from-append :
    (thread : ℕ) (xs ys : List (ℕ × Task))
    → taken_from thread (xs ++ ys) ≡ taken_from thread xs ++ taken_from thread ys
taken_from-append thread [] ys = refl
taken_from-append thread ((other, task) ∷ xs) ys =
    ap (λ l. (if other == thread then task else []) ++ l) (taken_from-append thread xs ys)
    ∙ sym (append_assoc (if other == thread then task else []) _ _)

dealt_to-append :
    (codec : Codec) (n k : ℕ) (xs ys : List ((ℕ → ℕ) × List Text))
    → dealt_to codec n k (xs ++ ys) ≡ dealt_to codec n k xs ++ dealt_to codec n k ys
dealt_to-append codec n k [] ys = refl
dealt_to-append codec n k ((rand, messages) ∷ xs) ys =
    ap (λ l. assigned rand 0 (get_or [] (decode_with_identifiers codec messages)) n k ++ l)
      (dealt_to-append codec n k xs ys)
    ∙ sym (
        append_assoc (assigned rand 0 (get_or [] (decode_with_identifiers codec messages)) n k) _ _)

-- What is underway or has arrived from a thread at an executor.
abbrev pub passed : Sockets → ℕ → ℕ → List FrameMessagesTuple
passed sockets thread executor =
    taken_from thread (sockets.taken executor) ++ concat (sockets.waiting thread executor)

passed-send_task_to_executor :
    (thread executor i j : ℕ) (task : Task) (sockets : Sockets)
    → passed (send_task_to_executor thread executor task sockets) i j
      ≡ passed sockets i j ++ (if thread == i then (if executor == j then task else []) else [])
unfolding send_task_to_executor
passed-send_task_to_executor thread executor i j task sockets = elim (Bool-cases (thread == i)) [
  | inl e ↦ elim (Bool-cases (executor == j)) [
    | inl f ↦
        let same_thread : thread ≡ i = ground arith in
        let same_executor : executor ≡ j = ground arith in
        rw
          (
            e,
            f,
            same_thread,
            same_executor,
            concat-append (sockets.waiting i j) (task ∷ []),
            append-nil task,
          )
          (sym (append_assoc (taken_from i (sockets.taken j)) _ task))
    | inr f ↦
        let same_thread : thread ≡ i = ground arith in
        rw (e, f, same_thread) (sym (append-nil (passed sockets i j)))
  ]
  | inr e ↦ rw e (sym (append-nil (passed sockets i j)))
]

passed-send_tasks :
    (thread i j : ℕ) (tasks : ExecutorTaskMap) (sockets : Sockets)
    → passed (send_tasks thread tasks sockets) i j
      ≡ passed sockets i j ++ (if thread == i then sent_to j tasks else [])
unfolding send_tasks
passed-send_tasks thread i j [] sockets = elim (Bool-cases (thread == i)) [
  | inl e ↦ rw e (sym (append-nil (passed sockets i j)))
  | inr e ↦ rw e (sym (append-nil (passed sockets i j)))
]
passed-send_tasks thread i j ((executor, task) ∷ tasks) sockets =
    passed-send_tasks thread i j tasks (send_task_to_executor thread executor task sockets)
    ∙ ap (λ l. l ++ (if thread == i then sent_to j tasks else []))
        (passed-send_task_to_executor thread executor i j task sockets)
    ∙ append_assoc (passed sockets i j) _ _
    ∙ ap (λ l. passed sockets i j ++ l)
        (elim (Bool-cases (thread == i)) [ inl e ↦ rw e | inr e ↦ rw e ])

abbrev after_receive : ℕ → ℕ → Task → List Task → Sockets → Sockets
after_receive thread executor task left sockets = record {
  waiting = set_at thread (set_at executor left (sockets.waiting thread)) sockets.waiting;
  taken = set_at executor (sockets.taken executor ++ (thread, task) ∷ []) sockets.taken;
}

passed-after_receive :
    (thread executor i j : ℕ) (task : Task) (left : List Task) (sockets : Sockets)
    → sockets.waiting thread executor ≡ task ∷ left
    → passed (after_receive thread executor task left sockets) i j ≡ passed sockets i j
passed-after_receive thread executor i j task left sockets w = elim (Bool-cases (executor == j)) [
  | inl f ↦
      let same_executor : executor ≡ j = ground arith in
      let itself : (j == j) ≡ true = ground arith in
      elim (Bool-cases (thread == i)) [
        | inl e ↦
            let same_thread : thread ≡ i = ground arith in
            let w' : sockets.waiting i j ≡ task ∷ left = rw (same_thread, same_executor) at w in
            rw
              (
                f,
                same_executor,
                taken_from-append i (sockets.taken j) ((thread, task) ∷ []),
                e,
                same_thread,
                w',
                append-nil task,
                itself,
              )
              (append_assoc (taken_from i (sockets.taken j)) task (concat left))
        | inr e ↦ rw (
          f,
          same_executor,
          taken_from-append i (sockets.taken j) ((thread, task) ∷ []),
          e,
          append-nil (taken_from i (sockets.taken j)),
        )
      ]
  | inr f ↦ elim (Bool-cases (thread == i)) [
    | inl e ↦ let same_thread : thread ≡ i = ground arith in rw (f, e, f, same_thread)
    | inr e ↦ rw (f, e)
  ]
]

List-cases :
    (tasks : List Task)
    → (tasks ≡ []) ⊎ ((task : Task) × (left : List Task) × (tasks ≡ task ∷ left))
List-cases [] = inl refl
List-cases (task ∷ left) = inr (task, left, refl)

passed-receive_task :
    (thread executor i j : ℕ) (sockets : Sockets)
    → passed (receive_task thread executor sockets) i j ≡ passed sockets i j
unfolding receive_task
passed-receive_task thread executor i j sockets =
    elim (List-cases (sockets.waiting thread executor)) [
      | inl e ↦ rw (receive_task, e)
      | inr (task, left, e) ↦
          rw (receive_task, e) (passed-after_receive thread executor i j task left sockets e)
    ]

sent :
    (thread : ℕ) (before after : Sockets) (dealt : Outcome ExecutorTaskMap)
    → (dealt >>= λ tasks. ok (send_tasks thread tasks before)) ≡ ok after
    → (tasks : ExecutorTaskMap) × (dealt ≡ ok tasks) × (after ≡ send_tasks thread tasks before)
sent thread before after (ok tasks) e = (tasks, refl, cc)
sent thread before after (throw t) e = cc
sent thread before after undefined e = cc

process_messages-eq_ok :
    (codec : Codec) (rand : ℕ → ℕ) (n : ℕ) (messages : List Text) (thread : ℕ)
    (before after : Sockets)
    → process_messages codec rand n messages thread before ≡ ok after
    → (tasks : ExecutorTaskMap) × (process_for_executor rand
          (get_or [] (decode_with_identifiers codec messages))
          n
        ≡ ok tasks)
      × (after ≡ send_tasks thread tasks before)
unfolding process_messages
process_messages-eq_ok codec rand n messages thread before after e =
    elim (Option-cases (decode_with_identifiers codec messages)) [
      | inl missing ↦ absurd (ground arith)
      | inr (tuples, decoded) ↦ rw decoded (
          sent thread before after (process_for_executor rand tuples n)
            (rw (process_messages, decoded) at e))
    ]

dealt_to-set_at :
    (codec : Codec) (n t thread executor : ℕ) (rand : ℕ → ℕ) (messages : List Text)
    (history : History)
    → dealt_to codec n executor (set_at t (history t ++ (rand, messages) ∷ []) history thread)
      ≡ dealt_to codec n executor (history thread)
        ++ (if t == thread
            then assigned rand 0 (get_or [] (decode_with_identifiers codec messages)) n executor
            else [])
dealt_to-set_at codec n t thread executor rand messages history = elim (Bool-cases (t == thread)) [
  | inl e ↦
      let same : t ≡ thread = ground arith in
      rw (e, same, dealt_to-append codec n executor (history thread) ((rand, messages) ∷ []))
        (ap (λ l. dealt_to codec n executor (history thread) ++ l)
          (append-nil
            (assigned rand 0 (get_or [] (decode_with_identifiers codec messages)) n executor)))
  | inr e ↦ rw e (sym (append-nil (dealt_to codec n executor (history thread))))
]

-- However transport threads and executors interleave: what an executor has taken from a thread and
-- what waits for it there are together the requests that the thread decoded and drew that executor
-- for, each once and in the order in which they arrived. It needs at least one executor.
pub taken_from-dealt_to :
    (codec : Codec) (n : ℕ) (history : History) (sockets : Sockets)
    → 0 < n
    → Reachable codec n history sockets
    → (thread executor : ℕ)
    → taken_from thread (sockets.taken executor) ++ concat (sockets.waiting thread executor)
      ≡ dealt_to codec n executor (history thread)
taken_from-dealt_to codec n history sockets h nothing thread executor = refl
taken_from-dealt_to codec n history sockets h (received t k r) thread executor =
    passed-receive_task t k thread executor _ ∙ taken_from-dealt_to codec n _ _ h r thread executor
taken_from-dealt_to codec n history sockets h
      (processed {history = earlier} {before = before} t rand messages r e) thread executor =
    let (tasks, dealt, after) = process_messages-eq_ok codec rand n messages t before sockets e in
    let decoded = get_or [] (decode_with_identifiers codec messages) in
    ap (λ s. passed s thread executor) after
    ∙ passed-send_tasks t thread executor tasks before
    ∙ ap (λ l. l ++ (if t == thread then sent_to executor tasks else []))
        (taken_from-dealt_to codec n earlier before h r thread executor)
    ∙ ap (λ l. dealt_to codec n executor (earlier thread) ++ (if t == thread then l else []))
        (sent_to-assigned rand n decoded tasks h dealt executor)
    ∙ sym (dealt_to-set_at codec n t thread executor rand messages earlier)
