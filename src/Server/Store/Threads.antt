-- ===== src/Server/Store/Threads.antt =====
-- volodbserver/Store/Store.cpp: the way of the requests from the transport's threads to the executor
-- threads. Each pair of them has a socket of its own, whose queue keeps the order; an executor takes
-- from the queues of its sockets in any order.
pub mod Delivery
use volo_db.Prelude.{
  ℕ, Text, Option, none, some, List, [], ◌∷◌, ◌++◌, Bool, ◌&&◌, ◌==◌, ◌≡◌, if◌then◌else◌, set_at,
}
use volo_db.Prelude.Outcome.{Outcome, ok, undefined, ◌>>=◌}
use volo_db.Proto.Wire.{Codec}
use volo_db.Frame.Decoder.{FrameMessagesTuple, decode_with_identifiers}
use volo_db.Server.Processor.{ExecutorTaskMap, process_for_executor}

-- A message of a task socket: the pointer to the list that it passes.
abbrev pub Task : Type 0
Task = List FrameMessagesTuple

-- What waits between a transport thread and an executor, and what each executor has taken, in order,
-- each with the thread that it came from: the arguments of NDBMessageExecutor::execute, one after
-- another.
pub record Sockets : Type 0 where
  pub waiting : ℕ → ℕ → List Task
  pub taken : ℕ → List (ℕ × Task)

-- sendTaskToExecutor, at taskSenderSockets[threadNo][executorThreadNo].
unfoldable pub send_task_to_executor : ℕ → ℕ → Task → Sockets → Sockets
send_task_to_executor thread_no executor_no task sockets = record sockets {
  waiting =
      set_at thread_no
        (set_at executor_no (sockets.waiting thread_no executor_no ++ task ∷ [])
          (sockets.waiting thread_no))
        sockets.waiting;
}

-- The loop of _processMessages over the map; the order of its keys is that of the list.
unfoldable pub send_tasks : ℕ → ExecutorTaskMap → Sockets → Sockets
unfolding send_task_to_executor
send_tasks thread_no [] sockets = sockets
send_tasks thread_no ((executor_no, task) ∷ tasks) sockets =
    send_tasks thread_no tasks (send_task_to_executor thread_no executor_no task sockets)

-- _processMessages, by which a transport thread deals out what it has received.
unfoldable pub process_messages : Codec → (ℕ → ℕ) → ℕ → List Text → ℕ → Sockets → Outcome Sockets
unfolding send_tasks decode_with_identifiers process_for_executor
process_messages codec rand no_executor_threads messages thread_no sockets =
    elim (decode_with_identifiers codec messages) [
      | none ↦ undefined
      | some messages_list ↦ do
        tasks ← process_for_executor rand messages_list no_executor_threads
        ok (send_tasks thread_no tasks sockets)
    ]

-- What _executorWorkerThreadFunc does with a message that it receives: the queue of one socket gives
-- its first message, which goes to _executeMessages after those before it.
unfoldable pub receive_task : ℕ → ℕ → Sockets → Sockets
receive_task thread_no executor_no sockets = elim (sockets.waiting thread_no executor_no) [
  | [] ↦ sockets
  | task ∷ left ↦ record {
    waiting =
        set_at thread_no (set_at executor_no left (sockets.waiting thread_no)) sockets.waiting;
    taken = set_at executor_no (sockets.taken executor_no ++ (thread_no, task) ∷ []) sockets.taken;
  }
]

abbrev pub no_messages : Sockets
no_messages = record { waiting = λ thread executor. []; taken = λ executor. [] }

-- Every way in which the threads can interleave. The index has the batches of messages that each
-- thread has processed, with their random numbers, the oldest first.
abbrev pub History : Type 0
History = ℕ → List ((ℕ → ℕ) × List Text)

pub data Reachable (codec : Codec) (no_executor_threads : ℕ) : History → Sockets → Type 0 where
  nothing : Reachable codec no_executor_threads (λ thread. []) no_messages
  processed :
      {history : History} {before after : Sockets} (thread_no : ℕ) (rand : ℕ → ℕ)
      (messages : List Text)
      → Reachable codec no_executor_threads history before
      → process_messages codec rand no_executor_threads messages thread_no before ≡ ok after
      → Reachable codec no_executor_threads
          (set_at thread_no (history thread_no ++ (rand, messages) ∷ []) history)
          after
  received :
      {history : History} {sockets : Sockets} (thread_no executor_no : ℕ)
      → Reachable codec no_executor_threads history sockets
      → Reachable codec no_executor_threads history (receive_task thread_no executor_no sockets)
