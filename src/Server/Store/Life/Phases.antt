-- ===== src/Server/Store/Life/Phases.antt =====
-- volodbserver/Store/Store.cpp: the phases of a store's life.
use volo_db.Prelude.{
  ℕ, zero, suc, ◌*◌, ◌≡◌, refl, Bool, true, false, arith, replicate, ◌⊎◌, inl, inr,
}
use volo_db.Prelude.Outcome.{ok, undefined}
use volo_db.Server.Store.Life.{
  Store, new_store, run, stop, stop_worker_threads, Lived, made, ran, stopped,
}

-- The store listens, and its executors and the sockets to them are there, each once.
pub record IsLive (d n : ℕ) (s : Store) : Type 0 where
  pub running : s.is_running ≡ true
  pub transport : s.has_transport ≡ true
  pub listening : s.is_listening ≡ true
  pub sockets : s.task_sender_sockets ≡ d * n
  pub threads : s.executor_threads ≡ replicate n true
  pub initialised : s.current_executor_init_count ≡ n

-- The store has ended all of its threads and has no transport any more.
pub record IsOver (n : ℕ) (s : Store) : Type 0 where
  pub running : s.is_running ≡ false
  pub transport : s.has_transport ≡ false
  pub listening : s.is_listening ≡ false
  pub sockets : s.task_sender_sockets ≡ 0
  pub threads : s.executor_threads ≡ replicate n false

abbrev pub Phase : ℕ → ℕ → Store → Type 0
Phase d n s = (s ≡ new_store d n) ⊎ (IsLive d n s ⊎ IsOver n s)

stop_worker_threads-replicate :
    (n : ℕ) (b : Bool) → stop_worker_threads (replicate n b) ≡ replicate n false
unfolding stop_worker_threads
stop_worker_threads-replicate zero b = refl
stop_worker_threads-replicate (suc n) b = rw (stop_worker_threads-replicate n b)

new_store-IsLive : (d n : ℕ) (s' : Store) → run (new_store d n) ≡ ok s' → IsLive d n s'
unfolding run new_store
new_store-IsLive d n s' e = record {
  running = ground arith;
  transport = ground arith;
  listening = ground arith;
  sockets = ground arith;
  threads = ground arith;
  initialised = ground arith;
}

run-IsOver : (n : ℕ) (s : Store) → IsOver n s → run s ≡ undefined
unfolding run
run-IsOver n s over = let r = over.running in let t = over.transport in ground arith

run-IsLive : (d n : ℕ) (s : Store) → IsLive d n s → run s ≡ ok s
unfolding run
run-IsLive d n s live = let r = live.running in ground arith

stop-IsLive : (d n : ℕ) (s : Store) → IsLive d n s → IsOver n (stop s)
unfolding stop
stop-IsLive d n s live = rw live.running (record {
  running = refl;
  transport = refl;
  listening = refl;
  sockets = refl;
  threads = rw live.threads (stop_worker_threads-replicate n true);
})

run-Phase : (d n : ℕ) (s s' : Store) → Phase d n s → run s ≡ ok s' → Phase d n s'
run-Phase d n s s' (inl new) e = inr (inl (new_store-IsLive d n s' (rw new at e)))
run-Phase d n s s' (inr (inl live)) e =
    let same : s ≡ s' = ground (arith, run-IsLive d n s live) in inr (inl (rw same at live))
run-Phase d n s s' (inr (inr over)) e = absurd (ground (arith, run-IsOver n s over))

stop_off : (s : Store) → s.is_running ≡ false → stop s ≡ s
unfolding stop
stop_off s h = rw h

stop-Phase : (d n : ℕ) (s : Store) → Phase d n s → Phase d n (stop s)
unfolding new_store
stop-Phase d n s (inl new) = inl (rw (stop_off s (rw new)) new)
stop-Phase d n s (inr (inl live)) = inr (inr (stop-IsLive d n s live))
stop-Phase d n s (inr (inr over)) = inr (inr (rw (stop_off s over.running) over))

-- However a store is run and stopped, it is new, or it is running with one thread for each executor
-- and a socket to it for each transport thread, or it is over, with no thread left to join.
pub Lived-Phase : (d n : ℕ) (s : Store) → Lived d n s → Phase d n s
Lived-Phase d n s made = inl refl
Lived-Phase d n s (ran l e) = run-Phase d n _ s (Lived-Phase d n _ l) e
Lived-Phase d n s (stopped l) = stop-Phase d n _ (Lived-Phase d n _ l)

-- To run a store that is running changes nothing. Once it is stopped it is over: to stop it again
-- changes nothing, and to run it again follows the null pointer that is left for its transport.
pub run-stop :
    (d n : ℕ) (s : Store)
    → IsLive d n s
    → (run s ≡ ok s) × IsOver n (stop s) × (stop (stop s) ≡ stop s) × (run (stop s) ≡ undefined)
run-stop d n s live =
    let over = stop-IsLive d n s live in
    (run-IsLive d n s live, over, stop_off (stop s) over.running, run-IsOver n (stop s) over)
