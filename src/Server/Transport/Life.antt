-- ===== src/Server/Transport/Life.antt =====
-- volodbserver/Transport/ServerTransport.cpp: the start and the end of the server's transport. The
-- pointers are whether they point to something, and a worker thread is whether it can be joined. start
-- returns before the main thread has made the sockets and the workers, which is a step of its own;
-- the bind of the port may fail in it, the other calls of ZeroMQ are taken to succeed.
use volo_db.Prelude.{
  ℕ, ◌≡◌, Bool, true, false, List, [], ◌++◌, replicate, codes, ◌&&◌, if◌then◌else◌,
}
use volo_db.Prelude.Outcome.{Outcome, ok, throw, undefined}

pub record ServerTransport : Type 0 where
  pub total_worker_threads : ℕ
  pub has_context : Bool
  pub is_started : Bool
  pub stop_flag : Bool
  pub has_frontend : Bool
  pub has_backend : Bool
  pub has_main_thread : Bool
  pub is_set_up : Bool
  pub worker_threads : List Bool

-- The constructor, which makes the context.
unfoldable pub new_transport : ℕ → ServerTransport
new_transport total_worker_threads = record {
  total_worker_threads = total_worker_threads;
  has_context = true;
  is_started = false;
  stop_flag = false;
  has_frontend = false;
  has_backend = false;
  has_main_thread = false;
  is_set_up = false;
  worker_threads = [];
}

-- start only starts the main thread.
unfoldable pub start : ServerTransport → Outcome ServerTransport
start transport =
    if transport.is_started
    then ok transport
    else ok (record transport { has_main_thread = true; is_started = true })

-- What the main thread does before it waits in the proxy: it follows the pointer to the context, and
-- an exception of the bind leaves the thread, which ends the program.
unfoldable pub set_up : Bool → ServerTransport → Outcome ServerTransport
set_up binds transport =
    if transport.has_context
    then if binds
      then ok (record transport {
        has_frontend = true;
        has_backend = true;
        is_set_up = true;
        worker_threads = transport.worker_threads ++ replicate transport.total_worker_threads true;
      })
      else throw (codes "Address already in use")
    else undefined

-- The workers are joined and forgotten, and the join of the main thread follows its pointer. While
-- the main thread has not set the transport up, both threads use its members without a lock, and the
-- main thread may follow the context's pointer after it is reset: undefined.
unfoldable pub clean_up : ServerTransport → Outcome ServerTransport
clean_up transport =
    if transport.has_main_thread && transport.is_set_up
    then ok (record transport {
      worker_threads = [];
      stop_flag = false;
      has_backend = false;
      has_frontend = false;
      has_context = false;
      has_main_thread = false;
      is_set_up = false;
    })
    else undefined

unfoldable pub close : ServerTransport → Outcome ServerTransport
unfolding clean_up
close transport = elim (clean_up transport) [
  | ok cleaned ↦ ok (record cleaned { is_started = false })
  | throw e ↦ throw e
  | undefined ↦ undefined
]

-- The destructor: what is left of the object is of no use.
unfoldable pub destroy : ServerTransport → Outcome (Unit {0})
unfolding close
destroy transport = elim (close transport) [
  | ok closed ↦ ok tt
  | throw e ↦ throw e
  | undefined ↦ undefined
]

-- Every transport that the calls of a program and its main thread can bring about.
pub data Used (n : ℕ) : ServerTransport → Type 0 where
  made : Used n (new_transport n)
  started :
      {before after : ServerTransport} → Used n before → start before ≡ ok after → Used n after
  was_set_up :
      {before after : ServerTransport}
      → Used n before
      → before.has_main_thread ≡ true
      → before.is_set_up ≡ false
      → set_up true before ≡ ok after
      → Used n after
  closed : {before after : ServerTransport} → Used n before → close before ≡ ok after → Used n after

abbrev pub starting : ℕ → Bool → ServerTransport
starting n has_context = record (new_transport n) {
  has_context = has_context;
  has_main_thread = true;
  is_started = true;
}

abbrev pub at_work : ℕ → ServerTransport
at_work n = record (starting n true) {
  has_frontend = true;
  has_backend = true;
  is_set_up = true;
  worker_threads = replicate n true;
}

abbrev pub over : ℕ → ServerTransport
over n = record (new_transport n) { has_context = false }

-- What the calls do with a transport.
pub record Behaves (t : ServerTransport) (starts closes : Outcome ServerTransport)
    (ends : Outcome (Unit {0})) : Type 0 where
  pub start_is : start t ≡ starts
  pub close_is : close t ≡ closes
  pub destroy_is : destroy t ≡ ends

-- The phases, with what each call does in them, and the main thread where it has still to set up.
pub data Phase (n : ℕ) : ServerTransport → Type 0 where
  new :
      Behaves (new_transport n) (ok (starting n true)) undefined undefined
      → Phase n (new_transport n)
  begun :
      Behaves (starting n true) (ok (starting n true)) undefined undefined
      → set_up true (starting n true) ≡ ok (at_work n)
      → Phase n (starting n true)
  working : Behaves (at_work n) (ok (at_work n)) (ok (over n)) (ok tt) → Phase n (at_work n)
  ended : Behaves (over n) (ok (starting n false)) undefined undefined → Phase n (over n)
  doomed :
      Behaves (starting n false) (ok (starting n false)) undefined undefined
      → ((binds : Bool) → set_up binds (starting n false) ≡ undefined)
      → Phase n (starting n false)
