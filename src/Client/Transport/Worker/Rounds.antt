-- ===== src/Client/Transport/Worker/Rounds.antt =====
-- volodb-client/Transport/ClientTransport.cpp: what a worker thread does in a pass of its loop.
use volo_db.Prelude.{
  ◌≡◌, refl, Text, Bool, true, false, none, some, List, [], ◌∷◌, ◌++◌, append_assoc, append-nil,
  arith, length, ltb, if◌then◌else◌,
}
use volo_db.Client.Transport.Worker.{
  Errno, receive_until_end, pass_on, receive_queued_messages, Worker, receive_answers,
  forward_requests, worker_thread_round,
}

receive_until_end_lem :
    (received queue : List Text) → receive_until_end true received queue ≡ some (received ++ queue)
unfolding receive_until_end
receive_until_end_lem received [] = rw (append-nil received)
receive_until_end_lem received (message ∷ queue) =
    rw append_assoc at (receive_until_end_lem (received ++ message ∷ []) queue)

receive_until_end-failed :
    (received queue : List Text) → receive_until_end false received queue ≡ none
unfolding receive_until_end
receive_until_end-failed received [] = refl
receive_until_end-failed received (message ∷ queue) =
    receive_until_end-failed (received ++ message ∷ []) queue

-- What a delegate is called with for a queue.
abbrev pub one_call : List Text → List (List Text)
one_call [] = []
one_call (message ∷ queue) = (message ∷ queue) ∷ []

answers_passed :
    (w : Bool) (queue : List Text)
    → receive_queued_messages true false (record { at_end = true; when_asked = w }) queue
      ≡ some (record { forwarded = []; delivered = one_call queue; is_valid = w })
unfolding receive_queued_messages pass_on receive_until_end
answers_passed w [] = refl
answers_passed w (m ∷ queue) =
    let some_left : ltb 0 (length (m ∷ queue)) ≡ true = ground arith in
    rw (receive_queued_messages, receive_until_end_lem [] (m ∷ queue), some_left)

requests_passed :
    (d w : Bool) (queue : List Text)
    → receive_queued_messages d true (record { at_end = true; when_asked = w }) queue
      ≡ some (record { forwarded = queue; delivered = []; is_valid = w })
unfolding receive_queued_messages pass_on receive_until_end
requests_passed d w [] = refl
requests_passed d w (m ∷ queue) =
    let some_left : ltb 0 (length (m ∷ queue)) ≡ true = ground arith in
    rw (receive_queued_messages, receive_until_end_lem [] (m ∷ queue), some_left)

-- What the first half of a round leaves.
after_answers : Worker → Worker
after_answers worker = record worker {
  client_socket = record worker.client_socket { inbox = [] };
  delivered = worker.delivered ++ one_call worker.client_socket.inbox;
}

-- A worker that runs, after each half of a round.
running : Worker → Worker
running worker = record worker { is_running = true }

receive_answers_lem :
    (w : Bool) (worker : Worker)
    → receive_answers true (record { at_end = true; when_asked = w }) (running worker)
      ≡ running (after_answers worker)
unfolding receive_answers running after_answers
receive_answers_lem w worker = rw (receive_answers, answers_passed w worker.client_socket.inbox)

receive_answers-failed :
    (w : Bool) (worker : Worker)
    → receive_answers true (record { at_end = false; when_asked = w }) (running worker)
      ≡ record worker {
        client_socket = record worker.client_socket { inbox = [] };
        is_running = false;
      }
unfolding receive_answers running receive_queued_messages
receive_answers-failed w worker = rw (
  receive_answers,
  receive_queued_messages,
  receive_until_end-failed [] worker.client_socket.inbox,
)

forward_requests_lem :
    (w : Bool) (worker : Worker)
    → forward_requests true (record { at_end = true; when_asked = w }) (running worker)
      ≡ record worker {
        client_socket = record worker.client_socket {
          outbox = worker.client_socket.outbox ++ worker.sink_socket;
        };
        sink_socket = [];
        is_running = w;
      }
unfolding forward_requests running
forward_requests_lem w worker = rw (forward_requests, requests_passed true w worker.sink_socket)

forward_requests-failed :
    (w : Bool) (worker : Worker)
    → forward_requests true (record { at_end = false; when_asked = w }) (running worker)
      ≡ record worker { sink_socket = []; is_running = false }
unfolding forward_requests running receive_queued_messages
forward_requests-failed w worker =
    rw (forward_requests, receive_queued_messages, receive_until_end-failed [] worker.sink_socket)

worker_thread_round-running :
    (client sink : Errno) (worker : Worker)
    → worker.is_running ≡ true
    → worker_thread_round false true client sink worker ≡ (
        if (receive_answers true client (running worker)).is_running
        then forward_requests true sink (receive_answers true client (running worker))
        else receive_answers true client (running worker))
unfolding worker_thread_round running
worker_thread_round-running client sink worker r = rw r refl

-- In a round in which no receive throws, a worker that runs passes all that has come in to the
-- delegate, in one call if anything has, and sends on all that its sink has, in order. It goes on
-- unless errno is something else than EAGAIN when it is asked for after the second half; what it is
-- after the first half makes no difference.
pub worker_thread_round_lem :
    (worker : Worker) (first second : Bool)
    → worker.is_running ≡ true
    → worker_thread_round false true
        (record { at_end = true; when_asked = first })
        (record { at_end = true; when_asked = second })
        worker
      ≡ record {
        client_socket = record {
          inbox = [];
          outbox = worker.client_socket.outbox ++ worker.sink_socket;
        };
        sink_socket = [];
        delivered = worker.delivered ++ one_call worker.client_socket.inbox;
        is_running = second;
      }
unfolding running after_answers
worker_thread_round_lem worker first second r =
    rw (worker_thread_round-running _ _ worker r, receive_answers_lem first worker)
      (forward_requests_lem second (after_answers worker))

-- A receive that throws ends the worker with what it had received before in the same call: the
-- delegate never sees those answers, or the server those requests. The second half is not run after
-- an exception in the first.
worker_thread_round-failed :
    (worker : Worker) (first second : Bool) (errno : Errno)
    → worker.is_running ≡ true
    → (worker_thread_round false true (record { at_end = false; when_asked = first }) errno worker
        ≡ record worker {
          client_socket = record worker.client_socket { inbox = [] };
          is_running = false;
        })
      × (worker_thread_round false true
            (record { at_end = true; when_asked = first })
            (record { at_end = false; when_asked = second })
            worker
          ≡ record worker {
            client_socket = record worker.client_socket { inbox = [] };
            sink_socket = [];
            delivered = worker.delivered ++ one_call worker.client_socket.inbox;
            is_running = false;
          })
unfolding running after_answers
worker_thread_round-failed worker first second errno r = (
  rw (worker_thread_round-running _ _ worker r, receive_answers-failed first worker) refl,
  rw (worker_thread_round-running _ _ worker r, receive_answers_lem first worker)
      (forward_requests-failed second (after_answers worker)),
)
