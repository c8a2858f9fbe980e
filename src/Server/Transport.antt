-- ===== src/Server/Transport.antt =====
-- volodbserver/Transport/ServerTransport.cpp: one round of a worker thread, which passes requests to
-- its delegate and answers to the clients. Both sockets are queues of message parts.
pub mod Life
use volo_db.Prelude.{
  ◌≡◌, refl, Text, Bool, true, List, [], ◌∷◌, ◌++◌, map, length, ltb, if◌then◌else◌,
}
use volo_db.Prelude.Outcome.{Outcome, ok, undefined, ◌>>=◌}
use volo_db.Server.Store.Receive.{receive_queued_messages, receive_queued_messages_all}

-- The sockets of a worker, what it has called its delegate with, and the messages that it has sent,
-- each as its parts.
pub record Worker : Type 0 where
  pub has_delegate : Bool
  pub worker_socket : List Text
  pub sink_socket : List Text
  pub delivered : List (List Text)
  pub sent : List (List Text)

-- The loop over the answers: two parts at a time; `undefined` is a read past the end.
unfoldable pub relay : List Text → Outcome (List (List Text))
relay [] = ok []
relay (identifier ∷ []) = undefined
relay (identifier ∷ bytes ∷ messages) = do
  rest ← relay messages
  ok ((identifier ∷ bytes ∷ []) ∷ rest)

-- The first half of the round: all that has come in goes to the delegate, if anything has.
unfoldable pub receive_requests : Bool → Worker → Outcome Worker
unfolding receive_queued_messages
receive_requests again worker =
    if worker.has_delegate
    then (do
      received ← receive_queued_messages again 0 worker.worker_socket
      ok (record worker {
        worker_socket = received.1;
        delivered = worker.delivered ++ (if ltb 0 (length received.0) then received.0 ∷ [] else []);
      }))
    else ok worker

-- The second half: the answers of the executors go out.
unfoldable pub send_answers : Bool → Worker → Outcome Worker
unfolding receive_queued_messages relay
send_answers again worker = do
  received ← receive_queued_messages again 0 worker.sink_socket
  messages ← relay received.0
  ok (record worker { sink_socket = received.1; sent = worker.sent ++ messages })

unfoldable pub worker_round : Bool → Worker → Outcome Worker
unfolding receive_requests send_answers
worker_round again worker = do after ← receive_requests again worker; send_answers again after

-- The parts of answers, each behind its envelope, as replyWithResult sends them.
abbrev pub parts : List (Text × Text) → List Text
parts [] = []
parts ((envelope, bytes) ∷ answers) = envelope ∷ bytes ∷ parts answers

pub relay-parts :
    (answers : List (Text × Text)) → relay (parts answers) ≡ ok (map (λ a. a.0 ∷ a.1 ∷ []) answers)
unfolding relay
relay-parts [] = refl
relay-parts ((envelope, bytes) ∷ answers) = rw (relay-parts answers)

-- In a round with no error on its sockets, a worker with a delegate passes all that has come in to
-- it, in one call and in order, unless nothing has come in, and sends every answer that the
-- executors have left for it as one message of an envelope and bytes, in order.
pub worker_round_lem :
    (worker : Worker) (answers : List (Text × Text))
    → worker.has_delegate ≡ true
    → worker.sink_socket ≡ parts answers
    → worker_round true worker
      ≡ ok (record worker {
        worker_socket = [];
        sink_socket = [];
        delivered =
            worker.delivered
            ++ (if ltb 0 (length worker.worker_socket) then worker.worker_socket ∷ [] else []);
        sent = worker.sent ++ map (λ a. a.0 ∷ a.1 ∷ []) answers;
      })
unfolding worker_round receive_requests send_answers
worker_round_lem worker answers d s = rw (
  d,
  receive_queued_messages_all worker.worker_socket,
  s,
  receive_queued_messages_all (parts answers),
  relay-parts answers,
)
