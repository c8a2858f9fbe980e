-- ===== src/Client/Transport/Worker.antt =====
-- volodb-client/Transport/ClientTransport.cpp: a worker thread, which passes what is sent to its
-- sink on to the server and what comes from there to the delegate.
pub mod Rounds
use volo_db.Prelude.{
  ◌≡◌, refl, Text, Bool, true, false, not, ◌&&◌, Option, none, some, List, [], ◌∷◌, ◌++◌,
  append_assoc, append-nil, arith, length, ltb, if◌then◌else◌,
}
use volo_db.Client.Transport.{Socket}

-- What ZeroMQ answers at the end of a queue: whether errno is EAGAIN when the receive fails, which
-- throws if it is not, and whether it still is when receiveQueuedMessages asks for it, after its
-- calls of the delegate or of other sockets.
pub record Errno : Type 0 where
  pub at_end : Bool
  pub when_asked : Bool

-- What a call of receiveQueuedMessages does and returns: the messages that it forwards, the calls of
-- the delegate, and whether the socket is valid.
pub record Passed : Type 0 where
  pub forwarded : List Text
  pub delivered : List (List Text)
  pub is_valid : Bool

-- The receives of the loop, with what has been received so far; `none` is an exception.
receive_until_end : Bool → List Text → List Text → Option (List Text)
receive_until_end at_end received [] = if at_end then some received else none
receive_until_end at_end received (message ∷ queue) =
    receive_until_end at_end (received ++ message ∷ []) queue

-- What is done with them once a receive has failed.
pass_on : Bool → Bool → Bool → List Text → Passed
pass_on has_delegate has_forward is_valid received = record {
  forwarded = if ltb 0 (length received) && has_forward then received else [];
  delivered =
      if ltb 0 (length received) && (not has_forward && has_delegate) then received ∷ [] else [];
  is_valid = is_valid;
}

unfoldable pub receive_queued_messages : Bool → Bool → Errno → List Text → Option Passed
unfolding receive_until_end pass_on
receive_queued_messages has_delegate has_forward errno queue =
    elim (receive_until_end errno.at_end [] queue) [
      | none ↦ none
      | some received ↦ some (pass_on has_delegate has_forward errno.when_asked received)
    ]

-- The worker's two sockets, and what it has called the delegate with.
pub record Worker : Type 0 where
  pub client_socket : Socket
  pub sink_socket : List Text
  pub delivered : List (List Text)
  pub is_running : Bool

-- The first call of a round; the validity that it returns is overwritten by the second. After an
-- exception the worker has ended, and what it had received is gone.
unfoldable pub receive_answers : Bool → Errno → Worker → Worker
unfolding receive_queued_messages
receive_answers has_delegate errno worker =
    let socket = worker.client_socket in
    elim (receive_queued_messages has_delegate false errno socket.inbox) [
      | none ↦ record worker { client_socket = record socket { inbox = [] }; is_running = false }
      | some passed ↦ record worker {
        client_socket = record socket { inbox = [] };
        delivered = worker.delivered ++ passed.delivered;
      }
    ]

unfoldable pub forward_requests : Bool → Errno → Worker → Worker
unfolding receive_queued_messages
forward_requests has_delegate errno worker =
    let socket = worker.client_socket in
    elim (receive_queued_messages has_delegate true errno worker.sink_socket) [
      | none ↦ record worker { sink_socket = []; is_running = false }
      | some passed ↦ record worker {
        client_socket = record socket { outbox = socket.outbox ++ passed.forwarded };
        sink_socket = [];
        is_running = passed.is_valid;
      }
    ]

-- A pass of the loop of worker_thread_func.
unfoldable pub worker_thread_round : Bool → Bool → Errno → Errno → Worker → Worker
unfolding receive_answers forward_requests
worker_thread_round stop_flag has_delegate client_errno sink_errno worker =
    if worker.is_running && not stop_flag
    then (let after = receive_answers has_delegate client_errno worker in
        if after.is_running then forward_requests has_delegate sink_errno after else after)
    else record worker { is_running = false }
