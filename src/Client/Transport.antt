-- ===== src/Client/Transport.antt =====
-- volodb-client/Transport/ClientTransport.cpp: the object that a client sends and receives with. The
-- ZeroMQ calls that make, bind and connect a socket are taken to succeed; one that is queued on is
-- its queues of messages, the oldest first.
pub mod Phases
pub mod Receiving
pub mod Calls
pub mod Worker
pub mod Delivery
pub mod Requests
use volo_db.Prelude.{
  ℕ, zero, suc, ◌≡◌, refl, Text, Bool, true, false, Option, none, some, List, [], ◌∷◌, ◌++◌, codes,
  length, replicate, map, ltb, ◌==◌, text_eq, if◌then◌else◌,
}
use volo_db.Prelude.Outcome.{Outcome, ok, throw, undefined, ◌>>=◌}

-- A socket to the server: what has come from it, and what has been sent on it.
pub record Socket : Type 0 where
  pub inbox : List Text
  pub outbox : List Text

-- A null pointer to a socket is `none`. The push socket is the queue of the messages that no worker
-- has got yet, and a worker thread is whether it can be joined.
pub record Transport : Type 0 where
  pub has_delegate : Bool
  pub total_worker_threads : ℕ
  pub has_context : Bool
  pub client_socket : Option Socket
  pub send_push_socket : Option (List Text)
  pub worker_threads : List Bool
  pub stop_flag : Bool
  pub is_connected : Bool

-- The constructor.
unfoldable pub new_transport : Bool → ℕ → Transport
new_transport has_delegate total_worker_threads = record {
  has_delegate = has_delegate;
  total_worker_threads = total_worker_threads;
  has_context = false;
  client_socket = none;
  send_push_socket = none;
  worker_threads = [];
  stop_flag = false;
  is_connected = false;
}

abbrev pub no_messages : Socket
no_messages = record { inbox = []; outbox = [] }

-- The two ways to connect.
unfoldable pub open_sockets : Transport → Transport
open_sockets transport =
    if transport.total_worker_threads == 0
    then record transport { client_socket = some no_messages }
    else record transport {
      send_push_socket = some [];
      worker_threads = transport.worker_threads ++ replicate transport.total_worker_threads true;
    }

-- `has_context` is whether the argument is not null. What the call comes to is beside the state that
-- it leaves, since a call that throws has stored the null pointer.
unfoldable pub connect : Bool → Transport → Transport × Outcome (Unit {0})
unfolding open_sockets
connect has_context transport =
    if transport.is_connected
    then (transport, ok tt)
    else if has_context
    then (
      record (open_sockets (record transport { has_context = true })) { is_connected = true },
      ok tt,
    )
    else (record transport { has_context = false }, throw (codes "Context can not be null"))

-- A send on a socket that may be null. The queues are unlimited, so that no message is refused.
unfoldable pub send_on_client_socket :
    Text → Transport → Option Socket → Transport × Outcome (Unit {0})
send_on_client_socket message transport none = (transport, undefined)
send_on_client_socket message transport (some socket) = (
  record transport {
    client_socket = some (record socket { outbox = socket.outbox ++ message ∷ [] });
  },
  ok tt,
)

unfoldable pub send_on_push_socket :
    Text → Transport → Option (List Text) → Transport × Outcome (Unit {0})
send_on_push_socket message transport none = (transport, undefined)
send_on_push_socket message transport (some queue) =
    (record transport { send_push_socket = some (queue ++ message ∷ []) }, ok tt)

unfoldable pub send : Text → Transport → Transport × Outcome (Unit {0})
unfolding send_on_client_socket send_on_push_socket
send message transport =
    if transport.is_connected
    then if transport.total_worker_threads == 0
      then send_on_client_socket message transport transport.client_socket
      else send_on_push_socket message transport transport.send_push_socket
    else (transport, throw (codes "Not connected to the server"))

-- The loop of joins; a thread is joined once, and the vector is cleared.
unfoldable pub clean_up : Transport → Transport
clean_up transport =
    if ltb 0 transport.total_worker_threads
    then record transport { worker_threads = []; stop_flag = false; send_push_socket = none }
    else record transport { client_socket = none; send_push_socket = none }

-- The destructor calls it too.
unfoldable pub close : Transport → Transport
unfolding clean_up
close transport = record (clean_up transport) { is_connected = false }
