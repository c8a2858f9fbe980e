-- ===== src/Client/Transport/Receiving.antt =====
-- volodb-client/Transport/ClientTransport.cpp: the calls by which a client without worker threads
-- receives.
use volo_db.Prelude.{
  ℕ, zero, suc, ◌≡◌, refl, ap, ◌∙◌, append_assoc, append-nil, replicate, Text, Bool, true, false,
  Option, none, some, List, [], ◌∷◌, ◌++◌, codes, length, ◌==◌, if◌then◌else◌,
}
use volo_db.Prelude.Outcome.{Outcome, ok, throw, undefined, ◌>>=◌}
use volo_db.Client.Transport.{Socket, Transport}

-- What a receive gives: a message or a null pointer, and its error flag.
abbrev pub Received : Type 0
Received = Option Text × Bool

-- zmq_errno() against EAGAIN, where a call has not succeeded.
unfoldable pub error_of : Bool → Bool
error_of again = if again then false else true

-- The call recv(&message, flags) is the overload with a buffer, its length and no flags, since
-- &message is a pointer to a shared pointer: it waits for a message, writes as much of it over the
-- pointer as the length says, and returns its whole size. doBlock gives the length 0, and no doBlock
-- the length of ZMQ_NOBLOCK, which is 1, and a pointer that is not valid any more. The message that
-- is returned is the new one, which nothing was received into.
unfoldable pub receive_into : Bool → Bool → Text → Outcome Received
unfolding error_of
receive_into again do_block [] = ok (none, error_of again)
receive_into again do_block (byte ∷ bytes) = if do_block then ok (some [], false) else undefined

-- receive. `none` is a call that waits for a message that has not come; the rest of the queue is
-- beside the result.
receive_next : Bool → Bool → List Text → Outcome (Option (Received × List Text))
unfolding receive_into
receive_next again do_block [] = ok none
receive_next again do_block (message ∷ inbox) = do
  received ← receive_into again do_block message
  ok (some (received, inbox))

receive_on : Bool → Bool → Option Socket → Outcome (Option (Received × List Text))
unfolding receive_next
receive_on again do_block none = undefined
receive_on again do_block (some socket) = receive_next again do_block socket.inbox

unfoldable pub receive : Bool → Bool → Transport → Outcome (Option (Received × List Text))
unfolding receive_on
receive again do_block transport =
    if transport.total_worker_threads == 0
    then receive_on again do_block transport.client_socket
    else throw (codes "Receive is only allowed on non multi-threaded client")

-- The transport after a receive, with what its socket has left.
unfoldable pub with_inbox : List Text → Transport → Transport
with_inbox inbox transport = elim transport.client_socket [
  | none ↦ transport
  | some socket ↦ record transport { client_socket = some (record socket { inbox = inbox }) }
]

-- The loop of receiveAll, which adds to what it has received until a receive gives no message. The
-- fuel counts the receives.
unfoldable pub receive_all_from :
    ℕ → Bool → Bool → List Text → Transport → Outcome (Option (List Text × Bool × List Text))
unfolding receive with_inbox
receive_all_from zero again do_block all_messages transport = ok none
receive_all_from (suc fuel) again do_block all_messages transport = do
  next ← receive again do_block transport
  elim next [
    | none ↦ ok none
    | some ((none, error), inbox) ↦ ok (some (all_messages, error, inbox))
    | some ((some message, error), inbox) ↦
        receive_all_from fuel again do_block (all_messages ++ message ∷ [])
          (with_inbox inbox transport)
  ]

unfoldable pub inbox_of : Option Socket → List Text
inbox_of none = []
inbox_of (some socket) = socket.inbox

-- receiveAll. A receive that does not wait takes a message from the queue, so that one for each
-- message and one more are all that there can be.
unfoldable pub receive_all :
    Bool → Bool → Transport → Outcome (Option (List Text × Bool × List Text))
unfolding receive_all_from inbox_of
receive_all again do_block transport =
    receive_all_from (suc (length (inbox_of transport.client_socket))) again do_block [] transport

-- What a client without worker threads is, with these messages in its socket.
abbrev pub IsReceiver : List Text → Transport → Type 0
IsReceiver inbox transport =
    (transport.total_worker_threads ≡ 0)
    × (outbox : List Text) × (transport.client_socket
        ≡ some (record { inbox = inbox; outbox = outbox }))

with_inbox-IsReceiver :
    (inbox left : List Text) (transport : Transport)
    → IsReceiver inbox transport
    → IsReceiver left (with_inbox left transport)
unfolding with_inbox
with_inbox-IsReceiver inbox left transport (n, outbox, e) = rw e (n, outbox, refl)

receive-IsReceiver :
    (again do_block : Bool) (inbox : List Text) (transport : Transport)
    → IsReceiver inbox transport
    → receive again do_block transport ≡ receive_next again do_block inbox
unfolding receive
receive-IsReceiver again do_block inbox transport (n, outbox, e) = rw (n, e)

-- How many messages are in front of the first empty one, and what is behind it.
abbrev pub first_empty : List Text → Option (ℕ × List Text)
first_empty [] = none
first_empty ([] ∷ rest) = some (0, rest)
first_empty ((byte ∷ bytes) ∷ rest) = elim (first_empty rest) [
  | none ↦ none
  | some (n, left) ↦ some (suc n, left)
]

-- The answer that has an empty message for each that was received.
abbrev pub empty_messages :
    Bool → List Text → Option (ℕ × List Text) → Option (List Text × Bool × List Text)
empty_messages error received none = none
empty_messages error received (some (n, left)) = some (received ++ replicate n [], error, left)

-- What a client that does not wait gets to see of its queue.
abbrev pub unless_overwritten : Bool → List Text → Outcome (Option (List Text × Bool × List Text))
unless_overwritten error [] = ok none
unless_overwritten error ([] ∷ left) = ok (some ([], error, left))
unless_overwritten error ((byte ∷ bytes) ∷ left) = undefined

empty_messages-snoc :
    (error : Bool) (received : List Text) (found : Option (ℕ × List Text))
    → empty_messages error (received ++ [] ∷ []) found
      ≡ empty_messages error received
          (elim found [ none ↦ none | some (n, left) ↦ some (suc n, left) ])
empty_messages-snoc error received none = refl
empty_messages-snoc error received (some (n, left)) = rw append_assoc refl

receive_all_from-waits :
    (again : Bool) (received inbox : List Text) (transport : Transport)
    → IsReceiver inbox transport
    → receive_all_from (suc (length inbox)) again true received transport
      ≡ ok (empty_messages (error_of again) received (first_empty inbox))
unfolding receive_all_from
receive_all_from-waits again received [] transport r =
    rw (receive-IsReceiver again true [] transport r, receive_next)
receive_all_from-waits again received ([] ∷ inbox) transport r =
    rw
      (receive-IsReceiver again true _ transport r, receive_next, receive_into, append-nil received)
receive_all_from-waits again received ((b ∷ bs) ∷ inbox) transport r =
    rw (receive-IsReceiver again true _ transport r, receive_next, receive_into)
      (receive_all_from-waits again (received ++ [] ∷ []) inbox (with_inbox inbox transport)
          (with_inbox-IsReceiver _ inbox transport r)
        ∙ ap ok (empty_messages-snoc (error_of again) received (first_empty inbox)))

receive_all_from-overwrites :
    (fuel : ℕ) (again : Bool) (inbox : List Text) (transport : Transport)
    → IsReceiver inbox transport
    → receive_all_from (suc fuel) again false [] transport
      ≡ unless_overwritten (error_of again) inbox
unfolding receive_all_from
receive_all_from-overwrites fuel again [] transport r =
    rw (receive-IsReceiver again false [] transport r, receive_next)
receive_all_from-overwrites fuel again ([] ∷ inbox) transport r =
    rw (receive-IsReceiver again false _ transport r, receive_next, receive_into)
receive_all_from-overwrites fuel again ((b ∷ bs) ∷ inbox) transport r =
    rw (receive-IsReceiver again false _ transport r, receive_next, receive_into)

-- receiveAll of a client without worker threads never gives what was sent to it. Where it may wait,
-- it waits for ever if no message is empty, and otherwise takes all up to the first empty one and
-- returns an empty message for each of those before it, with an error flag that zmq_errno() sets
-- though nothing failed. Where it may not wait, it waits all the same, and a message that is not
-- empty overwrites a pointer.
pub receive_all_lem :
    (again : Bool) (inbox : List Text) (transport : Transport)
    → IsReceiver inbox transport
    → (receive_all again true transport
        ≡ ok (empty_messages (error_of again) [] (first_empty inbox)))
      × (receive_all again false transport ≡ unless_overwritten (error_of again) inbox)
unfolding receive_all inbox_of
receive_all_lem again inbox transport r =
    let queue : inbox_of transport.client_socket ≡ inbox = ap inbox_of r.2 in
    (
      ap (λ q. receive_all_from (suc (length q)) again true [] transport) queue
          ∙ receive_all_from-waits again [] inbox transport r,
      ap (λ q. receive_all_from (suc (length q)) again false [] transport) queue
          ∙ receive_all_from-overwrites (length inbox) again inbox transport r,
    )
