-- ===== src/Client/Transport/Phases.antt =====
-- volodb-client/Transport/ClientTransport.cpp against what a client may count on: it is connected or
-- not, and keeps the messages that it has sent since it connected.
use volo_db.Prelude.{
  ℕ, zero, suc, ◌≡◌, refl, Text, Bool, true, false, Option, none, some, List, [], ◌∷◌, ◌++◌, codes,
  replicate, arith, ltb, ◌==◌, Bool-cases, inl, inr, if◌then◌else◌,
}
use volo_db.Prelude.Outcome.{Outcome, ok, throw, undefined}
use volo_db.Client.Transport.{Transport, new_transport, connect, send, close}
use volo_db.Client.Transport.Calls.{
  Call, Answer, to_connect, to_send, to_close, to_receive, to_receive_all, returned, waiting, call,
  calls, goes_on,
}

-- What is sent since a client connected; `none` while it is not.
abbrev pub Sent : Type 0
Sent = Option (List Text)

-- What a receive comes to in a client that nothing has come for: with worker threads it throws, and
-- without any it follows a null pointer if the client is not connected, and waits if it is.
abbrev pub received_in : ℕ → Sent → Outcome Answer
received_in (suc n) sent = throw (codes "Receive is only allowed on non multi-threaded client")
received_in zero none = undefined
received_in zero (some sent) = ok waiting

abbrev pub sent_after : ℕ → Call → Sent → Sent × Outcome Answer
sent_after n (to_connect true) none = (some [], ok returned)
sent_after n (to_connect false) none = (none, throw (codes "Context can not be null"))
sent_after n (to_connect _) (some sent) = (some sent, ok returned)
sent_after n (to_send message) none = (none, throw (codes "Not connected to the server"))
sent_after n (to_send message) (some sent) = (some (sent ++ message ∷ []), ok returned)
sent_after n to_close _ = (none, ok returned)
sent_after n (to_receive again do_block) sent = (sent, received_in n sent)
sent_after n (to_receive_all again do_block) sent = (sent, received_in n sent)

abbrev pub replay : ℕ → List Call → Sent → Sent × List (Outcome Answer)
replay n [] sent = (sent, [])
replay n (c ∷ cs) sent =
    let after = sent_after n c sent in
    let rest = replay n cs after.0 in
    if goes_on after.1 then (rest.0, after.1 ∷ rest.1) else (after.0, after.1 ∷ [])

-- The object of a client with or without worker threads: the messages are in its one socket to the
-- server or in the socket that its workers take them from. Nothing is left of a connection that is
-- closed but the pointer to the context.
abbrev pub object : Bool → ℕ → Bool → Sent → Transport
object has_delegate n has_context none = record (new_transport has_delegate n) {
  has_context = has_context;
}
object has_delegate zero has_context (some sent) = record {
  has_delegate = has_delegate;
  total_worker_threads = zero;
  has_context = true;
  client_socket = some (record { inbox = []; outbox = sent });
  send_push_socket = none;
  worker_threads = [];
  stop_flag = false;
  is_connected = true;
}
object has_delegate (suc n) has_context (some sent) = record {
  has_delegate = has_delegate;
  total_worker_threads = suc n;
  has_context = true;
  client_socket = none;
  send_push_socket = some sent;
  worker_threads = replicate (suc n) true;
  stop_flag = false;
  is_connected = true;
}

not_zero : (n : ℕ) → (suc n == 0) ≡ false
not_zero n = ground arith

over_zero : (n : ℕ) → ltb 0 (suc n) ≡ true
over_zero n = ground arith

pub connect-object :
    (d : Bool) (n : ℕ) (has_context : Bool)
    → connect true (object d n has_context none) ≡ (object d n true (some []), ok tt)
unfolding connect new_transport
connect-object d zero h = refl
connect-object d (suc n) h = rw (not_zero n) refl

pub send-object :
    (d : Bool) (n : ℕ) (has_context : Bool) (message : Text) (sent : List Text)
    → send message (object d n has_context (some sent))
      ≡ (object d n true (some (sent ++ message ∷ [])), ok tt)
unfolding send
send-object d zero h message sent = refl
send-object d (suc n) h message sent = rw (not_zero n) refl

pub close-object :
    (d : Bool) (n : ℕ) (queue : List Text)
    → close (object d (suc n) true (some queue)) ≡ object d (suc n) true none
unfolding close new_transport
close-object d n queue = rw (over_zero n) refl

abbrev Follows : Bool → ℕ → Sent × Outcome Answer → Transport × Outcome Answer → Type 0
Follows d n spec (transport, outcome) =
    (has_context : Bool) × (transport ≡ object d n has_context spec.0) × (outcome ≡ spec.1)

call-object :
    (d : Bool) (n : ℕ) (has_context : Bool) (c : Call) (sent : Sent)
    → Follows d n (sent_after n c sent) (call c (object d n has_context sent))
unfolding call new_transport
call-object d zero h (to_connect true) none = (true, refl, refl)
call-object d (suc n) h (to_connect true) none = rw (not_zero n) (true, refl, refl)
call-object d n h (to_connect false) none = (false, refl, refl)
call-object d zero h (to_connect b) (some sent) = (true, refl, refl)
call-object d (suc n) h (to_connect b) (some sent) = (true, refl, refl)
call-object d n h (to_send message) none = (h, refl, refl)
call-object d zero h (to_send message) (some sent) = (true, refl, refl)
call-object d (suc n) h (to_send message) (some sent) = rw (not_zero n) (true, refl, refl)
call-object d zero h to_close none = (h, refl, refl)
call-object d (suc n) h to_close none = rw (over_zero n) (h, refl, refl)
call-object d zero h to_close (some sent) = (true, refl, refl)
call-object d (suc n) h to_close (some sent) = rw (over_zero n) (true, refl, refl)
call-object d zero h (to_receive again b) none = (h, refl, refl)
call-object d zero h (to_receive again b) (some sent) = (h, refl, refl)
call-object d (suc n) h (to_receive again b) none = rw (not_zero n) (h, refl, refl)
call-object d (suc n) h (to_receive again b) (some sent) = rw (not_zero n) (h, refl, refl)
call-object d zero h (to_receive_all again b) none = (h, refl, refl)
call-object d zero h (to_receive_all again b) (some sent) = (h, refl, refl)
call-object d (suc n) h (to_receive_all again b) none = rw (not_zero n) (h, refl, refl)
call-object d (suc n) h (to_receive_all again b) (some sent) = rw (not_zero n) (h, refl, refl)

calls-object :
    (d : Bool) (n : ℕ) (has_context : Bool) (cs : List Call) (sent : Sent)
    → (after : Bool) × (calls cs (object d n has_context sent)
        ≡ (object d n after (replay n cs sent).0, (replay n cs sent).1))
unfolding calls
calls-object d n h [] sent = (h, refl)
calls-object d n h (c ∷ cs) sent =
    let (h', same, outcome) = call-object d n h c sent in
    let (after, rest) = calls-object d n h' cs (sent_after n c sent).0 in
    elim (Bool-cases (goes_on (sent_after n c sent).1)) [
      | inl on ↦ (after, rw (same, outcome, rest, on))
      | inr off ↦ (h', rw (same, outcome, off))
    ]

-- Whatever a program calls of its transport, with exceptions caught, with worker threads or without,
-- and while nothing comes from the server: each call that the program comes to returns, throws, waits
-- or follows a null pointer as it does for a client that is connected or not and keeps what it has
-- sent, and the object is then that client's, with all messages sent since it connected, in order. A
-- client can be closed at any time, more than once too, and connected again. The null pointer is
-- followed by a receive alone, of a client without worker threads that is not connected.
pub calls_lem :
    (has_delegate : Bool) (n : ℕ) (cs : List Call)
    → (has_context : Bool) × (calls cs (new_transport has_delegate n)
        ≡ (object has_delegate n has_context (replay n cs none).0, (replay n cs none).1))
unfolding new_transport
calls_lem has_delegate n cs = calls-object has_delegate n false cs none
