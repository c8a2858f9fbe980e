-- ===== src/Client/Transport/Calls.antt =====
-- volodb-client/Transport/ClientTransport.cpp: a program's calls on its transport.
use volo_db.Prelude.{Text, Bool, true, false, Option, none, some, List, [], ◌∷◌, if◌then◌else◌}
use volo_db.Prelude.Outcome.{Outcome, ok, throw, undefined}
use volo_db.Client.Transport.{Transport, connect, send, close}
use volo_db.Client.Transport.Receiving.{Received, receive, receive_all, with_inbox}

-- For the receives, whether zmq_errno() is EAGAIN, and doBlock.
pub data Call : Type 0 where
  to_connect : Bool → Call
  to_send : Text → Call
  to_close : Call
  to_receive : Bool → Bool → Call
  to_receive_all : Bool → Bool → Call

-- What a call gives, where it does not throw. A receive that waits for a message that has not come
-- does not return.
pub data Answer : Type 0 where
  returned : Answer
  received : Received → Answer
  all_received : List Text → Bool → Answer
  waiting : Answer

abbrev plain : Transport × Outcome (Unit {0}) → Transport × Outcome Answer
plain (transport, ok _) = (transport, ok returned)
plain (transport, throw e) = (transport, throw e)
plain (transport, undefined) = (transport, undefined)

abbrev one_received :
    Transport → Outcome (Option (Received × List Text)) → Transport × Outcome Answer
one_received transport (ok none) = (transport, ok waiting)
one_received transport (ok (some (message, inbox))) =
    (with_inbox inbox transport, ok (received message))
one_received transport (throw e) = (transport, throw e)
one_received transport undefined = (transport, undefined)

abbrev many_received :
    Transport → Outcome (Option (List Text × Bool × List Text)) → Transport × Outcome Answer
many_received transport (ok none) = (transport, ok waiting)
many_received transport (ok (some (messages, error, inbox))) =
    (with_inbox inbox transport, ok (all_received messages error))
many_received transport (throw e) = (transport, throw e)
many_received transport undefined = (transport, undefined)

unfoldable pub call : Call → Transport → Transport × Outcome Answer
unfolding connect send close receive receive_all
call (to_connect has_context) transport = plain (connect has_context transport)
call (to_send message) transport = plain (send message transport)
call to_close transport = (close transport, ok returned)
call (to_receive again do_block) transport =
    one_received transport (receive again do_block transport)
call (to_receive_all again do_block) transport =
    many_received transport (receive_all again do_block transport)

-- Whether the program comes to its next call; it goes on after an exception.
abbrev pub goes_on : Outcome Answer → Bool
goes_on (ok waiting) = false
goes_on (ok _) = true
goes_on (throw e) = true
goes_on undefined = false

-- The state after the calls that the program comes to, and what each came to.
unfoldable pub calls : List Call → Transport → Transport × List (Outcome Answer)
unfolding call
calls [] transport = (transport, [])
calls (c ∷ cs) transport =
    let after = call c transport in
    let rest = calls cs after.0 in
    if goes_on after.1 then (rest.0, after.1 ∷ rest.1) else (after.0, after.1 ∷ [])
