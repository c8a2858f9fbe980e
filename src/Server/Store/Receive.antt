-- ===== src/Server/Store/Receive.antt =====
-- volodbserver/Utils/TransportUtils.cpp. A socket is the queue of the messages that can be received;
-- `again` says whether the errno of the receive that fails at its end is EAGAIN.
use volo_db.Prelude.{
  ℕ, zero, suc, ◌+◌, ◌<◌, ◌≡◌, Text, Bool, true, false, List, [], ◌∷◌, ◌++◌, append_assoc,
  append-nil, codes, arith, pos, length, length-append, take, drop, ltb, ◌==◌, ◌&&◌, if◌then◌else◌,
}
use volo_db.Prelude.Decimal.{to_string}
use volo_db.Prelude.Outcome.{Outcome, ok, throw}

module _ {A : Type 0} (again : Bool) (read_limit : ℕ) where
  -- The loop, with what has been received so far; the result is what is received and what is left.
  receive_from : List A → List A → Outcome (List A × List A)
  receive_from received [] =
      if again
      then ok (received, [])
      else throw (codes "Error while receiving messages from socket")
  receive_from received (message ∷ queue) =
      let rest = receive_from (received ++ message ∷ []) queue in
      if ltb 0 read_limit && (length (received ++ message ∷ []) == read_limit)
      then ok (received ++ message ∷ [], queue)
      else rest

  unfoldable pub receive_queued_messages : List A → Outcome (List A × List A)
  unfolding receive_from
  receive_queued_messages queue = receive_from [] queue

unfoldable pub get_sink_name : Text → ℕ → Text
unfolding to_string
get_sink_name base_name thread_no = base_name ++ (codes "_" ++ to_string (pos thread_no))

receive_from_lem :
    {A : Type 0} (limit left : ℕ) (received queue : List A)
    → limit ≡ length received + suc left
    → receive_from true limit received queue
      ≡ ok (received ++ take (suc left) queue, drop (suc left) queue)
unfolding receive_from
receive_from_lem limit left received [] e = rw (append-nil received)
receive_from_lem limit zero received (message ∷ queue) e =
    let full : (length (received ++ message ∷ []) == limit) ≡ true =
      ground (arith, length-append received (message ∷ [])) in
    let some_limit : ltb 0 limit ≡ true = ground arith in rw (some_limit, full)
receive_from_lem limit (suc left) received (message ∷ queue) e =
    let more : (length (received ++ message ∷ []) == limit) ≡ false =
      ground (arith, length-append received (message ∷ [])) in
    let some_limit : ltb 0 limit ≡ true = ground arith in
    rw (some_limit, more)
      (simp append_assoc at (
        receive_from_lem limit left (received ++ message ∷ []) queue
          (omega (arith, length-append received (message ∷ [])))))

-- With a limit, a receive takes as many messages as the limit says, or all that there are, in order,
-- and leaves the others.
pub receive_queued_messages_lem :
    {A : Type 0} (limit : ℕ) (queue : List A)
    → 0 < limit
    → receive_queued_messages true limit queue ≡ ok (take limit queue, drop limit queue)
unfolding receive_queued_messages
receive_queued_messages_lem zero queue h = absurd (omega arith)
receive_queued_messages_lem (suc limit) queue h =
    receive_from_lem (suc limit) limit [] queue (omega arith)

receive_from_all :
    {A : Type 0} (received queue : List A)
    → receive_from true 0 received queue ≡ ok (received ++ queue, [])
unfolding receive_from
receive_from_all received [] = rw (append-nil received)
receive_from_all received (message ∷ queue) =
    rw append_assoc at (receive_from_all (received ++ message ∷ []) queue)

-- Without a limit a receive takes all that there is.
pub receive_queued_messages_all :
    {A : Type 0} (queue : List A) → receive_queued_messages true 0 queue ≡ ok (queue, [])
unfolding receive_queued_messages
receive_queued_messages_all queue = receive_from_all [] queue
