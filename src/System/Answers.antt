-- ===== src/System/Answers.antt =====
-- volodbserver/Transport/ServerTransport.cpp to volodb-client/Executor/Executor.cpp: the way of the
-- answers from the executor threads to the delegates of the clients.
use volo_db.Prelude.{
  ◌≡◌, refl, ap, ◌∙◌, Text, true, false, Option, some, List, [], ◌∷◌, ◌++◌, map, text_eq,
  Bool-cases, inl, inr, if◌then◌else◌,
}
use volo_db.Prelude.Outcome.{ok}
use volo_db.Proto.Result.{Result}
use volo_db.Proto.Wire.{Codec}
use volo_db.Client.Executor.{did_receive_message}
use volo_db.Client.Answers.{Sent, did_receive_message-answer_frame}
use volo_db.Client.Transport.Worker
use volo_db.Client.Transport.Worker.{worker_thread_round}
use volo_db.Client.Transport.Worker.Rounds.{worker_thread_round_lem, one_call}
use volo_db.Client.Transport.Delivery.{new_worker}
use volo_db.Server.Transport
use volo_db.Server.Transport.{parts, worker_round, worker_round_lem}
use volo_db.System.{Router}

module _ (codec : Codec) (router : Router) where
  -- An answer and the client that it is for.
  abbrev pub Addressed : Type 0
  Addressed = Text × Sent codec

  -- The answers to a client.
  abbrev pub answers_to : Text → List Addressed → List (Sent codec)
  answers_to client [] = []
  answers_to client ((envelope, sent) ∷ answers) =
      if text_eq envelope client
      then sent ∷ answers_to client answers
      else answers_to client answers

  -- As replyWithResult writes them, and leaves them in the sink of a worker.
  abbrev pub replies : List Addressed → List (Text × Text)
  replies [] = []
  replies ((envelope, sent) ∷ answers) = (envelope, sent.frame.bytes) ∷ replies answers

  abbrev pub in_parts : List Addressed → List Text
  in_parts answers = parts (replies answers)

  abbrev messages_of : List (Text × Text) → List (List Text)
  messages_of answers = map (λ a. a.0 ∷ a.1 ∷ []) answers

  routed :
      (client : Text) (answers : List Addressed)
      → router.route client (messages_of (replies answers))
        ≡ map (λ s. s.frame.bytes) (answers_to client answers)
  routed client [] = router.route_nothing client
  routed client ((envelope, sent) ∷ answers) =
      router.route_message client envelope sent.frame.bytes _
      ∙ elim (Bool-cases (text_eq envelope client)) [
        | inl e ↦ rw e (ap (λ l. sent.frame.bytes ∷ l) (routed client answers))
        | inr e ↦ rw e (routed client answers)
      ]

  -- What the delegate is called with, once if there is an answer.
  abbrev pub one_response : List (Sent codec) → List (Option (List Result))
  one_response [] = []
  one_response (sent ∷ answers) = some (map (λ s. s.content) (sent ∷ answers)) ∷ []

  received :
      (answers : List (Sent codec))
      → map (did_receive_message codec true) (one_call (map (λ s. s.frame.bytes) answers))
        ≡ one_response answers
  received [] = refl
  received (sent ∷ answers) = ap (λ o. o ∷ []) (did_receive_message-answer_frame codec sent answers)

  -- The worker of a client, with these messages in its socket.
  abbrev pub client_with : List Text → Worker.Worker
  client_with inbox = record new_worker { client_socket = record { inbox = inbox; outbox = [] } }

  -- A worker of the server's transport that has the answers of its executors to any clients in its
  -- sink, and has sent nothing yet, sends them all in one round. Once they are routed, a round of the
  -- client's worker has its executor call its delegate with the results of the answers to that
  -- client, all of them, in order, and of no others, in one call; and not at all if there are none.
  -- It needs that the runtime wrote the answers within its limits.
  pub answers_arrive :
      (worker : Transport.Worker) (answers : List Addressed) (client : Text)
      → worker.has_delegate ≡ true
      → worker.sink_socket ≡ in_parts answers
      → worker.sent ≡ []
      → (after : Transport.Worker) × (worker_round true worker ≡ ok after)
        × (map
              (did_receive_message codec true)
              (worker_thread_round false true
                (record { at_end = true; when_asked = true })
                (record { at_end = true; when_asked = true })
                (client_with (router.route client after.sent))).delivered
            ≡ one_response (answers_to client answers))
  answers_arrive worker answers client d s n =
      let all_sent : worker.sent ++ messages_of (replies answers) ≡ messages_of (replies answers) =
        ap (λ l. l ++ messages_of (replies answers)) n in
      let inbox = ap (router.route client) all_sent ∙ routed client answers in
      (
        _,
        worker_round_lem worker (replies answers) d s,
        ap (λ w. map (did_receive_message codec true) w.delivered)
              (worker_thread_round_lem
                (client_with (router.route client (worker.sent ++ messages_of (replies answers))))
                true true refl)
            ∙ ap (λ l. map (did_receive_message codec true) (one_call l)) inbox
            ∙ received (answers_to client answers),
      )
