-- ===== src/Tests/Journeys.antt =====
-- Two clients at one server: a request on its way to an executor, and answers on their way back.
use volo_db.Prelude.{
  ◌≡◌, refl, Text, true, false, List, [], ◌∷◌, codes, map, set_at, text_eq, if◌then◌else◌,
}
use volo_db.Prelude.Outcome.{ok}
use volo_db.Client.Executor.{did_receive_message}
use volo_db.Client.Transport.Worker.{worker_thread_round}
use volo_db.Client.Transport.Requests.{executor}
use volo_db.Server.Store.Threads.{Sockets, History}
use volo_db.Server.Transport
use volo_db.Server.Transport.{worker_round}
use volo_db.System.{Router}
use volo_db.System.Answers.{
  Addressed, answers_to, in_parts, one_response, client_with, answers_arrive,
}
use volo_db.System.Requests.{enveloped, tuples_of}
use volo_db.Tests.Messages.{codec}
use volo_db.Tests.Requests.{mixed, uuids, single_written, done_sent, refused_sent}

-- Messages that are not of two parts reach nobody.
abbrev route_to : Text → List (List Text) → List Text
route_to client [] = []
route_to client ((envelope ∷ bytes ∷ []) ∷ messages) =
    if text_eq envelope client then bytes ∷ route_to client messages else route_to client messages
route_to client (_ ∷ messages) = route_to client messages

abbrev router : Router
router = record {
  route = route_to;
  route_nothing = λ client. refl;
  route_message = λ client envelope bytes messages. refl;
}

abbrev answers : List (Addressed codec router)
answers = (codes "one", done_sent) ∷ (codes "two", refused_sent) ∷ (codes "one", refused_sent) ∷ []

abbrev worker : Transport.Worker
worker = record {
  has_delegate = true;
  worker_socket = [];
  sink_socket = in_parts codec router answers;
  delivered = [];
  sent = [];
}

answers_arrive_example :
    (after : Transport.Worker) × (worker_round true worker ≡ ok after)
    × (map
          (did_receive_message codec true)
          (worker_thread_round false true
            (record { at_end = true; when_asked = true })
            (record { at_end = true; when_asked = true })
            (client_with codec router (route_to (codes "one") after.sent))).delivered
        ≡ one_response codec router (answers_to codec router (codes "one") answers))
answers_arrive_example = answers_arrive codec router worker answers (codes "one") refl refl refl

abbrev batch : List Text
batch = enveloped codec (codes "client") (single_written.bytes ∷ [])

abbrev dealt : Sockets
dealt = record {
  waiting =
      set_at 0
        (set_at 1 (tuples_of codec (codes "client") ((mixed, uuids) ∷ []) ∷ []) (λ executor. []))
        (λ thread executor. []);
  taken = λ executor. [];
}

abbrev history : History
history = set_at 0 (((λ i. 5), batch) ∷ []) (λ thread. [])
