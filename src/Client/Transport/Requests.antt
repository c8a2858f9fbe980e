-- ===== src/Client/Transport/Requests.antt =====
-- volodb-client/Executor/Executor.cpp on volodb-client/Transport/ClientTransport.cpp: requests on
-- their way to the server.
use volo_db.Prelude.{
  ℕ, ◌≡◌, ◌≢◌, refl, sym, ap, map, append_assoc, append-nil, ◌∙◌, Text, Bool, true, false, some,
  List, [], ◌∷◌, ◌++◌, length, All,
}
use volo_db.Prelude.Outcome.{Outcome, ok, throw, undefined}
use volo_db.Proto.Wire.{Codec, Message}
use volo_db.Frame.Decoder.{decode}
use volo_db.Frame.Items.{Writes, Fits}
use volo_db.Client.Executor.{execute_all}
use volo_db.Client.RoundTrip.{single_frame, delivered_all, decode-execute_all_single}
use volo_db.Client.Transport.{Transport, new_transport, connect, send}
use volo_db.Client.Transport.Phases.{object, connect-object, send-object}

-- The constructor, which connects with a context of its own.
unfoldable pub new_executor : ℕ → Transport
unfolding new_transport connect
new_executor worker_threads = (connect true (new_transport true worker_threads)).0

-- What a call that has made a frame does with it.
send_if_made : Transport → Outcome Text → Transport × Outcome (Unit {0})
unfolding send
send_if_made transport (ok bytes) = send bytes transport
send_if_made transport (throw e) = (transport, throw e)
send_if_made transport undefined = (transport, undefined)

-- execute(operations, uuids, runAtomic), with its _sendFrame.
unfoldable pub execute_all_on :
    Codec → List Message → List Text → Bool → Transport → Transport × Outcome (Unit {0})
unfolding send_if_made execute_all
execute_all_on codec operations uuids run_atomic transport =
    send_if_made transport (execute_all codec operations uuids run_atomic)

-- The executor that has sent these messages.
abbrev pub executor : ℕ → List Text → Transport
executor worker_threads sent = object true worker_threads true (some sent)

-- Requests as the client makes them, one after another.
unfoldable pub execute_requests :
    Codec → List (List Message × List Text) → Transport → Transport × List (Outcome (Unit {0}))
unfolding execute_all_on
execute_requests codec [] transport = (transport, [])
execute_requests codec ((operations, uuids) ∷ requests) transport =
    let after = execute_all_on codec operations uuids false transport in
    let rest = execute_requests codec requests after.0 in (rest.0, after.1 ∷ rest.1)

-- A request that can be sent: an operation at least, an identifier for each, and messages that the
-- runtime writes within its limits.
pub record IsRequest (codec : Codec) (r : List Message × List Text) : Type 0 where
  pub paired : length r.0 ≡ length r.1
  pub some_operation : r.0 ≢ []
  pub fits : All (Fits codec) r.0
  pub frame : Writes codec.frame (single_frame codec r.0 r.1)

execute_all_on-executor :
    (codec : Codec) (n : ℕ) (sent : List Text) (r : List Message × List Text)
    → (h : IsRequest codec r)
    → execute_all_on codec r.0 r.1 false (executor n sent)
      ≡ (executor n (sent ++ h.frame.bytes ∷ []), ok tt)
unfolding execute_all_on send_if_made
execute_all_on-executor codec n sent r h =
    ap (send_if_made (executor n sent))
      (decode-execute_all_single codec r.0 r.1 [] h.paired h.some_operation h.fits h.frame).0
    ∙ send-object true n true h.frame.bytes sent

-- The messages of requests.
abbrev pub sent_by :
    (codec : Codec) (rs : List (List Message × List Text)) → All (IsRequest codec) rs → List Text
sent_by codec [] h = []
sent_by codec (r ∷ rs) h = h.0.frame.bytes ∷ sent_by codec rs h.1

execute_requests-executor :
    (codec : Codec) (n : ℕ) (sent : List Text) (rs : List (List Message × List Text))
    → (h : All (IsRequest codec) rs)
    → execute_requests codec rs (executor n sent)
      ≡ (executor n (sent ++ sent_by codec rs h), map (λ r. ok tt) rs)
unfolding execute_requests
execute_requests-executor codec n sent [] h = ap (λ l. (executor n l, [])) (sym (append-nil sent))
execute_requests-executor codec n sent (r ∷ rs) h =
    rw
      (
        execute_all_on-executor codec n sent r h.0,
        execute_requests-executor codec n (sent ++ h.0.frame.bytes ∷ []) rs h.1,
        append_assoc sent (h.0.frame.bytes ∷ []) (sent_by codec rs h.1),
      )
      refl

pub decode-sent_by :
    (codec : Codec) (envelope : Text) (rs : List (List Message × List Text))
    → (h : All (IsRequest codec) rs)
    → map (λ m. decode codec m (some envelope)) (sent_by codec rs h)
      ≡ map (λ r. delivered_all envelope r.0 r.1) rs
decode-sent_by codec envelope [] h = refl
decode-sent_by codec envelope (r ∷ rs) h =
    let here =
      decode-execute_all_single codec r.0 r.1 envelope h.0.paired h.0.some_operation h.0.fits
        h.0.frame in
    rw (here.1, decode-sent_by codec envelope rs h.1) refl

-- An executor that makes requests one after another, each with an operation at least, an identifier
-- for each operation and messages that the runtime writes within its limits, sends one message for
-- each request, in order, whether it has worker threads or not, and none of the calls throws. The
-- server decodes each message to its request's operations, in order, each under its own identifier,
-- or to an empty tuple for an operation on a database.
pub execute_requests_lem :
    (codec : Codec) (n : ℕ) (envelope : Text) (rs : List (List Message × List Text))
    → (h : All (IsRequest codec) rs)
    → (execute_requests codec rs (new_executor n)
        ≡ (executor n (sent_by codec rs h), map (λ r. ok tt) rs))
      × (map (λ m. decode codec m (some envelope)) (sent_by codec rs h)
          ≡ map (λ r. delivered_all envelope r.0 r.1) rs)
unfolding new_executor new_transport
execute_requests_lem codec n envelope rs h = (
  ap (λ p. execute_requests codec rs p.0) (connect-object true n false)
      ∙ execute_requests-executor codec n [] rs h,
  decode-sent_by codec envelope rs h,
)
