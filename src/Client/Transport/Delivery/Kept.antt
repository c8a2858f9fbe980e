-- ===== src/Client/Transport/Delivery/Kept.antt =====
-- volodb-client/Transport/ClientTransport.cpp: what becomes of the messages of a client with worker
-- threads.
use volo_db.Prelude.{
  ℕ, suc, ◌≡◌, refl, sym, ap, ◌∙◌, Text, Bool, true, false, none, some, List, [], ◌∷◌, ◌++◌,
  append_assoc, append-nil, map, map-append, arith, ◌==◌, if◌then◌else◌, set_at, Bool-cases, inl,
  inr,
}
use volo_db.Prelude.Outcome.{ok}
use volo_db.Client.Transport.{Transport, new_transport, connect, send, close}
use volo_db.Client.Transport.Phases.{object, connect-object, send-object, close-object}
use volo_db.Client.Transport.Worker.{Worker, worker_thread_round}
use volo_db.Client.Transport.Worker.Rounds.{worker_thread_round_lem, one_call}
use volo_db.Client.Transport.Delivery.{
  Client, History, Reachable, started, sends, passes, arrives, works,
}

-- The messages that were passed to a worker.
abbrev pub of_worker : ℕ → List (ℕ × Text) → List Text
of_worker k [] = []
of_worker k ((j, message) ∷ given) = (if j == k then message ∷ [] else []) ++ of_worker k given

abbrev pub concat : List (List Text) → List Text
concat [] = []
concat (call ∷ calls) = call ++ concat calls

concat-one_call :
    (calls : List (List Text)) (queue : List Text)
    → concat (calls ++ one_call queue) ≡ concat calls ++ queue
concat-one_call [] [] = refl
concat-one_call [] (m ∷ queue) = append-nil (m ∷ queue)
concat-one_call (c ∷ calls) queue =
    ap (λ l. c ++ l) (concat-one_call calls queue) ∙ sym (append_assoc c (concat calls) queue)

of_worker-append :
    (k : ℕ) (xs ys : List (ℕ × Text)) → of_worker k (xs ++ ys) ≡ of_worker k xs ++ of_worker k ys
of_worker-append k [] ys = refl
of_worker-append k ((j, m) ∷ xs) ys =
    ap (λ l. (if j == k then m ∷ [] else []) ++ l) (of_worker-append k xs ys)
    ∙ sym (append_assoc (if j == k then m ∷ [] else []) _ _)

-- What one worker keeps: what it has sent and what waits in its sink, and what the delegate was
-- given and what waits at its other socket.
abbrev pub Keeps : List Text → List Text → Worker → Type 0
Keeps given came worker =
    (worker.client_socket.outbox ++ worker.sink_socket ≡ given)
    × (concat worker.delivered ++ worker.client_socket.inbox ≡ came)

worker_thread_round-Keeps :
    (given came : List Text) (first second : Bool) (worker : Worker)
    → worker.is_running ≡ true
    → Keeps given came worker
    → Keeps given came (
        worker_thread_round false true
          (record { at_end = true; when_asked = first })
          (record { at_end = true; when_asked = second })
          worker)
worker_thread_round-Keeps given came first second worker r (g, c) =
    rw (worker_thread_round_lem worker first second r) (
      append-nil (worker.client_socket.outbox ++ worker.sink_socket) ∙ g,
      append-nil (concat (worker.delivered ++ one_call worker.client_socket.inbox))
          ∙ concat-one_call worker.delivered worker.client_socket.inbox
          ∙ c,
    )

-- The invariant, with what no worker has got yet.
abbrev pub Kept : ℕ → History → Client → Type 0
Kept n history client =
    (queue : List Text) × (client.transport ≡ object true (suc n) true (some queue))
    × (map (λ p. p.1) history.passed ++ queue ≡ history.sent)
    × ((k : ℕ) → Keeps (of_worker k history.passed) (history.arrived k) (client.worker k))

-- A change of one worker.
set_at-Keeps :
    (k : ℕ) (given came : ℕ → List Text) (changed : Worker) (worker : ℕ → Worker)
    → Keeps (given k) (came k) changed
    → ((j : ℕ) → Keeps (given j) (came j) (worker j))
    → (j : ℕ) → Keeps (given j) (came j) (set_at k changed worker j)
set_at-Keeps k given came changed worker c keeps j = elim (Bool-cases (k == j)) [
  | inl e ↦ let same : k ≡ j = ground arith in rw e (rw same at c)
  | inr e ↦ rw e (keeps j)
]

started-object :
    (n : ℕ) (transport : Transport)
    → connect true (new_transport true (suc n)) ≡ (transport, ok tt)
    → transport ≡ object true (suc n) true (some [])
unfolding new_transport
started-object n transport e =
    sym (ap (λ p. p.0) e) ∙ ap (λ p. p.0) (connect-object true (suc n) false)

sends-object :
    (n : ℕ) (message : Text) (queue : List Text) (before transport : Transport)
    → before ≡ object true (suc n) true (some queue)
    → send message before ≡ (transport, ok tt)
    → transport ≡ object true (suc n) true (some (queue ++ message ∷ []))
sends-object n message queue before transport b e =
    sym (ap (λ p. p.0) e)
    ∙ ap (λ t. (send message t).0) b
    ∙ ap (λ p. p.0) (send-object true (suc n) true message queue)

passes-queue :
    (n : ℕ) (message : Text) (queue left : List Text) (before : Transport)
    → before ≡ object true (suc n) true (some queue)
    → before.send_push_socket ≡ some (message ∷ left)
    → queue ≡ message ∷ left
passes-queue n message queue left before b e =
    let taken : some queue ≡ some (message ∷ left) = sym (ap (λ t. t.send_push_socket) b) ∙ e in cc

passes-Keeps :
    (k : ℕ) (message : Text) (given : List (ℕ × Text)) (came : ℕ → List Text) (worker : ℕ → Worker)
    → ((j : ℕ) → Keeps (of_worker j given) (came j) (worker j))
    → (j : ℕ)
    → Keeps (of_worker j (given ++ (k, message) ∷ [])) (came j) (
        set_at k
          (record (worker k) { sink_socket = (worker k).sink_socket ++ message ∷ [] })
          worker
          j)
passes-Keeps k message given came worker keeps j = elim (Bool-cases (k == j)) [
  | inl e ↦
      let same : k ≡ j = ground arith in
      rw (e, of_worker-append j given ((k, message) ∷ []), e, same)
        (
          sym (append_assoc (worker j).client_socket.outbox (worker j).sink_socket (message ∷ []))
              ∙ ap (λ l. l ++ message ∷ []) (keeps j).0,
          (keeps j).1,
        )
  | inr e ↦
      rw (e, of_worker-append j given ((k, message) ∷ []), e, append-nil (of_worker j given))
        (keeps j)
]

arrives-Keeps :
    (k : ℕ) (message : Text) (given came : ℕ → List Text) (worker : ℕ → Worker)
    → ((j : ℕ) → Keeps (given j) (came j) (worker j))
    → (j : ℕ)
    → Keeps (given j) (set_at k (came k ++ message ∷ []) came j) (
        set_at k
          (record (worker k) {
            client_socket = record (worker k).client_socket {
              inbox = (worker k).client_socket.inbox ++ message ∷ [];
            };
          })
          worker
          j)
arrives-Keeps k message given came worker keeps j = elim (Bool-cases (k == j)) [
  | inl e ↦
      let same : k ≡ j = ground arith in
      rw (e, same)
        (
          (keeps j).0,
          sym (
                append_assoc (concat (worker j).delivered) (worker j).client_socket.inbox
                  (message ∷ []))
              ∙ ap (λ l. l ++ message ∷ []) (keeps j).1,
        )
  | inr e ↦ rw e (keeps j)
]

Reachable-keeps :
    (n : ℕ) (history : History) (client : Client)
    → Reachable n history client
    → Kept n history client
Reachable-keeps n history client (started {transport = transport} e) =
    ([], started-object n transport e, refl, λ k. (refl, refl))
Reachable-keeps n history client
      (sends {history = earlier} {client = before} {transport = transport} message r e) =
    let (queue, same, order, keeps) = Reachable-keeps n earlier before r in
    (
      queue ++ message ∷ [],
      sends-object n message queue before.transport transport same e,
      sym (append_assoc (map (λ p. p.1) earlier.passed) queue (message ∷ []))
          ∙ ap (λ l. l ++ message ∷ []) order,
      keeps,
    )
Reachable-keeps n history client (passes {history = earlier} {client = before} k message left r e) =
    let (queue, same, order, keeps) = Reachable-keeps n earlier before r in
    let taken : queue ≡ message ∷ left =
      passes-queue n message queue left before.transport same e in
    (
      left,
      ap {A = Transport} (λ t. record t { send_push_socket = some left }) same,
      ap (λ l. l ++ left) (map-append (λ p. p.1) earlier.passed ((k, message) ∷ []))
          ∙ append_assoc (map (λ p. p.1) earlier.passed) (message ∷ []) left
          ∙ ap (λ l. map (λ p. p.1) earlier.passed ++ l) (sym taken)
          ∙ order,
      passes-Keeps k message earlier.passed earlier.arrived before.worker keeps,
    )
Reachable-keeps n history client (arrives {history = earlier} {client = before} k message r) =
    let (queue, same, order, keeps) = Reachable-keeps n earlier before r in
    (
      queue,
      same,
      order,
      arrives-Keeps k message (λ j. of_worker j earlier.passed) earlier.arrived before.worker keeps,
    )
Reachable-keeps n history client
      (works {history = earlier} {client = before} k first second r run) =
    let (queue, same, order, keeps) = Reachable-keeps n earlier before r in
    (
      queue,
      same,
      order,
      set_at-Keeps k (λ j. of_worker j earlier.passed) earlier.arrived _ before.worker
          (rw same (worker_thread_round-Keeps _ _ first second (before.worker k) run (keeps k)))
          keeps,
    )

-- However a program, ZeroMQ and the workers of a client interleave from its connect until it is
-- closed, while no receive throws: the messages that workers have got, in that order, and those that
-- none has got yet are what the program has sent, in order. What a worker got it has sent to the
-- server, in order, but for what waits in its sink, and what has arrived at it its delegate was
-- given, in order, but for what waits at its socket. So until then nothing is lost, doubled or passed
-- to two workers, and the order holds for each worker, though not for the client as a whole. A close
-- at any time leaves none of the messages that no worker has got.
pub Reachable-Kept :
    (n : ℕ) (history : History) (client : Client)
    → Reachable n history client
    → Kept n history client × (close client.transport ≡ object true (suc n) true none)
Reachable-Kept n history client r =
    let kept = Reachable-keeps n history client r in
    let (queue, same, order, keeps) = kept in (kept, ap close same ∙ close-object true n queue)
