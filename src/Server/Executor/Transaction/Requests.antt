-- ===== src/Server/Executor/Transaction/Requests.antt =====
-- volodbserver/Store/NDBMessageExecutor.cpp: what a whole request leaves behind.
use volo_db.Prelude.{
  ℕ, ◌+◌, ◌<◌, ◌≡◌, ◌≢◌, refl, Bool, true, false, Option, none, some, List, [], ◌∷◌, arith, All,
  length, Bool-cases, inl, inr, if◌then◌else◌,
}
use volo_db.Prelude.Outcome.{ok}
use volo_db.Proto.Wire.{Codec, Message}
use volo_db.Frame.Utils.{is_definition_frame}
use volo_db.Frame.Decoder.{FrameMessagesTuple}
use volo_db.Server.Ndb.{PreparedOperation, World, Environment, >>=-eq_ok}
use volo_db.Server.Ndb.Tally.{tally}
use volo_db.Server.Executor.Transaction.{
  Progress, execute_message, execute_messages, follow, prepare, execute_tuple,
}
use volo_db.Server.Executor.Transaction.Account.{open_count, held, ends, Account}
use volo_db.Server.Executor.Transaction.Rounds.{manipulation_lem, definition_lem}
use volo_db.Server.Executor.Transaction.Sent.{Sends, execute_tuple-AllSent}

length_pos : (messages : List Message) → messages ≢ [] → 0 < length messages + 0
length_pos [] h = absurd (h refl)
length_pos (message ∷ messages) h = omega arith

module _ (env : Environment) (codec : Codec) (thread_no : ℕ) (tuple : FrameMessagesTuple) where
  -- The loop, from its start or after a round.
  record Loops (messages : List Message) (before : Option ℕ) (w : World) (after : Option ℕ)
      (w' : World) : Type 0 where
    pub answers : ℕ
    pub account : Account before w after w' 0 answers
    pub answered_or_held :
        All (λ m. is_definition_frame m ≡ false) messages
        → (0 < length messages + open_count before)
        → answers + open_count after ≡ 1
    pub each_answered :
        All (λ m. is_definition_frame m ≡ true) messages
        → (answers ≡ length messages) × (after ≡ before)

  after_manipulation :
      (message : Message) (messages : List Message) (progress p : Progress) (w v w' : World)
      (next : Option Progress)
      → is_definition_frame message ≡ false
      → Account progress.transaction w (held next) v 0 (ends next)
      → open_count (held next) + ends next ≡ 1
      → ((q : Progress)
          → execute_messages env codec thread_no tuple messages q v ≡ ok (p, w')
          → Loops messages q.transaction v p.transaction w')
      → follow env codec thread_no tuple progress messages next v ≡ ok (p, w')
      → Loops (message ∷ messages) progress.transaction w p.transaction w'
  after_manipulation message messages progress p w v w' none h account kept rest e = record {
    answers = 1;
    account = ground arith;
    answered_or_held = λ a b. ground arith;
    each_answered = λ d. ground arith;
  }
  after_manipulation message messages progress p w v w' (some q) h account kept rest e =
      let ih = rest q e in
      record {
        answers = ih.answers;
        account = let second = ih.account in omega arith;
        answered_or_held = λ a b. ih.answered_or_held a.1 (omega arith);
        each_answered = λ d. ground arith;
      }

  loop_lem :
      (messages : List Message) (progress p : Progress) (w w' : World)
      → execute_messages env codec thread_no tuple messages progress w ≡ ok (p, w')
      → Loops messages progress.transaction w p.transaction w'
  unfolding execute_messages
  loop_lem [] progress p w w' e = record {
    answers = 0;
    account = ground arith;
    answered_or_held = λ a b. ground arith;
    each_answered = λ a. ground arith;
  }
  loop_lem (message ∷ messages) progress p w w' e =
      elim (Bool-cases (is_definition_frame message)) [
        | inl h ↦
            let (next, v, q, r) = step in
            let (goes_on, first) =
              definition_lem env codec thread_no tuple message progress w v next h q in
            let ih = loop_lem messages progress p v w' (rw goes_on at r) in
            let second = ih.account in
            record {
              answers = 1 + ih.answers;
              account = omega arith;
              answered_or_held = λ a b. ground arith;
              each_answered = λ a. let (n, kept) = ih.each_answered a.1 in (omega arith, kept);
            }
        | inr h ↦
            let (next, v, q, r) = step in
            let (account, kept) =
              manipulation_lem env codec thread_no tuple message progress w v next h q in
            after_manipulation message messages progress p w v w' next h account kept
              (λ q. loop_lem messages q p v w') r
      ]
    where
      step :
          (next : Option Progress) × (v : World) × (execute_message env codec thread_no tuple
              message progress w
            ≡ ok (next, v))
          × (follow env codec thread_no tuple progress messages next v ≡ ok (p, w'))
      step =
          >>=-eq_ok (execute_message env codec thread_no tuple message progress)
            (follow env codec thread_no tuple progress messages) w e

  module _ (w w' : World) (b : Bool)
      (returned : execute_tuple env codec thread_no tuple w ≡ ok (b, w')) where
    prepare_lem :
        (operations : List PreparedOperation) (t : Option ℕ) (v : World)
        → prepare env codec thread_no tuple operations t v ≡ ok (b, w')
        → ((tally w'.trace).started ≡ (tally v.trace).started)
          × ((tally w'.trace).closed ≡ (tally v.trace).closed)
          × ((tally w'.trace).prepared ≡ (tally v.trace).prepared + open_count t)
          × ((tally w'.trace).replied ≡ (tally v.trace).replied)
          × ((tally w'.trace).unsent ≡ (tally v.trace).unsent)
          × (open_count t ≡ (if b then 1 else 0))
          × ((tally w'.trace).waited ≡ (tally v.trace).waited)
          × ((tally w'.trace).longest_wait ≡ (tally v.trace).longest_wait)
    unfolding prepare
    prepare_lem operations none v e = ground arith
    prepare_lem operations (some t) v e = ground arith

    -- The world after the loop, with what the loop and the hand-over did.
    parts :
        (v : World) × (p : Progress) × Loops tuple.messages none w p.transaction v
        × (prepare env codec thread_no tuple p.operations p.transaction v ≡ ok (b, w'))
    unfolding execute_tuple
    parts =
        let (p, v, looped, ended) =
          >>=-eq_ok
            (execute_messages env codec thread_no tuple tuple.messages
              (record { transaction = none; operations = [] }))
            (λ p. prepare env codec thread_no tuple p.operations p.transaction) w returned in
        (v, p, loop_lem tuple.messages _ p w v looped, ended)

    -- Whatever a request holds and however the calls of it end, when it has returned every
    -- transaction that was started for it has been closed or handed over to NDB, and one is handed
    -- over exactly if the call returns true.
    pub execute_tuple-balanced :
        ((tally w'.trace).started + (tally w.trace).closed + (tally w.trace).prepared
          ≡ (tally w.trace).started + (tally w'.trace).closed + (tally w'.trace).prepared)
        × ((tally w'.trace).prepared ≡ (tally w.trace).prepared + (if b then 1 else 0))
    execute_tuple-balanced =
        let (v, p, loops, ended) = parts in
        let account = loops.account in
        let (s, c, h, r, missed, n, u, l) = prepare_lem p.operations p.transaction v ended in
        (omega arith, omega arith)

    pub execute_tuple-no_wait :
        ((tally w'.trace).waited ≡ (tally w.trace).waited)
        × ((tally w'.trace).longest_wait ≡ (tally w.trace).longest_wait)
    execute_tuple-no_wait =
        let (v, p, loops, ended) = parts in
        let account = loops.account in
        let (s, c, h, r, missed, n, u, l) = prepare_lem p.operations p.transaction v ended in
        (omega arith, omega arith)

    -- If the runtime serialises every answer, a request of at least one operation and manipulations
    -- only is answered exactly once: with an error at once, or later by the callback of the one
    -- transaction that is handed over.
    pub execute_tuple-answered :
        Sends codec
        → All (λ m. is_definition_frame m ≡ false) tuple.messages
        → tuple.messages ≢ []
        → (tally w'.trace).replied + (tally w'.trace).prepared
          ≡ (tally w.trace).replied + (tally w.trace).prepared + 1
    execute_tuple-answered sends manipulations some_message =
        let sent = execute_tuple-AllSent env codec sends thread_no tuple w w' b returned in
        let (v, p, loops, ended) = parts in
        let account = loops.account in
        let (s, c, h, r, missed, n, u, l) = prepare_lem p.operations p.transaction v ended in
        let one = loops.answered_or_held manipulations (length_pos tuple.messages some_message) in
        omega arith

    -- When a request of definitions only has returned, an answer has been sent for each of them, none
    -- if it is empty, and the result is false: no transaction is handed over for it. It needs that
    -- the runtime serialises the frame of every answer, without which replyWithResult sends nothing.
    pub execute_tuple-definitions :
        Sends codec
        → All (λ m. is_definition_frame m ≡ true) tuple.messages
        → ((tally w'.trace).replied ≡ (tally w.trace).replied + length tuple.messages) × (b ≡ false)
    execute_tuple-definitions sends definitions =
        let sent = execute_tuple-AllSent env codec sends thread_no tuple w w' b returned in
        let (v, p, loops, ended) = parts in
        let account = loops.account in
        let (s, c, h, r, missed, n, u, l) = prepare_lem p.operations p.transaction v ended in
        let (each, kept) = loops.each_answered definitions in (omega arith, ground arith)
