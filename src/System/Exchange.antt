-- ===== src/System/Exchange.antt =====
-- volodb-client/Executor/Executor.cpp and volodbserver/Store/NDBMessageExecutor.cpp: an atomic request
-- from the client's call to the client's delegate.
use volo_db.Prelude.{
  ℕ, ◌≡◌, sym, ◌∙◌, ap, Text, Bool, true, false, some, List, [], ◌∷◌, All, map, is_some, keep_if,
  if◌then◌else◌,
}
use volo_db.Prelude.Outcome.{ok}
use volo_db.Proto.Wire.{Codec, Message}
use volo_db.Frame.Utils.{is_definition_frame, get_frame_type}
use volo_db.Frame.Classes.{is_decoded}
use volo_db.Frame.Decoder.{FrameMessagesTuple, decode}
use volo_db.Frame.Items.{Writes, Fits}
use volo_db.Client.Executor.{execute_all, did_receive_message}
use volo_db.Client.RoundTrip.{atomic_frame, decode-execute_all_atomic}
use volo_db.Client.Answers.{Sent, did_receive_message-answer_frame}
use volo_db.Server.Ndb.{
  PreparedOperation, Environment, World, Event, close_transaction, reply, execute_asynch_prepare,
}
use volo_db.Server.Executor.Reply.{answer_frame}
use volo_db.Server.Executor.Callback.{Reads, Stats, ndb_execute_callback}
use volo_db.Server.Executor.Callback.Lifecycle.{answer, callback_lem, answers_to}
use volo_db.Server.Executor.Callback.Served.{Prepared-types, answered-types}
use volo_db.Server.Executor.Transaction.{execute_tuple}
use volo_db.Server.Executor.Transaction.Prepared.{execute_tuple-Prepared}

module _ (env : Environment) (codec : Codec) (reads : Reads) where
  -- The operations that are handed over are those of the request.
  handed_over-types :
      (thread_no t : ℕ) (tuple : FrameMessagesTuple) (w v : World)
      (operations : List PreparedOperation) (earlier : List Event)
      → All (λ m. is_definition_frame m ≡ false) tuple.messages
      → execute_tuple env codec thread_no tuple w ≡ ok (true, v)
      → v.trace ≡ execute_asynch_prepare t tuple.id tuple.envelope operations ∷ earlier
      → map (λ o. o.type) operations ≡ map get_frame_type tuple.messages
  handed_over-types thread_no t tuple w v operations earlier manipulations returned last =
      let (t', own, earlier', own_last, all) =
        execute_tuple-Prepared env codec thread_no tuple w v returned in
      let same : operations ≡ own = cc in
      rw same (Prepared-types tuple.messages own manipulations all)

  -- The request that the server makes of an atomic request.
  abbrev pub request_of : Text → Text → List Message → FrameMessagesTuple
  request_of uuid envelope ms = record {
    id = uuid;
    envelope = envelope;
    messages = keep_if is_decoded ms;
  }

  -- An atomic request that the client's executor packs and the server decodes, with manipulations
  -- only among what the decoder keeps: once its transaction has been handed over, the callback of it
  -- comes back, closes the transaction and replies to the client, and the reply has the client's
  -- executor call its delegate with that one result. The result names the request's first
  -- identifier, and holds an error exactly if NDB could not run the transaction, and otherwise one
  -- result for each operation of the request, in order and of its type, less those on databases. It
  -- needs that the runtime writes the request and the answer within its limits.
  pub exchange :
      (ms : List Message) (uuid : Text) (uuids : List Text) (envelope : Text)
      (h : Writes codec.frame (atomic_frame codec uuid ms)) (thread_no t : ℕ) (w v : World)
      (operations : List PreparedOperation) (earlier : List Event) (failed : Bool) (stats : Stats)
      (sent : Sent codec)
      → All (Fits codec) ms
      → All (λ m. is_definition_frame m ≡ false) (keep_if is_decoded ms)
      → execute_tuple env codec thread_no (request_of uuid envelope ms) w ≡ ok (true, v)
      → v.trace ≡ execute_asynch_prepare t uuid envelope operations ∷ earlier
      → sent.content ≡ answer env codec reads uuid envelope operations t stats failed v
      → (execute_all codec ms (uuid ∷ uuids) true ≡ ok h.bytes)
        × (decode codec h.bytes (some envelope) ≡ request_of uuid envelope ms ∷ [])
        × ((stats' : Stats) × (w' : World) × (ndb_execute_callback env codec reads failed t uuid
                envelope operations stats v
              ≡ ok (stats', w'))
            × (w'.trace ≡ reply envelope (some sent.frame.bytes) ∷ close_transaction t ∷ v.trace))
        × (did_receive_message codec true (sent.frame.bytes ∷ []) ≡ some (sent.content ∷ []))
        × (sent.content.transaction_identifier ≡ uuid)
        × (map (λ r. r.type) sent.content.result
            ≡ (if failed then [] else map get_frame_type (keep_if is_decoded ms)))
        × (is_some sent.content.error_code ≡ failed)
  exchange ms uuid uuids envelope h thread_no t w v operations earlier failed stats sent fits
        manipulations returned last content =
      let (asked, arrived) = decode-execute_all_atomic codec ms uuid uuids envelope fits h in
      let (stats', called) =
        callback_lem env codec reads uuid envelope operations t stats failed v in
      let (named, typed, error) =
        answers_to env codec reads uuid envelope operations t stats failed v in
      let same =
        handed_over-types thread_no t (request_of uuid envelope ms) w v operations earlier
          manipulations returned last in
      (
        asked,
        arrived,
        (
          stats',
          _,
          called,
          ap (λ o. reply envelope o ∷ close_transaction t ∷ v.trace)
              (ap (λ r. codec.frame.serialize (answer_frame codec r)) (sym content)
                ∙ sent.frame.written),
        ),
        did_receive_message-answer_frame codec sent [],
        rw content named,
        rw content (typed ∙ answered-types failed operations (keep_if is_decoded ms) same),
        rw content error,
      )
