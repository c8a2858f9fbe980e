-- ===== src/Client/Answers.antt =====
-- volodb-client/Executor/Executor.cpp, didReceiveMessage, against the answers that the server sends.
use volo_db.Prelude.{◌≡◌, refl, true, none, some, List, [], ◌∷◌, map, ap}
use volo_db.Proto.Result.{Result}
use volo_db.Proto.Wire.{Codec, result}
use volo_db.Frame.Decoder.{
  FrameMessagesTuple, decode, decode_all, flatten_frame_messages_tuple_list_to_single_list,
  decode_item, decode_single_items, decode_frame,
}
use volo_db.Frame.Items.{Writes}
use volo_db.Client.Executor.{results_of, did_receive_message}
use volo_db.Server.Executor.Reply.{answer_frame}

module _ (codec : Codec) where
  -- A result that the server answers with, which the runtime writes within its limits.
  pub record Sent : Type 0 where
    pub content : Result
    pub item : Writes codec.result content
    pub frame : Writes codec.frame (answer_frame codec content)

  arrived : Sent → FrameMessagesTuple
  arrived sent = record { id = []; envelope = []; messages = result sent.content ∷ [] }

  decode-answer_frame : (sent : Sent) → decode codec sent.frame.bytes none ≡ arrived sent ∷ []
  unfolding decode decode_frame decode_single_items decode_item arrived
  decode-answer_frame sent = rw (
    codec.frame.parse-serialize _ sent.frame.bytes sent.frame.written sent.frame.short,
    decode,
    sent.item.written,
    decode_single_items,
    codec.result.parse-serialize sent.content sent.item.bytes sent.item.written sent.item.short,
  )

  decode_all-answers :
      (answers : List Sent)
      → decode_all codec (map (λ s. s.frame.bytes) answers) ≡ map arrived answers
  unfolding decode_all
  decode_all-answers [] = refl
  decode_all-answers (sent ∷ answers) = rw (decode-answer_frame sent, decode_all-answers answers)

  results_of-answers :
      (answers : List Sent)
      → results_of true (flatten_frame_messages_tuple_list_to_single_list (map arrived answers))
        ≡ map (λ s. s.content) answers
  unfolding results_of arrived flatten_frame_messages_tuple_list_to_single_list
  results_of-answers [] = refl
  results_of-answers (sent ∷ answers) = ap (◌∷◌ sent.content) (results_of-answers answers)

  -- A client with a delegate that takes at least one answer from its socket hands the delegate the
  -- results that the server answered with, all of them and in order, whatever errors or rows they
  -- hold. It needs that the runtime wrote each result and its frame within its limits.
  pub did_receive_message-answer_frame :
      (first : Sent) (others : List Sent)
      → did_receive_message codec true (map (λ s. s.frame.bytes) (first ∷ others))
        ≡ some (first.content ∷ map (λ s. s.content) others)
  unfolding did_receive_message
  did_receive_message-answer_frame first others = rw (
    did_receive_message,
    decode_all-answers (first ∷ others),
    results_of-answers (first ∷ others),
  )
