-- ===== src/Frame/Decoder.antt =====
-- volodb-common/Frame/FrameDecoder.cpp. A ZeroMQ message is its bytes. Log lines are left out.
use mathlib.Core.Option
use volo_db.Prelude.{
  Text, Option, none, some, List, [], ◌∷◌, ◌++◌, map, get_or, is_some, if◌then◌else◌,
}
use volo_db.Proto.Frame.{
  Frame, FrameItem, FrameItemType, none_type, create_database, drop_database, create_store,
  drop_store, set, get, delete, server_response,
}
use volo_db.Proto.Wire.{
  Codec, Message, create_store_operation, drop_store_operation, set_operation, delete_operation,
  get_operation, result,
}

-- FrameMessagesTuple: the transaction's identifier, the envelope to answer to, the messages.
pub record FrameMessagesTuple : Type 0 where
  pub id : Text
  pub envelope : Text
  pub messages : List Message

-- getID, which no other function calls.
unfoldable pub get_id : Frame → FrameItem → Text
get_id frame frame_item =
    if is_some frame_item.identifier
    then get_or [] frame_item.identifier
    else get_or [] frame.identifier

module _ (codec : Codec) where
  -- The chain of tests on the item's type: the parsed message, or none where `parseResult` is false.
  -- There is no branch for the types NONE, CREATE_DATABASE and DROP_DATABASE.
  unfoldable pub decode_item : FrameItemType → Text → Option Message
  decode_item create_store bytes =
      Option.map create_store_operation (codec.create_store.parse bytes)
  decode_item drop_store bytes = Option.map drop_store_operation (codec.drop_store.parse bytes)
  decode_item server_response bytes = Option.map result (codec.result.parse bytes)
  decode_item set bytes = Option.map set_operation (codec.set.parse bytes)
  decode_item delete bytes = Option.map delete_operation (codec.delete.parse bytes)
  decode_item get bytes = Option.map get_operation (codec.get.parse bytes)
  decode_item none_type bytes = none
  decode_item create_database bytes = none
  decode_item drop_database bytes = none

  -- The loop over the items of an atomic frame: what it adds to the messages of the one tuple.
  unfoldable pub decode_atomic_items : List FrameItem → List Message
  unfolding decode_item
  decode_atomic_items [] = []
  decode_atomic_items (item ∷ items) =
      let rest = decode_atomic_items items in
      elim (decode_item item.type item.data_bytes) [ none ↦ rest | some message ↦ message ∷ rest ]

  -- The loop over the items of another frame: a tuple for each item, left empty where the item is
  -- not decoded.
  unfoldable pub decode_single_items : Text → List FrameItem → List FrameMessagesTuple
  unfolding decode_item
  decode_single_items envelope [] = []
  decode_single_items envelope (item ∷ items) =
      let rest = decode_single_items envelope items in
      elim (decode_item item.type item.data_bytes) [
        | none ↦ record { id = []; envelope = envelope; messages = [] } ∷ rest
        | some message ↦
            record { id = get_or [] item.identifier; envelope = envelope; messages = message ∷ [] }
            ∷ rest
      ]

  unfoldable pub decode_frame : Text → Frame → List FrameMessagesTuple
  unfolding decode_atomic_items decode_single_items
  decode_frame envelope frame = elim frame.identifier [
    | some id ↦
        record { id = id; envelope = envelope; messages = decode_atomic_items frame.item } ∷ []
    | none ↦ decode_single_items envelope frame.item
  ]

  -- decode(message, identifier): a message that does not parse is ignored. With no identifier the
  -- tuples' envelopes stay empty.
  unfoldable pub decode : Text → Option Text → List FrameMessagesTuple
  unfolding decode_frame
  decode message identifier = elim (codec.frame.parse message) [
    | none ↦ []
    | some frame ↦ decode_frame (get_or [] identifier) frame
  ]

  -- decode(messages, true): envelopes and messages alternate. `none` is the read of messages[i+1]
  -- past the end, which has no defined result.
  unfoldable pub decode_with_identifiers : List Text → Option (List FrameMessagesTuple)
  unfolding decode
  decode_with_identifiers [] = some []
  decode_with_identifiers (identifier ∷ []) = none
  decode_with_identifiers (identifier ∷ message ∷ messages) =
      Option.map (λ rest. decode message (some identifier) ++ rest)
        (decode_with_identifiers messages)

  -- decode(messages, false).
  unfoldable pub decode_all : List Text → List FrameMessagesTuple
  unfolding decode
  decode_all [] = []
  decode_all (message ∷ messages) = decode message none ++ decode_all messages

unfoldable pub flatten_frame_messages_tuple_list : List FrameMessagesTuple → List (List Message)
flatten_frame_messages_tuple_list = map (λ t. t.messages)

unfoldable pub flatten_frame_messages_tuple_list_to_single_list :
    List FrameMessagesTuple → List Message
flatten_frame_messages_tuple_list_to_single_list [] = []
flatten_frame_messages_tuple_list_to_single_list (t ∷ ts) =
    let rest = flatten_frame_messages_tuple_list_to_single_list ts in
    elim t.messages [ [] ↦ rest | message ∷ _ ↦ message ∷ rest ]
