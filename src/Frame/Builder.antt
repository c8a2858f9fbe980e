-- ===== src/Frame/Builder.antt =====
-- volodb-common/Frame/FrameBuilder.cpp. The builder's state is its `_frame`.
use volo_db.Prelude.{
  Text, Bool, Option, none, some, [], ◌∷◌, ◌++◌, codes, get_or, is_some, if◌then◌else◌,
}
use volo_db.Prelude.Outcome.{Outcome, ok, throw, ◌>>=◌}
use volo_db.Proto.Frame.{Frame, FrameItem, none_type}
use volo_db.Proto.Wire.{
  Codec, Message, type_name, create_database_operation, drop_database_operation,
  create_store_operation, drop_store_operation, set_operation, delete_operation, get_operation,
  result, unframed,
}
use volo_db.Frame.Utils.{get_frame_type, is_type}

-- The constructor: an atomic frame carries the identifier of the whole transaction.
unfoldable pub frame_builder : Bool → Text → Frame
frame_builder is_atomic uuid = record {
  identifier = if is_atomic then some uuid else none;
  item = [];
}

unfoldable pub get_identifier : Frame → Text
get_identifier frame = get_or [] frame.identifier

module _ (codec : Codec) where
  -- Message::SerializeToString, on the dynamic type of the message.
  unfoldable pub serialize : Message → Option Text
  serialize (create_database_operation m) = codec.create_database.serialize m
  serialize (drop_database_operation m) = codec.drop_database.serialize m
  serialize (create_store_operation m) = codec.create_store.serialize m
  serialize (drop_store_operation m) = codec.drop_store.serialize m
  serialize (set_operation m) = codec.set.serialize m
  serialize (delete_operation m) = codec.delete.serialize m
  serialize (get_operation m) = codec.get.serialize m
  serialize (result m) = codec.result.serialize m
  serialize (unframed m) = none

  -- Returns the frame with the item, and the item's identifier. The result of SerializeToString is
  -- not looked at: where it fails the item's data is empty.
  unfoldable pub add_frame : Frame → Message → Text → Outcome (Frame × Text)
  unfolding serialize
  add_frame frame message uuid =
      let message_type = get_frame_type message in
      let item_identifier = if is_some frame.identifier then none else some uuid in
      let frame_item : FrameItem = record {
        type = message_type;
        data_bytes = get_or [] (serialize message);
        identifier = item_identifier;
      } in
      if is_type message_type none_type
      then throw (codes (type_name message) ++ codes " message is not supported to be framed")
      else ok (record frame { item = frame.item ++ frame_item ∷ [] }, get_or [] item_identifier)

  unfoldable pub get_bytes : Frame → Option Text
  get_bytes frame = codec.frame.serialize frame

  -- The bytes, and the identifier, which the new builder leaves empty.
  unfoldable pub get_bytes_of_frame_with_message : Message → Outcome (Option Text × Text)
  unfolding add_frame get_bytes frame_builder get_identifier
  get_bytes_of_frame_with_message message = do
    added ← add_frame (frame_builder Bool.false []) message []
    ok (get_bytes added.0, get_identifier added.0)
