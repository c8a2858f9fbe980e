-- ===== src/Frame/Items.antt =====
-- FrameBuilder::addFrame against the branches of FrameDecoder::decode, one item at a time.
use volo_db.Prelude.{
  ◌≡◌, refl, ◌≤◌, Text, false, Option, none, some, [], ◌∷◌, ◌++◌, length, get_or, is_some,
  if◌then◌else◌,
}
use volo_db.Prelude.Outcome.{ok}
use volo_db.Proto.Frame.{Frame, FrameItem, none_type}
use volo_db.Proto.Wire.{
  Codec, Wire, Message, create_database_operation, drop_database_operation, create_store_operation,
  drop_store_operation, set_operation, delete_operation, get_operation, result, unframed,
}
use volo_db.Frame.Utils.{is_type}
use volo_db.Frame.Builder.{serialize, add_frame}
use volo_db.Frame.Decoder.{decode_item}
use volo_db.Frame.Classes.{class_type, get_frame_type-class_type, is_decoded}

-- The serialiser writes the message, in no more bytes than the parser takes.
pub record Writes {A : Type 0} (wire : Wire A) (a : A) : Type 0 where
  pub bytes : Text
  pub written : wire.serialize a ≡ some bytes
  pub short : length bytes ≤ wire.limit

read_back :
    {A : Type 0} (wire : Wire A) (a : A)
    → Writes wire a
    → wire.parse (get_or [] (wire.serialize a)) ≡ some a
read_back wire a h = rw h.written (wire.parse-serialize a h.bytes h.written h.short)

module _ (codec : Codec) where
  -- What is asked of a message: those that the decoder has no branch for may have any bytes.
  abbrev pub Fits : Message → Type 0
  Fits (create_store_operation m) = Writes codec.create_store m
  Fits (drop_store_operation m) = Writes codec.drop_store m
  Fits (set_operation m) = Writes codec.set m
  Fits (delete_operation m) = Writes codec.delete m
  Fits (get_operation m) = Writes codec.get m
  Fits (result m) = Writes codec.result m
  Fits (create_database_operation m) = Unit
  Fits (drop_database_operation m) = Unit
  Fits (unframed m) = ⊥

  -- The item that a message is packed in.
  abbrev pub item_of : Option Text → Message → FrameItem
  item_of identifier m = record {
    type = class_type m;
    data_bytes = get_or [] (serialize codec m);
    identifier = identifier;
  }

  framed : (m : Message) → Fits m → is_type (class_type m) none_type ≡ false
  unfolding is_type
  framed (unframed m) h = absurd h
  framed (create_database_operation m) h = refl
  framed _ h = refl

  -- Packing appends one item, which carries the identifier unless the frame does.
  pub add_frame-item_of :
      (frame : Frame) (m : Message) (uuid : Text)
      → Fits m
      → let identifier = if is_some frame.identifier then none else some uuid in
        add_frame codec frame m uuid
        ≡ ok (record frame { item = frame.item ++ item_of identifier m ∷ [] }, get_or [] identifier)
  unfolding add_frame
  add_frame-item_of frame m uuid h = rw (get_frame_type-class_type m, framed m h)

  -- The decoder finds in the item the message that was packed, or none if it has no branch for it.
  pub decode_item-item_of :
      (m : Message)
      → Fits m
      → decode_item codec (class_type m) (get_or [] (serialize codec m))
        ≡ (if is_decoded m then some m else none)
  unfolding decode_item serialize
  decode_item-item_of (create_store_operation m) h = rw (read_back codec.create_store m h)
  decode_item-item_of (drop_store_operation m) h = rw (read_back codec.drop_store m h)
  decode_item-item_of (set_operation m) h = rw (read_back codec.set m h)
  decode_item-item_of (delete_operation m) h = rw (read_back codec.delete m h)
  decode_item-item_of (get_operation m) h = rw (read_back codec.get m h)
  decode_item-item_of (result m) h = rw (read_back codec.result m h)
  decode_item-item_of (create_database_operation m) h = refl
  decode_item-item_of (drop_database_operation m) h = refl
  decode_item-item_of (unframed m) h = absurd h
