-- ===== src/Frame/Classes.antt =====
-- volodb-common/Frame/FrameUtils.cpp and the two ends of a frame item: the classes of messages.
use volo_db.Prelude.{◌≡◌, refl, Bool, true, false}
use volo_db.Proto.Frame.{
  FrameItemType, none_type, create_database, drop_database, create_store, drop_store, set, get,
  delete, server_response,
}
use volo_db.Proto.Wire.{
  Message, Unframed, create_database_operation, drop_database_operation, create_store_operation,
  drop_store_operation, set_operation, delete_operation, get_operation, result, unframed,
}
use volo_db.Frame.Utils.{get_frame_type, is_definition_frame}

-- The item type of a message, by its class.
abbrev pub class_type : Message → FrameItemType
class_type (create_database_operation m) = create_database
class_type (drop_database_operation m) = drop_database
class_type (create_store_operation m) = create_store
class_type (drop_store_operation m) = drop_store
class_type (set_operation m) = set
class_type (delete_operation m) = delete
class_type (get_operation m) = get
class_type (result m) = server_response
class_type (unframed m) = none_type

unframed-type : (m : Unframed) → get_frame_type (unframed m) ≡ none_type
unfolding get_frame_type
unframed-type Unframed.column = refl
unframed-type _ = refl

-- The comparison of type names finds the item type of the message's class.
pub get_frame_type-class_type : (m : Message) → get_frame_type m ≡ class_type m
unfolding get_frame_type
get_frame_type-class_type (unframed m) = unframed-type m
get_frame_type-class_type (create_database_operation m) = refl
get_frame_type-class_type _ = refl

-- The definition operations: those on databases and on stores.
abbrev pub is_definition : Message → Bool
is_definition (create_database_operation m) = true
is_definition (drop_database_operation m) = true
is_definition (create_store_operation m) = true
is_definition (drop_store_operation m) = true
is_definition _ = false

pub is_definition_frame-is_definition : (m : Message) → is_definition_frame m ≡ is_definition m
unfolding is_definition_frame
is_definition_frame-is_definition (create_database_operation m) = refl
is_definition_frame-is_definition (unframed Unframed.column) = refl
is_definition_frame-is_definition (unframed _) = refl
is_definition_frame-is_definition _ = refl

-- What the decoder has a branch for.
abbrev pub is_decoded : Message → Bool
is_decoded (create_database_operation m) = false
is_decoded (drop_database_operation m) = false
is_decoded (unframed m) = false
is_decoded _ = true
