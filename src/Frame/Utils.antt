-- ===== src/Frame/Utils.antt =====
-- volodb-common/Frame/FrameUtils.cpp.
use text.Mathlib.Text.{◌==◌}
use volo_db.Prelude.{Bool, true, false, ◌||◌, if◌then◌else◌}
use volo_db.Proto.Frame.{
  FrameItemType, none_type, create_database, drop_database, create_store, drop_store, set, get,
  delete, server_response,
}
use volo_db.Proto.Wire.{Message, type_name}

unfoldable pub get_frame_type : Message → FrameItemType
unfolding type_name
get_frame_type message =
    let name = type_name message in
    if name == "CreateDatabaseOperation"
    then create_database
    else if name == "DropDatabaseOperation"
    then drop_database
    else if name == "CreateStoreOperation"
    then create_store
    else if name == "DropStoreOperation"
    then drop_store
    else if name == "SetOperation"
    then set
    else if name == "DeleteOperation"
    then delete
    else if name == "GetOperation"
    then get
    else if name == "Result"
    then server_response
    else none_type

-- `==` of the enumeration.
unfoldable pub is_type : FrameItemType → FrameItemType → Bool
is_type none_type none_type = true
is_type create_database create_database = true
is_type drop_database drop_database = true
is_type create_store create_store = true
is_type drop_store drop_store = true
is_type set set = true
is_type get get = true
is_type delete delete = true
is_type server_response server_response = true
is_type _ _ = false

unfoldable pub is_definition_frame : Message → Bool
unfolding get_frame_type is_type
is_definition_frame message =
    let type = get_frame_type message in
    is_type type create_database
    || is_type type drop_database
    || is_type type create_store
    || is_type type drop_store
