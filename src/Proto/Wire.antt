-- ===== src/Proto/Wire.antt =====
-- The messages as one type, and the protocol buffer runtime as a parameter: its serialiser and its
-- parser of each message class, with what its documentation promises of the two together.
use volo_db.Prelude.{ℕ, ◌≤◌, ◌≡◌, String, Text, Option, some, length}
use volo_db.Proto.Operation.{
  CreateDatabaseOperation, DropDatabaseOperation, CreateStoreOperation, DropStoreOperation,
  SetOperation, DeleteOperation, GetOperation,
}
use volo_db.Proto.Frame.{Frame}
use volo_db.Proto.Result.{Result}

-- The message classes of the protocol that no frame can hold.
pub data Unframed : Type 0 where
  column column_info column_value definition_opertion manipulation_operation : Unframed
  operation store_info row operation_result frame frame_item : Unframed

-- A `::google::protobuf::Message&` with its dynamic type; the fields of the last case are not read.
pub data Message : Type 0 where
  create_database_operation : CreateDatabaseOperation → Message
  drop_database_operation : DropDatabaseOperation → Message
  create_store_operation : CreateStoreOperation → Message
  drop_store_operation : DropStoreOperation → Message
  set_operation : SetOperation → Message
  delete_operation : DeleteOperation → Message
  get_operation : GetOperation → Message
  result : Result → Message
  unframed : Unframed → Message

-- Message::GetTypeName, which returns the name that the .proto file gives the message.
unfoldable pub type_name : Message → String
type_name (create_database_operation m) = "CreateDatabaseOperation"
type_name (drop_database_operation m) = "DropDatabaseOperation"
type_name (create_store_operation m) = "CreateStoreOperation"
type_name (drop_store_operation m) = "DropStoreOperation"
type_name (set_operation m) = "SetOperation"
type_name (delete_operation m) = "DeleteOperation"
type_name (get_operation m) = "GetOperation"
type_name (result m) = "Result"
type_name (unframed Unframed.column) = "Column"
type_name (unframed Unframed.column_info) = "ColumnInfo"
type_name (unframed Unframed.column_value) = "ColumnValue"
type_name (unframed Unframed.definition_opertion) = "DefinitionOpertion"
type_name (unframed Unframed.manipulation_operation) = "ManipulationOperation"
type_name (unframed Unframed.operation) = "Operation"
type_name (unframed Unframed.store_info) = "StoreInfo"
type_name (unframed Unframed.row) = "Row"
type_name (unframed Unframed.operation_result) = "OperationResult"
type_name (unframed Unframed.frame) = "Frame"
type_name (unframed Unframed.frame_item) = "FrameItem"

-- One message class. `serialize` is SerializeToString, none where it returns false; `parse` is
-- ParseFromString, none where it returns false. The parser reads back what the serialiser wrote,
-- as long as it is no longer than the parser's limit on a message.
pub record Wire (A : Type 0) : Type 0 where
  pub serialize : A → Option Text
  pub parse : Text → Option A
  pub limit : ℕ
  pub parse-serialize :
      (a : A) (bytes : Text)
      → serialize a ≡ some bytes
      → length bytes ≤ limit
      → parse bytes ≡ some a

-- The runtime, for every class that is written or read as a whole.
pub record Codec : Type 0 where
  pub create_database : Wire CreateDatabaseOperation
  pub drop_database : Wire DropDatabaseOperation
  pub create_store : Wire CreateStoreOperation
  pub drop_store : Wire DropStoreOperation
  pub set : Wire SetOperation
  pub delete : Wire DeleteOperation
  pub get : Wire GetOperation
  pub result : Wire Result
  pub frame : Wire Frame
