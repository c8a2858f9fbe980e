-- ===== src/Proto.antt =====
-- The protocol buffer messages of volodb-common/ProtoBuf, as the classes that the generated code
-- declares: a required field is a field, an optional one an Option, a repeated one a List.
pub mod Column
pub mod Operation
pub mod Result
pub mod Frame
pub mod Wire
