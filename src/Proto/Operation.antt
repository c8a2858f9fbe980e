-- ===== src/Proto/Operation.antt =====
-- volodb-common/ProtoBuf/Operation.pb.h, DefinitionOperation.pb.h, ManipulationOperations.pb.h:
-- the operations that a client can ask for.
use volo_db.Prelude.{Text, List}
use volo_db.Proto.Column.{ColumnInfo, ColumnValue}

pub record StoreInfo : Type 0 where
  pub store_name : Text

pub record CreateDatabaseOperation : Type 0 where
  pub database_name : Text

pub record DropDatabaseOperation : Type 0 where
  pub database_name : Text

pub record CreateStoreOperation : Type 0 where
  pub store_info : StoreInfo
  pub column : List ColumnInfo

pub record DropStoreOperation : Type 0 where
  pub store_info : StoreInfo

pub record SetOperation : Type 0 where
  pub store_info : List StoreInfo
  pub primary_key : List ColumnValue
  pub value : List ColumnValue

pub record DeleteOperation : Type 0 where
  pub store_info : List StoreInfo
  pub primary_key : List ColumnValue

pub record GetOperation : Type 0 where
  pub store_info : List StoreInfo
  pub primary_key : List ColumnValue
  pub value : List ColumnValue
