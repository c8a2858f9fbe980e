-- ===== src/Proto/Column.antt =====
-- volodb-common/ProtoBuf/Column.pb.h: column types, the columns of a store, and column values.
use volo_db.Prelude.{ℕ, ℤ, Bool, Option, Text, List}

-- The enumerators of Column_Type, with the values of the NDB types.
pub data ColumnType : Type 0 where
  bool int32 uint32 int64 uint64 float double char varchar varbinary : ColumnType

unfoldable pub column_type_value : ColumnType → ℕ
column_type_value bool = 1
column_type_value int32 = 7
column_type_value uint32 = 8
column_type_value int64 = 9
column_type_value uint64 = 10
column_type_value float = 11
column_type_value double = 12
column_type_value char = 14
column_type_value varchar = 23
column_type_value varbinary = 24

pub record ColumnInfo : Type 0 where
  pub name : Text
  pub type : ColumnType
  pub primary_key : Option Bool
  pub distribution_key : Option Bool
  pub length : Option ℤ

pub record ColumnValue : Type 0 where
  pub name : Text
  pub type : Option ColumnType
  pub primary_key : Option Bool
  pub distribution_key : Option Bool
  pub value : List ℕ
