-- ===== src/Proto/Result.antt =====
-- volodb-common/ProtoBuf/Result.pb.h: what the server answers.
use volo_db.Prelude.{ℤ, Text, List, Option}
use volo_db.Proto.Column.{ColumnValue}
use volo_db.Proto.Frame.{FrameItemType}

pub record Row : Type 0 where
  pub column : List ColumnValue

pub record OperationResult : Type 0 where
  pub row : List Row
  pub type : FrameItemType

pub record Result : Type 0 where
  pub transaction_identifier : Text
  pub result : List OperationResult
  pub error_code : Option ℤ
  pub error_description : Option Text
