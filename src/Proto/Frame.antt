-- ===== src/Proto/Frame.antt =====
-- volodb-common/ProtoBuf/Frame.pb.h: a frame carries the operations of one request or transaction.
use volo_db.Prelude.{Text, List, Option}

-- The enumerators of FrameItem_Type; `none_type` is NONE.
pub data FrameItemType : Type 0 where
  none_type create_database drop_database create_store drop_store set get delete server_response :
      FrameItemType

pub record FrameItem : Type 0 where
  pub type : FrameItemType
  pub data_bytes : Text
  pub identifier : Option Text

pub record Frame : Type 0 where
  pub identifier : Option Text
  pub item : List FrameItem
