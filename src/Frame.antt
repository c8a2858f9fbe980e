-- ===== src/Frame.antt =====
-- volodb-common/Frame: operations packed into frames, and frames taken apart.
pub mod Utils
pub mod Builder
pub mod Decoder
pub mod Classes
pub mod Items
