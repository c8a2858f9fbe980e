-- ===== src/Columns.antt =====
-- volodb-common/AttributeUtils: the typed values of columns as bytes.
pub mod Memory
pub mod Builder
pub mod Decoder
pub mod RoundTrip
pub mod Texts
