-- ===== src/Common.antt =====
-- volodb-common: the parts that are neither messages nor frames.
pub mod Dict
pub mod Numbers
pub mod Utils
pub mod Config
pub mod Logging
pub mod Tasks
