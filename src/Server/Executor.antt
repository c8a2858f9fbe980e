-- ===== src/Server/Executor.antt =====
-- volodbserver/Store/NDBMessageExecutor.cpp: what an executor thread does with its requests.
pub mod Sql
pub mod Reply
pub mod Definitions
pub mod Operations
pub mod Transaction
pub mod Callback
pub mod Batch
