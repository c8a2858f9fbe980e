-- ===== src/Client.antt =====
-- volodb-client: how a client sends its operations.
pub mod Executor
pub mod Answers
pub mod RoundTrip
pub mod Transport
