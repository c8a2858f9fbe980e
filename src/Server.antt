-- ===== src/Server.antt =====
-- volodbserver: the server, from the requests that a transport thread decodes to the calls of NDB.
pub mod Ndb
pub mod Cache
pub mod Processor
pub mod Executor
pub mod Store
pub mod Transport
pub mod Program
pub mod Stats
