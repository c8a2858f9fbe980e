-- ===== src/Server/Store.antt =====
-- volodbserver/Store/Store.cpp and volodbserver/Utils: what joins the processor and the executors.
pub mod Receive
pub mod Monitor
pub mod Life
pub mod Startup
pub mod Threads
