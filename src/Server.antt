-- ===== src/Server.antt =====
-- The end of the server: `Server::stop` (src/Server/Server.cpp) over the worker threads and the event
-- loops.
pub mod Stopping
pub mod Grown
pub mod Fresh
pub mod Quiet
