-- ===== src/Net/Connection.antt =====
-- include/Net/Connection.h and src/Net/Connection.cpp: one TCP connection, its task queue, its send
-- queue and its closing.
pub mod State
pub mod Close
pub mod Tasks
pub mod Send
pub mod Read
pub mod Events
pub mod Chat
