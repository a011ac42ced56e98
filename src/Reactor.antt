-- ===== src/Reactor.antt =====
-- The reactor: include/Reactor and src/Reactor.
pub mod Channel
pub mod Acceptor
pub mod EventLoop
pub mod Callbacks
