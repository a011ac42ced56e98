-- ===== src/Http/Context.antt =====
-- src/HTTP/HttpContext.cpp: the parser of requests, a state machine that is resumed as bytes arrive.
pub mod Lines
pub mod Scan
pub mod Resume
pub mod Parse
pub mod Correct
pub mod Pieces
pub mod EmptyBody
