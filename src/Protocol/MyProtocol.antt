-- ===== src/Protocol/MyProtocol.antt =====
-- include/Protocol/MyProtocol.h and src/Protocol/MyProtocol.cpp: the length-prefixed binary protocol,
-- | body length, 4 bytes | type, 2 bytes | request id, 4 bytes | payload |, in network byte order.
pub mod Bytes
pub mod Message
pub mod Parse
pub mod Frames
pub mod RoundTrip
pub mod Exchange
pub mod Stream
