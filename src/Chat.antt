-- ===== src/Chat.antt =====
-- src/ChatService/ChatService.cpp: the chat service, with its sessions (include/Session/Session.h).
pub mod State
pub mod Writer
pub mod Login
pub mod Rooms
pub mod Talk
pub mod Service
pub mod Responses
pub mod Answered
pub mod Consistent
pub mod Changes
pub mod History
pub mod Delivery
pub mod Bounds
pub mod Counters
pub mod Stale
