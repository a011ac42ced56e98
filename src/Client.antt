-- ===== src/Client.antt =====
-- The Qt client (QT/chatwindow.cpp, QT/loginwindow.cpp): its packets, its frames, its two windows,
-- and what it and the server make of each other's messages.
pub mod Qt
pub mod Texts
pub mod Packet
pub mod Frames
pub mod Window
pub mod LoginWindow
pub mod Receive
pub mod Login
pub mod Broadcast
pub mod Rooms
pub mod Answer
pub mod Session
