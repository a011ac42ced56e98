-- ===== src/Tests.antt =====
-- The theorems at concrete inputs of the code.
mod Wire
mod Web
mod Pool
mod Balancer
mod Link
mod Talk
mod Loops
mod Discovery
mod Latin
mod Desktop
mod Log
mod Storage
mod Limits
mod Shutdown
