-- ===== src/Gateway.antt =====
-- src/gateway_main.cpp: the state of the gateway, its message handler and its background threads.
-- A connection is a number. Each critical section, and each pass of a background thread, is a step;
-- what is handed to connections comes back as a list of sends.
pub mod State
pub mod Pick
pub mod Handler
pub mod Threads
pub mod Balance
pub mod Requests
pub mod Accounts
pub mod Upkeep
pub mod Expiry
pub mod Choice
pub mod Sweep
pub mod Connect
