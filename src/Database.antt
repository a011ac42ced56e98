-- ===== src/Database.antt =====
-- The pools of database connections. A connection is a number, given in the order in which they are
-- opened; what the client libraries answer is an input.
pub mod MysqlPool
pub mod RedisPool
pub mod Users
pub mod Accounts
