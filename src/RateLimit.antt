-- ===== src/RateLimit.antt =====
-- The rate limiters: src/RateLimit/TokenBucket.cpp, and in RedisBucket src/RateLimit/RedisTokenBucket.cpp.
pub mod TokenBucket
pub mod RedisBucket
pub mod Keys
