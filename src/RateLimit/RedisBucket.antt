-- ===== src/RateLimit/RedisBucket.antt =====
-- `RedisTokenBucket`, around the script that Redis runs: what the pool and Redis answer is an input.
use echo_net.Base.{Bool, true, false, ℕ, ◌==◌, List, [], ◌∷◌, Text}

-- The reply to the script: none, an integer, or something else.
pub data Reply : Type 0 where
  no_reply other_reply : Reply
  integer : ℕ → Reply

-- Only the integer 1 lets a request pass.
unfoldable pub allows : Reply → Bool
allows no_reply = false
allows other_reply = false
allows (integer n) = n == 1

-- `RedisTokenBucket::tryAcquire`: without a connection every request passes.
unfoldable pub try_acquire_redis : Bool → Reply → Bool
unfolding allows
try_acquire_redis false reply = true
try_acquire_redis true reply = allows reply

-- `RedisTokenBucket::removeKey`: the keys that are deleted. The key of the time, `key:t`, is not.
unfoldable pub remove_key_redis : Bool → Text → List Text
remove_key_redis false key = []
remove_key_redis true key = key ∷ []
