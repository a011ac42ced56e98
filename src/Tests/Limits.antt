-- ===== src/Tests/Limits.antt =====
-- The token bucket at a concrete input, on whole numbers: a token in each nanosecond, two at most.
use echo_net.Base.{ℕ, ◌+◌, ◌-◌, ◌*◌, ◌≡◌, leb, min, List, [], ◌∷◌, none, bytes}
use echo_net.RateLimit.TokenBucket.{Double, new_bucket, try_acquire}
use echo_net.RateLimit.Keys.{Event, acquires, removes, run, level, alone, keys_apart}

abbrev whole : Double
whole = record {
  R = ℕ;
  one = 1;
  add = ◌+◌;
  sub = ◌-◌;
  mul = ◌*◌;
  min = min;
  at_least = λ a b. leb b a;
  seconds = λ n. n;
}

abbrev calls : List Event
calls =
    acquires (bytes "a") 0 0
    ∷ acquires (bytes "b") 0 0
    ∷ acquires (bytes "a") 0 0
    ∷ removes (bytes "b")
    ∷ acquires (bytes "a") 0 0
    ∷ []

keys_apart_example :
    (try_acquire whole (bytes "a") 1 1 (run whole (new_bucket whole 1 2) calls)).0
    ≡ whole.at_least (level whole 1 2 1 1 (alone whole 1 2 (bytes "a") none calls)) 1
keys_apart_example = keys_apart whole 1 2 calls (bytes "a") 1 1
