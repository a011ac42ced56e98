-- ===== src/RateLimit/TokenBucket.antt =====
-- `TokenBucket`. The numbers are `double`, whose operations are an interface; what they answer is not
-- looked into. A time is the reading of a clock that never goes back, in nanoseconds.
use echo_net.Base.{
  ℕ, ◌-◌, List, [], ◌∷◌, Bool, true, false, Option, none, some, Text, same_text, if◌then◌else◌,
}

-- What the limiter does with a `double`; `seconds` is a number of nanoseconds as seconds.
pub record Double : Type 1 where
  pub R : Type 0
  pub one : R
  pub add : R → R → R
  pub sub : R → R → R
  pub mul : R → R → R
  pub min : R → R → R
  pub at_least : R → R → Bool
  pub seconds : ℕ → R

pub record Bucket (d : Double) : Type 0 where
  pub tokens : d.R
  pub last_refill : ℕ

pub record TokenBucket (d : Double) : Type 0 where
  pub rate : d.R
  pub capacity : d.R
  pub buckets : List (Text × Bucket d)

module _ {V : Type 0} where
  unfoldable pub find_key : Text → List (Text × V) → Option V
  find_key k [] = none
  find_key k ((j, v) ∷ m) = if same_text j k then some v else find_key k m

  unfoldable pub put_key : Text → V → List (Text × V) → List (Text × V)
  put_key k v [] = (k, v) ∷ []
  put_key k v ((j, w) ∷ m) = if same_text j k then (k, v) ∷ m else (j, w) ∷ put_key k v m

  unfoldable pub erase_key : Text → List (Text × V) → List (Text × V)
  erase_key k [] = []
  erase_key k ((j, w) ∷ m) =
      let rest = erase_key k m in if same_text j k then rest else (j, w) ∷ rest

module _ (d : Double) where
  -- `refill`
  unfoldable pub refill : d.R → d.R → ℕ → Bucket d → Bucket d
  refill rate capacity now b =
      let elapsed = d.seconds (now - b.last_refill) in
      record { tokens = d.min capacity (d.add b.tokens (d.mul elapsed rate)); last_refill = now }

  -- A key that is new has a full bucket.
  unfoldable pub find_or_full : d.R → ℕ → Option (Bucket d) → Bucket d
  find_or_full capacity now none = record { tokens = capacity; last_refill = now }
  find_or_full capacity now (some b) = b

  -- One token is taken, if there is one.
  unfoldable pub take_token : Bucket d → Bool × Bucket d
  take_token b =
      if d.at_least b.tokens d.one
      then (true, record b { tokens = d.sub b.tokens d.one })
      else (false, b)

  -- What a call makes of the bucket of its key: the clock is read where a bucket is made, and again
  -- for the refill.
  unfoldable pub serve : d.R → d.R → ℕ → ℕ → Option (Bucket d) → Bool × Bucket d
  unfolding refill find_or_full take_token
  serve rate capacity made now o =
      take_token (refill rate capacity now (find_or_full capacity made o))

  -- `tryAcquire`
  unfoldable pub try_acquire : Text → ℕ → ℕ → TokenBucket d → Bool × TokenBucket d
  unfolding serve
  try_acquire key made now t =
      let (allowed, b) = serve t.rate t.capacity made now (find_key key t.buckets) in
      (allowed, record t { buckets = put_key key b t.buckets })

  -- `removeKey`
  unfoldable pub remove_key : Text → TokenBucket d → TokenBucket d
  remove_key key t = record t { buckets = erase_key key t.buckets }

  -- `TokenBucket::TokenBucket`
  unfoldable pub new_bucket : d.R → d.R → TokenBucket d
  new_bucket rate capacity = record { rate = rate; capacity = capacity; buckets = [] }
