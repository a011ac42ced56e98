-- ===== src/Registry.antt =====
-- src/Gateway/ServiceRegistry.cpp and include/ServiceRegistry/ServiceInstance.h: the gateway's view
-- of the services in Redis. What Redis answers is an input.
use echo_net.Base.{
  ℕ, ◌+◌, ◌-◌, ◌%◌, ◌^◌, List, [], ◌∷◌, ◌++◌, Bool, true, false, Option, none, some, if◌then◌else◌,
  Text, bytes, length, drop, take, find_byte, to_string, stoi, ◌>>=◌,
}
pub mod Announce
pub mod Discovery

pub record ServiceInstance : Type 0 where
  pub service_name : Text
  pub instance_id : Text
  pub host : Text
  pub port : ℕ

-- `ServiceInstance::address`
unfoldable pub address : ServiceInstance → Text
address i = i.host ++ bytes ":" ++ to_string i.port

-- The answers of Redis to one refresh: whether there is a connection, the array of `KEYS`, if it is
-- one, and for a key the string of `GET`, if it is one.
pub record Redis : Type 0 where
  pub connected : Bool
  pub keys : Option (List Text)
  pub get : Text → Option Text

unfoldable pub prefix : Text → Text
prefix name = bytes "services:" ++ name ++ bytes ":"

-- The cast of an `int` to `uint16_t`.
unfoldable pub to_port : Bool × ℕ → ℕ
to_port (negative, n) = if negative then (2 ^ 16 - n % 2 ^ 16) % 2 ^ 16 else n % 2 ^ 16

-- The instance at an address with a colon at `pos`; `none` is an exception of `stoi`.
unfoldable pub instance_at : Text → Text → Text → Option ℕ → Option (List ServiceInstance)
unfolding stoi to_port prefix
instance_at name key addr none = some []
instance_at name key addr (some pos) = stoi (drop (pos + 1) addr) >>= λ n. some (
    record {
      service_name = name;
      instance_id = drop (length (prefix name)) key;
      host = take pos addr;
      port = to_port n;
    }
    ∷ [])

unfoldable pub read_value : Text → Text → Option Text → Option (List ServiceInstance)
unfolding instance_at
read_value name key none = some []
read_value name key (some addr) = instance_at name key addr (find_byte 58 addr)

-- The loop over the keys.
unfoldable pub read_keys : Text → (Text → Option Text) → List Text → Option (List ServiceInstance)
unfolding read_value
read_keys name get [] = some []
read_keys name get (key ∷ keys) = read_value name key (get key) >>= λ here.
    read_keys name get keys >>= λ rest. some (here ++ rest)

unfoldable pub replace_instances :
    Text → Redis → List ServiceInstance → Option (List Text) → Option (List ServiceInstance)
unfolding read_keys
replace_instances name redis old none = some old
replace_instances name redis old (some keys) = read_keys name redis.get keys

-- `Refresh`: the instances after it, or `none` where a port that is no number ends the thread with an
-- exception.
unfoldable pub refresh : Text → Redis → List ServiceInstance → Option (List ServiceInstance)
unfolding replace_instances
refresh name redis old =
    if redis.connected then replace_instances name redis old redis.keys else some old

-- `RefreshLoop`, with what each round sees: the stop before the sleep and after it, and Redis.
pub record Round : Type 0 where
  pub stopped_before : Bool
  pub stopped_after : Bool
  pub redis : Redis

unfoldable pub refresh_loop :
    Text → List Round → List ServiceInstance → Option (List ServiceInstance)
unfolding refresh
refresh_loop name [] old = some old
refresh_loop name (r ∷ rs) old =
    if r.stopped_before
    then some old
    else if r.stopped_after
    then some old
    else refresh name r.redis old >>= λ new. refresh_loop name rs new
