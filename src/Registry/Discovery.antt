-- ===== src/Registry/Discovery.antt =====
-- What the chat services register is what the gateway finds.
use echo_net.Base.{
  if◌then◌else◌, ℕ, ◌+◌, ◌%◌, ◌^◌, ◌<◌, ◌≡◌, refl, ap, List, [], ◌∷◌, ◌++◌, Bool, true, false,
  Option, some, arith, Text, bytes, find_byte, to_string, stoi, map, decimal-Digits, stoi-Digits,
}
use mathlib.Core.List.{Memᴰ}
use mathlib.Core.List.Memᴰ.{head, tail}
use echo_net.Registry.{
  ServiceInstance, address, Redis, prefix, to_port, instance_at, read_value, read_keys,
  replace_instances, refresh,
}
use echo_net.Registry.Announce.{service_name, own_host, service_key, service_value}

-- The chat service at a port, as the gateway is to see it.
unfoldable pub node : ℕ → ServiceInstance
unfolding service_name own_host
node port = record {
  service_name = service_name;
  instance_id = bytes "node-" ++ to_string port;
  host = own_host;
  port = port;
}

stoi-to_string : (n : ℕ) → n < 2 ^ 16 → stoi (to_string n) ≡ some (false, n)
unfolding to_string
stoi-to_string n h =
    stoi-Digits n (to_string n) (omega arith) (decimal-Digits (n + 1) n (omega arith))

mod_small : (n : ℕ) → n < 2 ^ 16 → n % 2 ^ 16 ≡ n
mod_small n h = omega arith

read_value-node :
    (port : ℕ)
    → port < 2 ^ 16
    → read_value service_name (service_key port) (some (service_value port)) ≡ some (node port ∷ [])
unfolding read_value instance_at service_name own_host service_key service_value node prefix to_port
    find_byte
read_value-node port h = rw (stoi-to_string port h, mod_small port h) refl

read_keys-node :
    (get : Text → Option Text) (ports : List ℕ)
    → ((port : ℕ) → Memᴰ port ports → port < 2 ^ 16)
    → ((port : ℕ) → Memᴰ port ports → get (service_key port) ≡ some (service_value port))
    → read_keys service_name get (map service_key ports) ≡ some (map node ports)
unfolding read_keys
read_keys-node get [] small stored = refl
read_keys-node get (port ∷ ports) small stored =
    rw
      (
        stored port (head refl),
        read_value-node port (small port (head refl)),
        read_keys-node get ports (λ p m. small p (tail m)) (λ p m. stored p (tail m)),
      )
      refl

-- The address of an instance is the value that it registered.
address-node : (port : ℕ) → address (node port) ≡ service_value port
unfolding address node service_value own_host
address-node port = refl

addresses : (ports : List ℕ) → map address (map node ports) ≡ map service_value ports
addresses [] = refl
addresses (port ∷ ports) = rw (address-node port) (ap (◌∷◌ (service_value port)) (addresses ports))

-- Where Redis can be reached, lists the keys of the chat services at these ports of 16 bits and
-- answers each with the value that was stored, a refresh finds exactly these services, each with
-- its id, its host and its port, and their addresses are the stored values.
pub refresh-node :
    (redis : Redis) (ports : List ℕ) (old : List ServiceInstance)
    → redis.connected ≡ true
    → redis.keys ≡ some (map service_key ports)
    → ((port : ℕ) → Memᴰ port ports → port < 2 ^ 16)
    → ((port : ℕ) → Memᴰ port ports → redis.get (service_key port) ≡ some (service_value port))
    → (refresh service_name redis old ≡ some (map node ports))
      × (map address (map node ports) ≡ map service_value ports)
unfolding refresh replace_instances
refresh-node redis ports old up listed small stored =
    (on_reply redis.connected redis.keys up listed, addresses ports)
  where
    on_reply :
        (b : Bool) (k : Option (List Text))
        → b ≡ true
        → k ≡ some (map service_key ports)
        → (if b then replace_instances service_name redis old k else some old)
          ≡ some (map node ports)
    on_reply b k e f = rw (e, f) (read_keys-node redis.get ports small stored)
