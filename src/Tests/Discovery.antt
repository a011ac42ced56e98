-- ===== src/Tests/Discovery.antt =====
-- Two chat services and the gateway's registry.
use echo_net.Base.{
  ℕ, ◌^◌, ◌<◌, ◌≡◌, refl, sym, subst, List, [], ◌∷◌, true, none, some, arith, map, if◌then◌else◌,
  same_text, to_string,
}
use mathlib.Core.List.{Memᴰ}
use mathlib.Core.List.Memᴰ.{head, tail}
use echo_net.Registry.{Redis, refresh, address}
use echo_net.Registry.Announce.{service_name, service_key, service_value}
use echo_net.Registry.Discovery.{node, refresh-node}

abbrev ports : List ℕ
ports = 9001 ∷ 9002 ∷ []

abbrev answers : Redis
answers = record {
  connected = true;
  keys = some (map service_key ports);
  get = λ key.
      if same_text key (service_key 9001)
      then some (service_value 9001)
      else if same_text key (service_key 9002)
      then some (service_value 9002)
      else none;
}

-- What holds of both ports holds of every port.
each_port : (P : ℕ → Type 0) → P 9001 → P 9002 → (port : ℕ) → Memᴰ port ports → P port
each_port P a b port (head e) = subst P (sym e) a
each_port P a b port (tail (head e)) = subst P (sym e) b
each_port P a b port (tail (tail m)) = elim m [ ]

refresh-node_example :
    (refresh service_name answers [] ≡ some (map node ports))
    × (map address (map node ports) ≡ map service_value ports)
unfolding same_text service_key to_string service_name
refresh-node_example =
    refresh-node answers ports [] refl refl
      (each_port (λ p. p < 2 ^ 16) (omega arith) (omega arith))
      (each_port (λ p. answers.get (service_key p) ≡ some (service_value p)) refl refl)
