-- ===== src/Registry/Announce.antt =====
-- `registerToRedis` and `heartbeatLoop` of src/ChatService/ChatService.cpp: how a chat service tells
-- that it is there.
use echo_net.Base.{ℕ, List, [], ◌∷◌, ◌++◌, Bool, if◌then◌else◌, Text, bytes, to_string}

-- A `SET` with its key, its value and the seconds until it expires.
pub record SetCommand : Type 0 where
  pub key : Text
  pub value : Text
  pub expires : ℕ

-- `service_name_` and `host_`
unfoldable pub service_name : Text
service_name = bytes "chat_service"

unfoldable pub own_host : Text
own_host = bytes "127.0.0.1"

unfoldable pub service_key : ℕ → Text
unfolding service_name
service_key port =
    bytes "services:" ++ service_name ++ bytes ":" ++ (bytes "node-" ++ to_string port)

unfoldable pub service_value : ℕ → Text
unfolding own_host
service_value port = own_host ++ bytes ":" ++ to_string port

-- `registerToRedis`, where the pool may have no connection.
unfoldable pub register_to_redis : Bool → ℕ → List SetCommand
unfolding service_key service_value
register_to_redis connected port =
    if connected
    then record { key = service_key port; value = service_value port; expires = 10 } ∷ []
    else []

-- What a round of `heartbeatLoop` sees: the stop before the sleep and after it, and the pool.
pub record Beat : Type 0 where
  pub stopped_before : Bool
  pub stopped_after : Bool
  pub connected : Bool

unfoldable pub heartbeat_loop : ℕ → List Beat → List SetCommand
unfolding register_to_redis
heartbeat_loop port [] = []
heartbeat_loop port (b ∷ bs) =
    let rest = heartbeat_loop port bs in
    if b.stopped_before
    then []
    else if b.stopped_after
    then []
    else register_to_redis b.connected port ++ rest
