-- ===== src/Gateway/State.antt =====
-- `PendingRequest` and `GatewayState`.
use echo_net.Base.{ℕ, List, [], Bool, Text, ◌==◌, ◌||◌, ◌∷◌, false, same_text}
use echo_net.Protocol.MyProtocol.Message.{Message}

-- The client is held by a `weak_ptr`: whether it is alive is asked when it is used.
pub record PendingRequest : Type 0 where
  pub client : ℕ
  pub original_id : ℕ
  pub created_at : ℕ

-- `request_count` is a `uint64_t`, `fd` is that of the connection's channel.
pub record Backend : Type 0 where
  pub addr : Text
  pub conn : ℕ
  pub fd : ℕ
  pub last_pong_ms : ℕ
  pub healthy : Bool
  pub request_count : ℕ

-- Each counter is a `uint64_t`.
pub record Metrics : Type 0 where
  pub total_requests : ℕ
  pub forwarded : ℕ
  pub no_backend : ℕ
  pub backend_responses : ℕ
  pub pending_timeouts : ℕ
  pub unknown_responses : ℕ
  pub dropped_client_gone : ℕ

pub record Gateway : Type 0 where
  pub backends : List Backend
  pub pending : List (ℕ × PendingRequest)
  pub next_new_id : ℕ
  pub rr_index : ℕ
  pub backend_fds : List ℕ
  pub metrics : Metrics

unfoldable pub new_gateway : Gateway
new_gateway = record {
  backends = [];
  pending = [];
  next_new_id = 1;
  rr_index = 0;
  backend_fds = [];
  metrics = record {
    total_requests = 0;
    forwarded = 0;
    no_backend = 0;
    backend_responses = 0;
    pending_timeouts = 0;
    unknown_responses = 0;
    dropped_client_gone = 0;
  };
}

-- A message handed to a connection by `sendResponse`.
pub record Sent : Type 0 where
  pub to : ℕ
  pub message : Message

unfoldable pub has_fd : List ℕ → ℕ → Bool
has_fd [] fd = false
has_fd (f ∷ fs) fd = f == fd || has_fd fs fd

unfoldable pub has_addr_in : List Backend → Text → Bool
has_addr_in [] a = false
has_addr_in (b ∷ bs) a = same_text b.addr a || has_addr_in bs a

-- `has_addr`
unfoldable pub has_addr : Gateway → Text → Bool
unfolding has_addr_in
has_addr g a = has_addr_in g.backends a
