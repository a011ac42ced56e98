-- ===== src/Gateway/Threads.antt =====
-- The background threads: one pass of the health check, of the clean-up of pending requests, of the
-- heartbeat, and of the monitor that follows the service registry.
use echo_net.Base.{
  ℕ, ◌+◌, ◌%◌, ◌^◌, ◌-◌, ◌/◌, List, [], ◌∷◌, ◌++◌, Bool, true, false, not, if◌then◌else◌, ◌==◌, ltb,
  length, map, Text, bytes, same_text, ◌||◌,
}
use echo_net.Protocol.MyProtocol.Message.{heartbeat_req, error_resp}
use echo_net.Gateway.State.{Gateway, Backend, PendingRequest, Sent, has_fd, has_addr}

-- The health check of one backend. `now_ms` is not earlier than a pong that was recorded.
unfoldable pub check_backend : ℕ → Backend → Backend
check_backend now_ms b =
    if b.last_pong_ms == 0
    then b
    else if ltb 15000 (now_ms - b.last_pong_ms)
    then record b { healthy = false }
    else record b { healthy = true }

unfoldable pub health_check : ℕ → Gateway → Gateway
unfolding check_backend
health_check now_ms g = record g { backends = map (check_backend now_ms) g.backends }

-- Whether a request has waited for more than 30 seconds.
unfoldable pub is_expired : ℕ → PendingRequest → Bool
is_expired now r = ltb 30 ((now - r.created_at) / 1000000000)

-- The requests that stay, and the living clients of those that do not, with their request ids.
unfoldable pub sweep :
    (ℕ → Bool) → ℕ → List (ℕ × PendingRequest) → List (ℕ × PendingRequest) × List (ℕ × ℕ)
sweep alive now [] = ([], [])
sweep alive now ((k, r) ∷ m) =
    let (stay, gone) = sweep alive now m in
    if is_expired now r
    then (stay, if alive r.client then (r.client, r.original_id) ∷ gone else gone)
    else ((k, r) ∷ stay, gone)

abbrev pub timeout_error : ℕ × ℕ → Sent
timeout_error (client, id) = record {
  to = client;
  message = record { type = error_resp; id = id; payload = bytes "TIMEOUT" };
}

unfoldable pub cleanup : (ℕ → Bool) → ℕ → Gateway → Gateway × List Sent
unfolding sweep is_expired
cleanup alive now g =
    let (stay, gone) = sweep alive now g.pending in
    (
      record g {
        pending = stay;
        metrics = record (g.metrics) {
          pending_timeouts = (g.metrics.pending_timeouts + length gone) % 2 ^ 64;
        };
      },
      map timeout_error gone,
    )

abbrev pub heartbeat : Backend → Sent
heartbeat b = record {
  to = b.conn;
  message = record { type = heartbeat_req; id = 0; payload = [] };
}

unfoldable pub send_heartbeats : Gateway → List Sent
send_heartbeats g = map heartbeat g.backends

unfoldable pub contains : List Text → Text → Bool
contains [] a = false
contains (x ∷ xs) a = same_text x a || contains xs a

-- The backends whose address is still expected, and the others.
unfoldable pub split_expected : List Text → List Backend → List Backend × List Backend
unfolding contains
split_expected expected [] = ([], [])
split_expected expected (b ∷ bs) =
    let (stay, gone) = split_expected expected bs in
    if contains expected b.addr then (b ∷ stay, gone) else (stay, b ∷ gone)

unfoldable pub erase_fd : List ℕ → ℕ → List ℕ
erase_fd [] fd = []
erase_fd (f ∷ fs) fd = if f == fd then erase_fd fs fd else f ∷ erase_fd fs fd

unfoldable pub erase_fds : List ℕ → List Backend → List ℕ
unfolding erase_fd
erase_fds fds [] = fds
erase_fds fds (b ∷ bs) = erase_fds (erase_fd fds b.fd) bs

-- The first half of a pass of the monitor: backends that are gone are removed, and closed.
unfoldable pub remove_gone : List Text → Gateway → Gateway × List ℕ
unfolding split_expected erase_fds
remove_gone expected g =
    let (stay, gone) = split_expected expected g.backends in
    (
      record g { backends = stay; backend_fds = erase_fds g.backend_fds gone },
      map (λ b. b.conn) gone,
    )

-- The second half, for one instance to which a connection was made: the callback that the event
-- loop runs. Its connection is `conn`, with the descriptor `fd`.
unfoldable pub add_backend : Gateway → Text → ℕ → ℕ → Gateway
add_backend g addr conn fd = record g {
  backends =
      g.backends
      ++ record {
        addr = addr;
        conn = conn;
        fd = fd;
        last_pong_ms = 0;
        healthy = true;
        request_count = 0;
      }
        ∷ [];
  backend_fds = if has_fd g.backend_fds fd then g.backend_fds else g.backend_fds ++ fd ∷ [];
}

-- Whether the monitor tries to connect to an instance.
unfoldable pub wants_connection : Gateway → Text → Bool
wants_connection g addr = not (has_addr g addr)
