-- ===== src/Gateway/Handler.antt =====
-- `business_handler`: what the gateway does with a message from a client or from a backend.
use echo_net.Base.{
  ℕ, ◌+◌, ◌%◌, ◌^◌, List, [], ◌∷◌, Bool, true, false, Option, none, some, if◌then◌else◌, ◌==◌,
}
use echo_net.Base.Maps.{find, put, remove}
use echo_net.Protocol.MyProtocol.Message.{Message, MyType, heartbeat_resp}
use echo_net.Gateway.State.{Gateway, Backend, PendingRequest, Sent, has_fd}
use echo_net.Gateway.Pick.{pick_backend}

abbrev pub is_heartbeat_resp : MyType → Bool
is_heartbeat_resp heartbeat_resp = true
is_heartbeat_resp _ = false

-- A pong: the first backend with this descriptor is healthy again.
unfoldable pub revive : List Backend → ℕ → ℕ → List Backend
revive [] fd now_ms = []
revive (b ∷ bs) fd now_ms =
    if b.fd == fd
    then record b { last_pong_ms = now_ms; healthy = true } ∷ bs
    else b ∷ revive bs fd now_ms

unfoldable pub count_unknown : Gateway → Gateway
count_unknown g = record g {
  metrics = record (g.metrics) { unknown_responses = (g.metrics.unknown_responses + 1) % 2 ^ 64 };
}

unfoldable pub count_gone : Gateway → Gateway
count_gone g = record g {
  metrics = record (g.metrics) {
    dropped_client_gone = (g.metrics.dropped_client_gone + 1) % 2 ^ 64;
  };
}

unfoldable pub count_response : Gateway → Gateway
count_response g = record g {
  metrics = record (g.metrics) { backend_responses = (g.metrics.backend_responses + 1) % 2 ^ 64 };
}

unfoldable pub count_no_backend : Gateway → Gateway
count_no_backend g = record g {
  metrics = record (g.metrics) { no_backend = (g.metrics.no_backend + 1) % 2 ^ 64 };
}

unfoldable pub count_forwarded : Gateway → Gateway
count_forwarded g = record g {
  metrics = record (g.metrics) {
    total_requests = (g.metrics.total_requests + 1) % 2 ^ 64;
    forwarded = (g.metrics.forwarded + 1) % 2 ^ 64;
  };
}

-- A response of a backend, for what the table of pending requests held under its id. `alive` says
-- which connections a `weak_ptr` can still be turned into.
unfoldable pub return_response :
    (ℕ → Bool) → Gateway → Message → Option PendingRequest → Gateway × List Sent
unfolding count_unknown count_gone count_response
return_response alive g msg none = (count_unknown g, [])
return_response alive g msg (some r) =
    let h = record g { pending = remove msg.id g.pending } in
    if alive r.client
    then (
      count_response h,
      record { to = r.client; message = record msg { id = r.original_id } } ∷ [],
    )
    else (count_gone h, [])

unfoldable pub from_backend : (ℕ → Bool) → Gateway → ℕ → ℕ → Message → Gateway × List Sent
unfolding return_response revive
from_backend alive g fd now_ms msg =
    if is_heartbeat_resp msg.type
    then (record g { backends = revive g.backends fd now_ms }, [])
    else return_response alive g msg (find msg.id g.pending)

-- A request of a client, once a backend has been looked for.
unfoldable pub forward : ℕ → ℕ → Message → Option ℕ × Gateway → Gateway × List Sent
unfolding count_no_backend count_forwarded
forward client now msg (none, g) = (count_no_backend g, [])
forward client now msg (some backend, g) = (
  count_forwarded (record g {
    next_new_id = (g.next_new_id + 1) % 2 ^ 32;
    pending =
        put g.next_new_id (record { client = client; original_id = msg.id; created_at = now })
          g.pending;
  }),
  record { to = backend; message = record msg { id = g.next_new_id } } ∷ [],
)

-- `business_handler`: `conn` is the connection that the message came from, `fd` its descriptor,
-- `now` and `now_ms` the steady clock in nanoseconds and in milliseconds.
unfoldable pub business_handler :
    (ℕ → Bool) → Gateway → ℕ → ℕ → ℕ → ℕ → Message → Gateway × List Sent
unfolding from_backend forward
business_handler alive g conn fd now now_ms msg =
    if has_fd g.backend_fds fd
    then from_backend alive g fd now_ms msg
    else forward conn now msg (pick_backend g)
