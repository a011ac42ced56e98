-- ===== src/Gateway/Pick.antt =====
-- `pick_backend`: round robin over the backends, past those that are unhealthy.
use echo_net.Base.{
  ℕ, zero, suc, ◌+◌, ◌%◌, ◌^◌, Option, none, some, if◌then◌else◌, length, get_elem?, set, ◌==◌,
}
use echo_net.Gateway.State.{Gateway, Backend}

-- The backend at the next index, counted in a
-- `uint64_t`.
unfoldable pub use_backend : Gateway → ℕ → Backend → Gateway
use_backend g idx b = record g {
  backends = set g.backends idx (record b { request_count = (b.request_count + 1) % 2 ^ 64 });
}

-- `rr_index++`, a `size_t`.
unfoldable pub advance_index : Gateway → Gateway
advance_index g = record g { rr_index = (g.rr_index + 1) % 2 ^ 64 }

-- One round, at the backend that stands at the index; `next` is the rest of the loop.
unfoldable pub try_backend : Gateway → ℕ → Option Backend → Option ℕ × Gateway → Option ℕ × Gateway
unfolding use_backend
try_backend g idx none next = (none, g)
try_backend g idx (some b) next = if b.healthy then (some b.conn, use_backend g idx b) else next

-- The loop, with the rounds that are left; `n` is the number of backends.
unfoldable pub pick_loop : ℕ → ℕ → Gateway → Option ℕ × Gateway
unfolding try_backend advance_index
pick_loop zero n g = (none, g)
pick_loop (suc rounds) n g =
    let rest = pick_loop rounds n (advance_index g) in
    try_backend (advance_index g) (g.rr_index % n) (get_elem? g.backends (g.rr_index % n)) rest

-- `pick_backend`
unfoldable pub pick_backend : Gateway → Option ℕ × Gateway
unfolding pick_loop
pick_backend g =
    if length g.backends == 0
    then (none, g)
    else pick_loop (length g.backends) (length g.backends) g
