-- ===== src/Gateway/Accounts.antt =====
-- The counters of `GatewayMetrics` add up over any history of the gateway.
use echo_net.Base.{ℕ, ◌+◌, ◌≤◌, ◌≡◌, length}
use echo_net.Protocol.MyProtocol.Message.{Message}
use echo_net.Gateway.State.{Gateway}

-- Requests that ended in a response, a lost client or a timeout, with those still pending, are at
-- most the requests forwarded, and these are the requests that the gateway took in.
pub record Adds (g : Gateway) : Type 0 where
  pub ended :
      g.metrics.backend_responses
        + g.metrics.dropped_client_gone
        + g.metrics.pending_timeouts
        + length g.pending
      ≤ g.metrics.forwarded
  pub taken : g.metrics.total_requests ≡ g.metrics.forwarded

-- The same with a bound on the requests forwarded, below which no counter wraps round.
record Sound (n : ℕ) (g : Gateway) : Type 0 where
  adds : Adds g
  few : g.metrics.forwarded ≤ n
