-- ===== src/Gateway/Sweep.antt =====
-- What the clean-up thread (src/gateway_main.cpp) does to a pending request.
use echo_net.Base.{bytes, ℕ, ◌≡◌, List, Bool, true, false, none, some}
use echo_net.Base.Maps.{find}
use mathlib.Core.List.{Memᴰ}
use echo_net.Protocol.MyProtocol.Message.{error_resp}
use echo_net.Gateway.State.{Gateway, PendingRequest, Sent}

-- What a clean-up does to a pending request, by whether it has expired and its client is there.
abbrev pub Swept : ℕ → PendingRequest → Gateway × List Sent → Bool → Bool → Type 0
Swept k r (h, es) false living = find k h.pending ≡ some r
Swept k r (h, es) true false = find k h.pending ≡ none
Swept k r (h, es) true true =
    (find k h.pending ≡ none)
    × Memᴰ
        (record {
          to = r.client;
          message = record { type = error_resp; id = r.original_id; payload = bytes "TIMEOUT" };
        })
        es
