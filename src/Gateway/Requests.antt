-- ===== src/Gateway/Requests.antt =====
-- The life of a request: it is forwarded under a fresh id, and the response to that id goes back to
-- its client under the original id, whatever else happens to the gateway in between.
use echo_net.Base.{
  ℕ, ◌+◌, ◌%◌, ◌^◌, ◌≡◌, refl, sym, ap, ◌∙◌, inl, inr, List, [], ◌∷◌, Bool, true, false, ◌&&◌, not,
  Option, none, some, arith, if◌then◌else◌, ◌==◌, ==_refl, Bool-cases, Text,
}
use echo_net.Base.Maps.{find, find-put, find-remove}
use echo_net.Protocol.MyProtocol.Message.{Message}
use echo_net.Gateway.State.{Gateway, PendingRequest, Sent, has_fd}
use echo_net.Gateway.Pick.{pick_backend}
use echo_net.Gateway.Handler.{
  business_handler, is_heartbeat_resp, from_backend, forward, return_response, count_unknown,
}
use echo_net.Gateway.Threads.{health_check, cleanup, remove_gone, add_backend, is_expired, sweep}
use echo_net.Gateway.Balance.{pick_backend-Kept}

-- What can happen to the gateway. A message arrives on the connection `conn` with descriptor `fd`.
pub record Arrival : Type 0 where
  pub conn : ℕ
  pub fd : ℕ
  pub now : ℕ
  pub now_ms : ℕ
  pub message : Message

pub data Event : Type 0 where
  arrives : Arrival → Event
  checked : ℕ → Event
  cleaned : ℕ → Event
  departed : List Text → Event
  joined : Text → ℕ → ℕ → Event

abbrev pub handle : (ℕ → Bool) → Gateway → Arrival → Gateway × List Sent
handle alive g a = business_handler alive g a.conn a.fd a.now a.now_ms a.message

unfoldable pub step : (ℕ → Bool) → Gateway → Event → Gateway
step alive g (arrives a) = (handle alive g a).0
step alive g (checked now_ms) = health_check now_ms g
step alive g (cleaned now) = (cleanup alive now g).0
step alive g (departed expected) = (remove_gone expected g).0
step alive g (joined addr conn fd) = add_backend g addr conn fd

unfoldable pub run : (ℕ → Bool) → Gateway → List Event → Gateway
run alive g [] = g
run alive g (e ∷ es) = run alive (step alive g e) es

abbrev expires : ℕ → Option PendingRequest → Bool
expires now none = false
expires now (some r) = is_expired now r

-- Whether an event can end or replace the request with the id `k`: a response to it, a request that
-- is given the same id once the ids have gone round, or a clean-up after it has expired.
unfoldable pub touches : ℕ → Gateway → Event → Bool
touches k g (arrives a) =
    if has_fd g.backend_fds a.fd then a.message.id == k else g.next_new_id == k
touches k g (cleaned now) = expires now (find k g.pending)
touches k g _ = false

unfoldable pub spared : (ℕ → Bool) → ℕ → Gateway → List Event → Bool
unfolding touches
spared alive k g [] = true
spared alive k g (e ∷ es) = not (touches k g e) && spared alive k (step alive g e) es

find-forward :
    (k client now : ℕ) (msg : Message) (p : Option ℕ × Gateway)
    → (p.1.next_new_id == k) ≡ false
    → find k (forward client now msg p).0.pending ≡ find k p.1.pending
unfolding forward
find-forward k client now msg (none, g) h = refl
find-forward k client now msg (some b, g) h =
    find-put g.next_new_id k (record { client = client; original_id = msg.id; created_at = now })
      g.pending
    ∙ rw h refl

find-return_response :
    (alive : ℕ → Bool) (k : ℕ) (g : Gateway) (msg : Message) (o : Option PendingRequest)
    → (msg.id == k) ≡ false
    → find k (return_response alive g msg o).0.pending ≡ find k g.pending
unfolding return_response
find-return_response alive k g msg none h = refl
find-return_response alive k g msg (some r) h = ground (arith, find-remove msg.id k g.pending)

find-sweep :
    (alive : ℕ → Bool) (now k : ℕ) (m : List (ℕ × PendingRequest))
    → expires now (find k m) ≡ false
    → find k (sweep alive now m).0 ≡ find k m
unfolding sweep find
find-sweep alive now k [] h = refl
find-sweep alive now k ((j, r) ∷ m) h = ground (arith, find-sweep alive now k m)

find-from_backend :
    (alive : ℕ → Bool) (k : ℕ) (g : Gateway) (fd now_ms : ℕ) (msg : Message)
    → (msg.id == k) ≡ false
    → find k (from_backend alive g fd now_ms msg).0.pending ≡ find k g.pending
unfolding from_backend
find-from_backend alive k g fd now_ms msg h =
    ground (arith, find-return_response alive k g msg (find msg.id g.pending))

handle-find :
    (alive : ℕ → Bool) (k : ℕ) (g : Gateway) (a : Arrival)
    → (if has_fd g.backend_fds a.fd then a.message.id == k else g.next_new_id == k) ≡ false
    → find k (handle alive g a).0.pending ≡ find k g.pending
unfolding business_handler
handle-find alive k g a = elim (Bool-cases (has_fd g.backend_fds a.fd)) [
  | inl back ↦ rw back (find-from_backend alive k g a.fd a.now_ms a.message)
  | inr front ↦
      let kept = pick_backend-Kept g in
      rw front (λ h.
        find-forward k a.conn a.now a.message (pick_backend g)
          (ap (λ n. n == k) kept.next_new_id ∙ h)
        ∙ ap (find k) kept.pending)
]

step-find :
    (alive : ℕ → Bool) (k : ℕ) (g : Gateway) (e : Event)
    → touches k g e ≡ false
    → find k (step alive g e).pending ≡ find k g.pending
unfolding step touches health_check cleanup remove_gone add_backend
step-find alive k g (arrives a) h = handle-find alive k g a h
step-find alive k g (checked now_ms) h = refl
step-find alive k g (cleaned now) h = find-sweep alive now k g.pending h
step-find alive k g (departed expected) h = refl
step-find alive k g (joined addr conn fd) h = refl

-- A request that no event of a history touches is still pending at its end, unchanged.
pub run-find :
    (alive : ℕ → Bool) (k : ℕ) (g : Gateway) (es : List Event)
    → spared alive k g es ≡ true
    → find k (run alive g es).pending ≡ find k g.pending
unfolding run spared
run-find alive k g [] h = refl
run-find alive k g (e ∷ es) h =
    run-find alive k (step alive g e) es (ground arith) ∙ step-find alive k g e (ground arith)

forward-sent :
    (client now : ℕ) (msg : Message) (g : Gateway) (backend : ℕ) (p : Option ℕ × Gateway)
    → p.0 ≡ some backend
    → p.1.next_new_id ≡ g.next_new_id
    → ((forward client now msg p).1
        ≡ record { to = backend; message = record msg { id = g.next_new_id } } ∷ [])
      × (find g.next_new_id (forward client now msg p).0.pending
          ≡ some (record { client = client; original_id = msg.id; created_at = now }))
unfolding forward
forward-sent client now msg g backend (none, h) e n = cc
forward-sent client now msg g backend (some b, h) e n = ground (
  arith,
  find-put h.next_new_id g.next_new_id
      (record { client = client; original_id = msg.id; created_at = now }) h.pending,
)

from_client :
    (alive : ℕ → Bool) (g : Gateway) (a : Arrival)
    → has_fd g.backend_fds a.fd ≡ false
    → handle alive g a ≡ forward a.conn a.now a.message (pick_backend g)
unfolding business_handler
from_client alive g a front = rw front

-- A response to a pending request of a living client.
answered :
    (alive : ℕ → Bool) (h : Gateway) (reply : Arrival) (r : PendingRequest)
    → has_fd h.backend_fds reply.fd ≡ true
    → is_heartbeat_resp reply.message.type ≡ false
    → find reply.message.id h.pending ≡ some r
    → alive r.client ≡ true
    → ((handle alive h reply).1
        ≡ record { to = r.client; message = record (reply.message) { id = r.original_id } } ∷ [])
      × (find reply.message.id (handle alive h reply).0.pending ≡ none)
unfolding business_handler from_backend return_response
answered alive h reply r back plain held there =
    rw (back, plain, held, there)
      (
        refl,
        find-remove reply.message.id reply.message.id h.pending
            ∙ rw (==_refl reply.message.id) refl,
      )

-- The record that a request leaves in the table.
abbrev pub entry : Arrival → PendingRequest
entry a = record { client = a.conn; original_id = a.message.id; created_at = a.now }

-- A request of a client, for which a backend is found, goes to that backend as it is, under the
-- next new id. After any history that spares that id, a response with the id from a descriptor of a
-- backend, other than a pong, goes to that client as it is, under the original id, if the client is
-- still there; and then the id is no longer pending.
pub request_answered :
    (alive : ℕ → Bool) (g : Gateway) (a reply : Arrival) (backend : ℕ) (es : List Event)
    → has_fd g.backend_fds a.fd ≡ false
    → (pick_backend g).0 ≡ some backend
    → spared alive g.next_new_id (handle alive g a).0 es ≡ true
    → let h = run alive (handle alive g a).0 es in
      has_fd h.backend_fds reply.fd ≡ true
      → is_heartbeat_resp reply.message.type ≡ false
      → reply.message.id ≡ g.next_new_id
      → alive a.conn ≡ true
      → ((handle alive g a).1
          ≡ record { to = backend; message = record (a.message) { id = g.next_new_id } } ∷ [])
        × ((handle alive h reply).1
            ≡ record { to = a.conn; message = record (reply.message) { id = a.message.id } } ∷ [])
        × (find g.next_new_id (handle alive h reply).0.pending ≡ none)
request_answered alive g a reply backend es front chosen spare back plain id there =
    let sent =
      forward-sent a.conn a.now a.message g backend (pick_backend g) chosen
        (pick_backend-Kept g).next_new_id in
    let first : handle alive g a ≡ forward a.conn a.now a.message (pick_backend g) =
      from_client alive g a front in
    let h = run alive (handle alive g a).0 es in
    let held : find reply.message.id h.pending ≡ some (entry a) =
      ap (λ k. find k h.pending) id
      ∙ run-find alive g.next_new_id (handle alive g a).0 es spare
      ∙ ap (λ p. find g.next_new_id p.0.pending) first
      ∙ sent.1 in
    let last = answered alive h reply (entry a) back plain held there in
    (
      ap (λ p. p.1) first ∙ sent.0,
      last.0,
      ap (λ k. find k (handle alive h reply).0.pending) (sym id) ∙ last.1,
    )

return_response-spent :
    (alive : ℕ → Bool) (g : Gateway) (msg : Message) (o : Option PendingRequest)
    → find msg.id g.pending ≡ o
    → (find msg.id (return_response alive g msg o).0.pending ≡ none)
      × ((return_response alive g msg o).0.backend_fds ≡ g.backend_fds)
unfolding return_response
return_response-spent alive g msg none held = (held, refl)
return_response-spent alive g msg (some r) held =
    ground (arith, find-remove msg.id msg.id g.pending, ==_refl msg.id)

spent :
    (alive : ℕ → Bool) (g : Gateway) (first : Arrival)
    → has_fd g.backend_fds first.fd ≡ true
    → is_heartbeat_resp first.message.type ≡ false
    → (find first.message.id (handle alive g first).0.pending ≡ none)
      × ((handle alive g first).0.backend_fds ≡ g.backend_fds)
unfolding business_handler from_backend
spent alive g first back plain =
    rw (back, plain)
      (return_response-spent alive g first.message (find first.message.id g.pending) refl)

unknown :
    (alive : ℕ → Bool) (g : Gateway) (a : Arrival)
    → has_fd g.backend_fds a.fd ≡ true
    → is_heartbeat_resp a.message.type ≡ false
    → find a.message.id g.pending ≡ none
    → handle alive g a ≡ (count_unknown g, [])
unfolding business_handler from_backend return_response
unknown alive g a back plain none_held = rw (back, plain, none_held) refl

-- No response is delivered twice: whatever the first response to an id did, a second one to the same
-- id, again from a descriptor of a backend, sends nothing and counts as unknown.
pub answered_once :
    (alive : ℕ → Bool) (g : Gateway) (first second : Arrival)
    → has_fd g.backend_fds first.fd ≡ true
    → has_fd g.backend_fds second.fd ≡ true
    → is_heartbeat_resp first.message.type ≡ false
    → is_heartbeat_resp second.message.type ≡ false
    → second.message.id ≡ first.message.id
    → let h = (handle alive g first).0 in
      ((handle alive h second).1 ≡ [])
      × ((handle alive h second).0.metrics.unknown_responses
          ≡ (h.metrics.unknown_responses + 1) % 2 ^ 64)
unfolding count_unknown
answered_once alive g first second back again plain bare same =
    let h = (handle alive g first).0 in
    let used = spent alive g first back plain in
    let e =
      unknown alive h second (ap (λ fds. has_fd fds second.fd) used.1 ∙ again) bare
        (ap (λ k. find k h.pending) same ∙ used.0) in
    (ap (λ p. p.1) e, ap (λ p. p.0.metrics.unknown_responses) e)
