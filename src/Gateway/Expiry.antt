-- ===== src/Gateway/Expiry.antt =====
-- What a clean-up of the pending requests removes and whom it tells, in any state that the gateway
-- can reach.
use echo_net.Base.{
  ℕ, ◌≡◌, refl, sym, ap, ◌∙◌, subst, inl, inr, List, [], ◌∷◌, Bool, true, Option, none, some, arith,
  if◌then◌else◌, ◌==◌, ==_iff, Bool-cases, map,
}
use echo_net.Base.Maps.{find, put, remove, find-put, find-remove}
use echo_net.Protocol.MyProtocol.Message.{Message}
use echo_net.Gateway.State.{Gateway, PendingRequest, has_fd, new_gateway}
use echo_net.Gateway.Pick.{pick_backend}
use echo_net.Gateway.Handler.{
  business_handler, is_heartbeat_resp, from_backend, forward, return_response, count_unknown,
  count_gone, count_response, count_no_backend, count_forwarded,
}
use echo_net.Gateway.Threads.{
  health_check, cleanup, remove_gone, add_backend, is_expired, sweep, timeout_error,
}
use echo_net.Gateway.Balance.{pick_backend-Kept}
use echo_net.Gateway.Requests.{
  Arrival, Event, arrives, checked, cleaned, departed, joined, handle, step, run,
}
use mathlib.Core.Option.{some-injective}
use mathlib.Core.List.{Memᴰ}
use mathlib.Core.List.Memᴰ.{head, tail}
use Prim.{Unit, tt}

-- No key stands twice in the table.
unfoldable pub Unique : List (ℕ × PendingRequest) → Type 0
Unique [] = Unit {0}
Unique ((k, r) ∷ m) = (find k m ≡ none) × Unique m

Unique-put :
    (k : ℕ) (r : PendingRequest) (m : List (ℕ × PendingRequest)) → Unique m → Unique (put k r m)
unfolding put find Unique
Unique-put k r [] u = (refl, tt)
Unique-put k r ((j, q) ∷ m) u =
    ground (arith, Unique-put k r m u.1, find-put k j r m, ap (λ i. find i m), u.0)

Unique-remove : (k : ℕ) (m : List (ℕ × PendingRequest)) → Unique m → Unique (remove k m)
unfolding remove find Unique
Unique-remove k [] u = tt
Unique-remove k ((j, q) ∷ m) u = ground (arith, Unique-remove k m u.1, find-remove k j m, u.0)

find-sweep-none :
    (alive : ℕ → Bool) (now k : ℕ) (m : List (ℕ × PendingRequest))
    → find k m ≡ none
    → find k (sweep alive now m).0 ≡ none
unfolding sweep find
find-sweep-none alive now k [] h = refl
find-sweep-none alive now k ((j, r) ∷ m) h = ground (arith, find-sweep-none alive now k m)

Unique-sweep :
    (alive : ℕ → Bool) (now : ℕ) (m : List (ℕ × PendingRequest))
    → Unique m
    → Unique (sweep alive now m).0
unfolding sweep Unique
Unique-sweep alive now [] u = tt
Unique-sweep alive now ((j, r) ∷ m) u =
    ground (arith, Unique-sweep alive now m u.1, find-sweep-none alive now j m u.0)

Unique-return_response :
    (alive : ℕ → Bool) (g : Gateway) (msg : Message) (o : Option PendingRequest)
    → Unique g.pending
    → Unique (return_response alive g msg o).0.pending
unfolding return_response count_unknown count_gone count_response
Unique-return_response alive g msg none u = u
Unique-return_response alive g msg (some r) u = ground (arith, Unique-remove msg.id g.pending u)

Unique-forward :
    (client now : ℕ) (msg : Message) (p : Option ℕ × Gateway)
    → Unique p.1.pending
    → Unique (forward client now msg p).0.pending
unfolding forward count_no_backend count_forwarded
Unique-forward client now msg (none, g) u = u
Unique-forward client now msg (some b, g) u =
    Unique-put g.next_new_id (record { client = client; original_id = msg.id; created_at = now })
      g.pending u

Unique-handle :
    (alive : ℕ → Bool) (g : Gateway) (a : Arrival)
    → Unique g.pending
    → Unique (handle alive g a).0.pending
unfolding business_handler from_backend
Unique-handle alive g a u = elim (Bool-cases (has_fd g.backend_fds a.fd)) [
  | inl back ↦ elim (Bool-cases (is_heartbeat_resp a.message.type)) [
    | inl pong ↦ rw (back, pong) u
    | inr plain ↦
        rw (back, plain) (Unique-return_response alive g a.message (find a.message.id g.pending) u)
  ]
  | inr front ↦ rw front (
      Unique-forward a.conn a.now a.message (pick_backend g)
        (subst Unique (sym (pick_backend-Kept g).pending) u))
]

Unique-step :
    (alive : ℕ → Bool) (g : Gateway) (e : Event)
    → Unique g.pending
    → Unique (step alive g e).pending
unfolding step health_check cleanup remove_gone add_backend
Unique-step alive g (arrives a) u = Unique-handle alive g a u
Unique-step alive g (checked now_ms) u = u
Unique-step alive g (cleaned now) u = Unique-sweep alive now g.pending u
Unique-step alive g (departed expected) u = u
Unique-step alive g (joined addr conn fd) u = u

Unique-run :
    (alive : ℕ → Bool) (g : Gateway) (es : List Event)
    → Unique g.pending
    → Unique (run alive g es).pending
unfolding run
Unique-run alive g [] u = u
Unique-run alive g (e ∷ es) u = Unique-run alive (step alive g e) es (Unique-step alive g e u)

find-sweep-some :
    (alive : ℕ → Bool) (now k : ℕ) (r : PendingRequest) (m : List (ℕ × PendingRequest))
    → Unique m
    → find k m ≡ some r
    → find k (sweep alive now m).0 ≡ (if is_expired now r then none else some r)
unfolding sweep find Unique
find-sweep-some alive now k r [] u h = absurd (ground arith)
find-sweep-some alive now k r ((j, q) ∷ m) u h = ground (
  arith,
  find-sweep-some alive now k r m u.1,
  find-sweep-none alive now j m u.0,
  some-injective q r,
  ==_iff j k,
  ap (λ i. find i (sweep alive now m).0),
)

-- The clients that a clean-up tells, for the entry at the head of the table.
abbrev told : (ℕ → Bool) → ℕ → PendingRequest → List (ℕ × ℕ) → List (ℕ × ℕ)
told alive now q gone =
    if is_expired now q
    then if alive q.client then (q.client, q.original_id) ∷ gone else gone
    else gone

sweep-told :
    (alive : ℕ → Bool) (now j : ℕ) (q : PendingRequest) (m : List (ℕ × PendingRequest))
    → (sweep alive now ((j, q) ∷ m)).1 ≡ told alive now q (sweep alive now m).1
unfolding sweep
sweep-told alive now j q m = ground arith

Mem-told :
    (alive : ℕ → Bool) (now : ℕ) (q : PendingRequest) (x : ℕ × ℕ) (gone : List (ℕ × ℕ))
    → Memᴰ x gone
    → Memᴰ x (told alive now q gone)
Mem-told alive now q x gone m = elim (Bool-cases (is_expired now q)) [
  | inr stays ↦ rw stays m
  | inl late ↦ elim (Bool-cases (alive q.client)) [
    | inl living ↦ rw (late, living) (tail m)
    | inr lost ↦ rw (late, lost) m
  ]
]

Mem-sweep :
    (alive : ℕ → Bool) (now k : ℕ) (r : PendingRequest) (m : List (ℕ × PendingRequest))
    → find k m ≡ some r
    → is_expired now r ≡ true
    → alive r.client ≡ true
    → Memᴰ (r.client, r.original_id) (sweep alive now m).1
unfolding find
Mem-sweep alive now k r [] h late living = absurd (ground arith)
Mem-sweep alive now k r ((j, q) ∷ m) h late living = elim (Bool-cases (j == k)) [
  | inl same ↦
      let e : q ≡ r = some-injective q r (sym (rw same refl) ∙ h) in
      rw (sweep-told alive now j q m, e, late, living) (head refl)
  | inr other ↦ rw (sweep-told alive now j q m) (
      Mem-told alive now q (r.client, r.original_id) (sweep alive now m).1
        (Mem-sweep alive now k r m (sym (rw other refl) ∙ h) late living))
]

Mem-map :
    (x : ℕ × ℕ) (xs : List (ℕ × ℕ)) → Memᴰ x xs → Memᴰ (timeout_error x) (map timeout_error xs)
Mem-map x [] m = elim m [ ]
Mem-map x (y ∷ ys) (head e) = head (ap timeout_error e)
Mem-map x (y ∷ ys) (tail m) = tail (Mem-map x ys m)

-- After any events on a new gateway, a clean-up removes the pending requests that have expired and
-- keeps every other one as it is.
pub cleanup_removes :
    (alive : ℕ → Bool) (es : List Event) (now k : ℕ) (r : PendingRequest)
    → find k (run alive new_gateway es).pending ≡ some r
    → find k (cleanup alive now (run alive new_gateway es)).0.pending
      ≡ (if is_expired now r then none else some r)
unfolding cleanup new_gateway Unique
cleanup_removes alive es now k r held =
    let g = run alive new_gateway es in
    find-sweep-some alive now k r g.pending (Unique-run alive new_gateway es tt) held

-- In a clean-up, the client of a pending request that has expired is sent a TIMEOUT error under the
-- original id of the request, if the client is still there.
pub cleanup_tells :
    (alive : ℕ → Bool) (now k : ℕ) (g : Gateway) (r : PendingRequest)
    → find k g.pending ≡ some r
    → is_expired now r ≡ true
    → alive r.client ≡ true
    → Memᴰ (timeout_error (r.client, r.original_id)) (cleanup alive now g).1
unfolding cleanup
cleanup_tells alive now k g r held late living =
    Mem-map (r.client, r.original_id) (sweep alive now g.pending).1
      (Mem-sweep alive now k r g.pending held late living)
