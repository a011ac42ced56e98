-- ===== src/Gateway/Upkeep.antt =====
-- What the background threads guarantee: who can be chosen after a health check, what a clean-up
-- removes and reports, and what is left of backends that the registry no longer names.
use echo_net.Base.{
  ℕ, zero, suc, ◌+◌, ◌-◌, ◌≤◌, ◌≡◌, refl, sym, ap, ◌∙◌, subst, ◌⊎◌, inl, inr, List, [], ◌∷◌, Bool,
  true, false, some, arith, if◌then◌else◌, ◌==◌, ==_iff, ltb, Bool-cases, map, get_elem?, Text,
}
use echo_net.Gateway.State.{Gateway, Backend, has_fd}
use echo_net.Gateway.Pick.{pick_backend}
use echo_net.Gateway.Handler.{business_handler, forward}
use echo_net.Gateway.Threads.{
  check_backend, health_check, remove_gone, contains, split_expected, erase_fd, erase_fds,
}
use echo_net.Gateway.Balance.{pick_backend-Chosen}
use echo_net.Gateway.Requests.{Arrival, handle}
use mathlib.Core.Option.{some-injective}
use mathlib.Core.List.{Memᴰ}
use mathlib.Core.List.Memᴰ.{head, tail}

recent :
    (now_ms : ℕ) (c : Backend)
    → (check_backend now_ms c).healthy ≡ true
    → let b = check_backend now_ms c in (b.last_pong_ms ≡ 0) ⊎ (now_ms ≤ b.last_pong_ms + 15000)
unfolding check_backend
recent now_ms c = elim (Bool-cases (c.last_pong_ms == 0)) [
  | inl silent ↦ simp silent (λ h. inl (ground arith))
  | inr spoke ↦ simp spoke (elim (Bool-cases (ltb 15000 (now_ms - c.last_pong_ms))) [
    | inl late ↦ simp late (λ h. absurd (ground arith))
    | inr timely ↦ simp timely (λ h. inr (ground arith))
  ])
]

get_elem?-map_check :
    (now_ms idx : ℕ) (bs : List Backend) (b : Backend)
    → get_elem? (map (check_backend now_ms) bs) idx ≡ some b
    → b.healthy ≡ true
    → (b.last_pong_ms ≡ 0) ⊎ (now_ms ≤ b.last_pong_ms + 15000)
get_elem?-map_check now_ms idx [] b = λ e. absurd (ground arith)
get_elem?-map_check now_ms zero (c ∷ bs) b = λ e h.
    subst (λ x. (x.last_pong_ms ≡ 0) ⊎ (now_ms ≤ x.last_pong_ms + 15000))
      (some-injective (check_backend now_ms c) b e)
      (recent now_ms c (ap (λ x. x.healthy) (some-injective (check_backend now_ms c) b e) ∙ h))
get_elem?-map_check now_ms (suc idx) (c ∷ bs) b = get_elem?-map_check now_ms idx bs b

-- Right after a health check, a backend that is chosen for a request has either not answered any
-- heartbeat yet or has answered one in the last fifteen seconds.
pub chosen_after_check :
    (now_ms : ℕ) (g : Gateway) (c : ℕ)
    → (pick_backend (health_check now_ms g)).0 ≡ some c
    → (b : Backend) × (b.conn ≡ c) × ((b.last_pong_ms ≡ 0) ⊎ (now_ms ≤ b.last_pong_ms + 15000))
unfolding health_check
chosen_after_check now_ms g c e =
    let chosen = pick_backend-Chosen (health_check now_ms g) c e in
    (
      chosen.backend,
      chosen.conn,
      get_elem?-map_check now_ms chosen.idx g.backends chosen.backend chosen.there chosen.healthy,
    )

contains_split :
    (expected : List Text) (bs : List Backend) (b : Backend)
    → Memᴰ b (split_expected expected bs).0
    → contains expected b.addr ≡ true
unfolding split_expected
contains_split expected [] b = λ m. elim m [ ]
contains_split expected (c ∷ bs) b = elim (Bool-cases (contains expected c.addr)) [
  | inl stays ↦ rw stays (elim [
    | head e ↦ ap (λ x. contains expected x.addr) e ∙ stays
    | tail m ↦ contains_split expected bs b m
  ])
  | inr goes ↦ rw goes (contains_split expected bs b)
]

has_fd-erase_fd :
    (fds : List ℕ) (fd k : ℕ)
    → has_fd (erase_fd fds fd) k ≡ (if fd == k then false else has_fd fds k)
unfolding has_fd erase_fd
has_fd-erase_fd [] fd k = ground arith
has_fd-erase_fd (f ∷ fds) fd k = ground (arith, has_fd-erase_fd fds fd k)

has_fd-erase_fds-false :
    (fds : List ℕ) (gone : List Backend) (k : ℕ)
    → has_fd fds k ≡ false
    → has_fd (erase_fds fds gone) k ≡ false
unfolding erase_fds
has_fd-erase_fds-false fds [] k h = h
has_fd-erase_fds-false fds (b ∷ bs) k h =
    has_fd-erase_fds-false (erase_fd fds b.fd) bs k (ground (arith, has_fd-erase_fd fds b.fd k))

erased :
    (fds : List ℕ) (gone : List Backend) (b : Backend)
    → Memᴰ b gone
    → has_fd (erase_fds fds gone) b.fd ≡ false
unfolding erase_fds
erased fds [] b m = elim m [ ]
erased fds (c ∷ bs) b (head e) =
    has_fd-erase_fds-false (erase_fd fds c.fd) bs b.fd
      (has_fd-erase_fd fds c.fd b.fd ∙ rw ((==_iff c.fd b.fd).1 (ap (λ x. x.fd) (sym e))) refl)
erased fds (c ∷ bs) b (tail m) = erased (erase_fd fds c.fd) bs b m

split_gone :
    (expected : List Text) (bs : List Backend) (b : Backend)
    → contains expected b.addr ≡ false
    → Memᴰ b bs
    → Memᴰ b (split_expected expected bs).1
unfolding split_expected
split_gone expected [] b out m = elim m [ ]
split_gone expected (c ∷ bs) b out (head e) =
    rw (ap (λ x. contains expected x.addr) (sym e) ∙ out) (head e)
split_gone expected (c ∷ bs) b out (tail m) = elim (Bool-cases (contains expected c.addr)) [
  | inl stays ↦ rw stays (split_gone expected bs b out m)
  | inr goes ↦ rw goes (tail (split_gone expected bs b out m))
]

-- After a pass of the monitor, every backend that is left is one that the registry names.
remaining_expected :
    (expected : List Text) (g : Gateway) (b : Backend)
    → Memᴰ b (remove_gone expected g).0.backends
    → contains expected b.addr ≡ true
unfolding remove_gone
remaining_expected expected g = contains_split expected g.backends

-- After a pass of the monitor, a message on the descriptor of a backend that the registry does not
-- name any more is forwarded as the request of a client, whatever it is.
pub gone_is_client :
    (alive : ℕ → Bool) (expected : List Text) (g : Gateway) (b : Backend) (a : Arrival)
    → Memᴰ b g.backends
    → contains expected b.addr ≡ false
    → a.fd ≡ b.fd
    → let h = (remove_gone expected g).0 in
      handle alive h a ≡ forward a.conn a.now a.message (pick_backend h)
unfolding remove_gone business_handler
gone_is_client alive expected g b a m out fd =
    let gone = (split_expected expected g.backends).1 in
    rw
      (ap (has_fd (erase_fds g.backend_fds gone)) fd
        ∙ erased g.backend_fds gone b (split_gone expected g.backends b out m))
      refl
