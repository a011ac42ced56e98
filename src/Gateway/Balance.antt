-- ===== src/Gateway/Balance.antt =====
-- Whom `pick_backend` chooses, and when it finds nobody.
use echo_net.Base.{
  ℕ, zero, suc, ◌+◌, ◌-◌, ◌%◌, ◌^◌, ◌≤◌, ◌<◌, ◌≡◌, refl, sym, ap, ◌∙◌, ◌↔◌, inl, inr, List, [], ◌∷◌,
  Bool, true, false, Option, none, some, arith, if◌then◌else◌, length, get_elem?, set, ◌==◌,
  Bool-cases, ==_iff,
}
use mathlib.Core.Option.{some-injective}
use native.Mathlib.Nat.{mod-lt, mod-eq_of_lt, mod-add-mod, mod-eq-sub-mod}
use native.Mathlib.Decide.{dec_lt}
use echo_net.Gateway.State.{Gateway, Backend}
use echo_net.Gateway.Pick.{advance_index, try_backend, pick_loop, pick_backend}

-- The choice of a backend: a healthy one, whose count of requests goes up by one, in a
-- `uint64_t`.
pub record Chosen (g : Gateway) (c : ℕ) (h : Gateway) : Type 0 where
  pub idx : ℕ
  pub backend : Backend
  pub there : get_elem? g.backends idx ≡ some backend
  pub healthy : backend.healthy ≡ true
  pub conn : backend.conn ≡ c
  pub counted :
      h.backends
      ≡ set g.backends idx (record backend { request_count = (backend.request_count + 1) % 2 ^ 64 })

-- Nothing else of the gateway changes in the loop, but for its index.
pub record Kept (g h : Gateway) : Type 0 where
  pub pending : h.pending ≡ g.pending
  pub next_new_id : h.next_new_id ≡ g.next_new_id
  pub backend_fds : h.backend_fds ≡ g.backend_fds
  pub metrics : h.metrics ≡ g.metrics

pick_loop-Kept : (rounds n : ℕ) (g : Gateway) → Kept g (pick_loop rounds n g).1
unfolding pick_loop
pick_loop-Kept zero n g = ground arith
pick_loop-Kept (suc rounds) n g = ground (arith, pick_loop-Kept rounds n (advance_index g))

pub pick_backend-Kept : (g : Gateway) → Kept g (pick_backend g).1
unfolding pick_backend
pick_backend-Kept g = ground (arith, pick_loop-Kept (length g.backends) (length g.backends) g)

try_backend-Chosen :
    (g : Gateway) (idx : ℕ) (o : Option Backend) (next : Option ℕ × Gateway) (c : ℕ)
    → get_elem? g.backends idx ≡ o
    → (next.0 ≡ some c → Chosen g c next.1)
    → (try_backend (advance_index g) idx o next).0 ≡ some c
    → Chosen g c (try_backend (advance_index g) idx o next).1
unfolding try_backend advance_index
try_backend-Chosen g idx none next c at later = λ e. cc
try_backend-Chosen g idx (some b) next c at later = elim (Bool-cases b.healthy) [
  | inl well ↦ simp well (λ e. record {
    idx = idx;
    backend = b;
    there = at;
    healthy = well;
    conn = ground arith;
    counted = ground arith;
  })
  | inr ill ↦ simp ill later
]

pick_loop-Chosen :
    (rounds n : ℕ) (g : Gateway) (c : ℕ)
    → (pick_loop rounds n g).0 ≡ some c
    → Chosen g c (pick_loop rounds n g).1
unfolding pick_loop
pick_loop-Chosen zero n g c e = cc
pick_loop-Chosen (suc rounds) n g c e =
    try_backend-Chosen g (g.rr_index % n) (get_elem? g.backends (g.rr_index % n))
      (pick_loop rounds n (advance_index g)) c refl
      (λ h. moved (pick_loop-Chosen rounds n (advance_index g) c h)) e
  where
    moved : {h : Gateway} → Chosen (advance_index g) c h → Chosen g c h
    moved k = ground arith

-- Whatever `pick_backend` returns is the connection of a healthy backend of the list, and the count
-- of requests of that backend, and of no other, goes up by one.
pub pick_backend-Chosen :
    (g : Gateway) (c : ℕ) → (pick_backend g).0 ≡ some c → Chosen g c (pick_backend g).1
unfolding pick_backend
pick_backend-Chosen g c = elim (Bool-cases (length g.backends == 0)) [
  | inl e ↦ rw e (λ h. absurd (ground arith))
  | inr e ↦ rw e (pick_loop-Chosen (length g.backends) (length g.backends) g c)
]

abbrev AllUnhealthy : List Backend → Type 0
AllUnhealthy bs = (i : ℕ) (b : Backend) → get_elem? bs i ≡ some b → b.healthy ≡ false

get_elem?_lt :
    {A : Type 0} (xs : List A) (i : ℕ) → i < length xs → (a : A) × (get_elem? xs i ≡ some a)
get_elem?_lt [] i h = elim h [ ]
get_elem?_lt (x ∷ xs) zero h = (x, refl)
get_elem?_lt (x ∷ xs) (suc i) h = get_elem?_lt xs i (omega arith)

lt_of_get_elem? :
    {A : Type 0} (xs : List A) (i : ℕ) (a : A) → get_elem? xs i ≡ some a → i < length xs
lt_of_get_elem? [] i a e = cc
lt_of_get_elem? (x ∷ xs) zero a e = omega arith
lt_of_get_elem? (x ∷ xs) (suc i) a e = omega (arith, lt_of_get_elem? xs i a e)

try_backend-none :
    (g : Gateway) (idx : ℕ) (b : Backend) (next : Option ℕ × Gateway)
    → (try_backend g idx (some b) next).0 ≡ none
    → (b.healthy ≡ false) × (next.0 ≡ none)
unfolding try_backend
try_backend-none g idx b next e = ground arith

-- The first index and the later ones together.
by_index :
    (r n : ℕ) (bs : List Backend) (rounds : ℕ) (a b : Backend)
    → r + suc rounds ≤ 2 ^ 64
    → get_elem? bs (r % n) ≡ some a
    → a.healthy ≡ false
    → ((k : ℕ)
        → k < rounds
        → get_elem? bs (((r + 1) % 2 ^ 64 + k) % n) ≡ some b
        → b.healthy ≡ false)
    → (j : ℕ) → j < suc rounds
    → get_elem? bs ((r + j) % n) ≡ some b
    → b.healthy ≡ false
by_index r n bs rounds a b room first ill later zero h at =
    let same : get_elem? bs (r % n) ≡ some b = ap (λ k. get_elem? bs (k % n)) (zero_more r) ∙ at in
    ground (arith, same)
  where
    zero_more : (r : ℕ) → r ≡ r + 0
    zero_more r = omega arith
by_index r n bs rounds a b room first ill later (suc j) h at =
    later j (omega arith)
      (ap (λ k. get_elem? bs (k % n)) (shift r rounds j room (omega arith)) ∙ at)
  where
    shift : (r m k : ℕ) → r + suc m ≤ 2 ^ 64 → k < m → (r + 1) % 2 ^ 64 + k ≡ r + suc k
    shift r m k h l = omega arith

-- The indices that a loop which finds nobody has tried.
pick_loop-none :
    (rounds n : ℕ) (g : Gateway)
    → n ≡ length g.backends
    → 0 < n
    → g.rr_index + rounds ≤ 2 ^ 64
    → (pick_loop rounds n g).0 ≡ none
    → (j : ℕ) (b : Backend) → j < rounds
    → get_elem? g.backends ((g.rr_index + j) % n) ≡ some b
    → b.healthy ≡ false
unfolding pick_loop advance_index
pick_loop-none zero n g len pos room e j b h at = elim h [ ]
pick_loop-none (suc rounds) n g len pos room e j b h at =
    let here =
      get_elem?_lt g.backends (g.rr_index % n) (omega (arith, mod-lt g.rr_index {m = n} pos)) in
    let split =
      try_backend-none (advance_index g) (g.rr_index % n) here.0
        (pick_loop rounds n (advance_index g)) (rw here.1 at e) in
    by_index g.rr_index n g.backends rounds here.0 b room here.1 split.0
      (λ k less found.
        pick_loop-none rounds n (advance_index g) len pos
          (omega (arith, sum g.rr_index rounds k room less)) split.1 k b less found)
      j h at
  where
    sum : (r m k : ℕ) → r + suc m ≤ 2 ^ 64 → k < m → (r + 1) % 2 ^ 64 ≡ r + 1
    sum r m k h l = omega arith

-- The rounds from any start meet every index.
cover : (r n i : ℕ) → i < n → (j : ℕ) × (j < n) × ((r + j) % n ≡ i)
cover r n i h =
    let w : r % n < n = mod-lt r (omega arith) in
    elim (dec_lt i (r % n)) [
      | yes less ↦ (
        i + n - r % n,
        omega arith,
        sym (mod-add-mod r n (i + n - r % n))
            ∙ ap (λ k. k % n) (over (r % n) n i w less)
            ∙ mod-eq-sub-mod (omega arith)
            ∙ ap (λ k. k % n) (back n i)
            ∙ mod-eq_of_lt h,
      )
      | no more ↦ (
        i - r % n,
        omega arith,
        sym (mod-add-mod r n (i - r % n))
            ∙ ap (λ k. k % n) (under (r % n) i (omega arith))
            ∙ mod-eq_of_lt h,
      )
    ]
  where
    over : (q n i : ℕ) → q < n → i < q → q + (i + n - q) ≡ i + n
    over q n i h l = omega arith

    back : (n i : ℕ) → i + n - n ≡ i
    back n i = omega arith

    under : (q i : ℕ) → q ≤ i → q + (i - q) ≡ i
    under q i h = omega arith

try_backend-skips :
    (g : Gateway) (idx : ℕ) (o : Option Backend) (next : Option ℕ × Gateway)
    → ((b : Backend) → o ≡ some b → b.healthy ≡ false)
    → next.0 ≡ none
    → (try_backend g idx o next).0 ≡ none
unfolding try_backend
try_backend-skips g idx none next ill e = refl
try_backend-skips g idx (some b) next ill e = simp (ill b refl) e

pick_loop-skips :
    (rounds n : ℕ) (g : Gateway) → AllUnhealthy g.backends → (pick_loop rounds n g).0 ≡ none
unfolding pick_loop advance_index
pick_loop-skips zero n g ill = refl
pick_loop-skips (suc rounds) n g ill =
    try_backend-skips (advance_index g) (g.rr_index % n) (get_elem? g.backends (g.rr_index % n))
      (pick_loop rounds n (advance_index g)) (λ b at. ill (g.rr_index % n) b at)
      (pick_loop-skips rounds n (advance_index g) ill)

nobody_iff :
    (g : Gateway)
    → g.rr_index + length g.backends ≤ 2 ^ 64
    → ((pick_backend g).0 ≡ none) ↔ AllUnhealthy g.backends
unfolding pick_backend
nobody_iff g room = (nobody, somebody)
  where
    nobody : (pick_backend g).0 ≡ none → AllUnhealthy g.backends
    nobody = elim (Bool-cases (length g.backends == 0)) [
      | inl e ↦ λ h i b at.
          absurd
            (omega (arith, lt_of_get_elem? g.backends i b at, (==_iff (length g.backends) 0).0 e))
      | inr e ↦ rw e (λ h i b at.
          let hit = cover g.rr_index (length g.backends) i (lt_of_get_elem? g.backends i b at) in
          pick_loop-none (length g.backends) (length g.backends) g refl
            (omega (arith, lt_of_get_elem? g.backends i b at)) room h hit.0 b hit.1
            (ap (get_elem? g.backends) hit.2 ∙ at))
    ]

    somebody : AllUnhealthy g.backends → (pick_backend g).0 ≡ none
    somebody ill = elim (Bool-cases (length g.backends == 0)) [
      | inl e ↦ rw e refl
      | inr e ↦ rw e (pick_loop-skips (length g.backends) (length g.backends) g ill)
    ]

abbrev pub any_healthy : List Backend → Bool
any_healthy [] = false
any_healthy (b ∷ bs) = if b.healthy then true else any_healthy bs

any_healthy_fwd : (bs : List Backend) → any_healthy bs ≡ false → AllUnhealthy bs
any_healthy_fwd [] e i b at = absurd (ground arith)
any_healthy_fwd (c ∷ bs) e zero b at =
    ap (λ x. x.healthy) (sym (some-injective c b at)) ∙ ground arith
any_healthy_fwd (c ∷ bs) e (suc i) b at = any_healthy_fwd bs (ground arith) i b at

any_healthy_bwd : (bs : List Backend) → AllUnhealthy bs → any_healthy bs ≡ false
any_healthy_bwd [] h = refl
any_healthy_bwd (c ∷ bs) h = rw (h 0 c refl) (any_healthy_bwd bs (λ i b at. h (suc i) b at))

-- `pick_backend` finds nobody exactly when no backend of the list is healthy, as long as the index
-- does not wrap round within the call.
pub pick_backend-none_iff :
    (g : Gateway)
    → g.rr_index + length g.backends ≤ 2 ^ 64
    → ((pick_backend g).0 ≡ none) ↔ (any_healthy g.backends ≡ false)
pick_backend-none_iff g room =
    let both = nobody_iff g room in
    (λ e. any_healthy_bwd g.backends (both.0 e), λ h. both.1 (any_healthy_fwd g.backends h))
