-- ===== src/Gateway/Choice.antt =====
-- Every outcome of `pick_backend` (src/gateway_main.cpp).
use echo_net.Base.{
  ℕ, ◌+◌, ◌^◌, ◌≤◌, ◌≡◌, refl, Bool, true, false, Option, none, some, ◌↔◌, arith, length,
}
use echo_net.Gateway.State.{Gateway}
use echo_net.Gateway.Pick.{pick_backend}
use echo_net.Gateway.Balance.{
  Chosen, Kept, any_healthy, pick_backend-Chosen, pick_backend-Kept, pick_backend-none_iff,
}

true_of_not_false : (b : Bool) → (b ≡ false → ⊥) → b ≡ true
true_of_not_false true h = refl
true_of_not_false false h = absurd (h refl)

-- What a choice of `pick_backend` is: none, with no healthy backend, or a descriptor, which was chosen.
abbrev pub IsPick : Gateway → Option ℕ × Gateway → Type 0
IsPick g (none, h) = (any_healthy g.backends ≡ false) × Kept g h
IsPick g (some c, h) = (any_healthy g.backends ≡ true) × Chosen g c h × Kept g h

-- Where the index of the round robin has room for one pass, a request finds no backend exactly where
-- none is healthy. Otherwise it gets the descriptor of a healthy one, whose requests are counted one
-- more, modulo `2 ^ 64`, and no other backend changes. In both cases the pending requests, the ids and the metrics
-- stay.
pub pick_backend-IsPick :
    (g : Gateway) → g.rr_index + length g.backends ≤ 2 ^ 64 → IsPick g (pick_backend g)
pick_backend-IsPick g room =
    split (pick_backend g) (pick_backend-none_iff g room) (λ c. pick_backend-Chosen g c)
      (pick_backend-Kept g)
  where
    split :
        (r : Option ℕ × Gateway)
        → (r.0 ≡ none) ↔ (any_healthy g.backends ≡ false)
        → ((c : ℕ) → r.0 ≡ some c → Chosen g c r.1)
        → Kept g r.1
        → IsPick g r
    split (none, h) i k same = (i.0 refl, same)
    split (some c, h) i k same = (
      true_of_not_false (any_healthy g.backends) (λ e. absurd (ground (arith, i.1 e))),
      k c refl,
      same,
    )
