-- ===== src/Base/Maps.antt =====
-- `std::unordered_map` with number keys, as a list of entries. No result depends on their order.
use Prim.Native.Nat.{ℕ, ◌+◌, ◌≤◌, ◌<◌}
use mathlib.Core.Path.{◌≡◌, refl, sym, ◌∙◌}
use mathlib.Core.Logic.{◌⊎◌, inl, inr}
use mathlib.Core.Bool.{false}
use mathlib.Core.Option.{Option, none, some, some-injective}
use mathlib.Core.List.{List, [], ◌∷◌}
use native.Mathlib.Omega.{arith}
use echo_net.Base.Tests.{◌==◌, ==_iff, Bool-cases, if◌then◌else◌}
use echo_net.Base.Lists.{length}

module _ {ℓ} {V : Type ℓ} where
  unfoldable pub find : ℕ → List (ℕ × V) → Option V
  find k [] = none
  find k ((j, v) ∷ m) = if j == k then some v else find k m

  unfoldable pub put : ℕ → V → List (ℕ × V) → List (ℕ × V)
  put k v [] = (k, v) ∷ []
  put k v ((j, w) ∷ m) = if j == k then (k, v) ∷ m else (j, w) ∷ put k v m

  unfoldable pub remove : ℕ → List (ℕ × V) → List (ℕ × V)
  remove k [] = []
  remove k ((j, w) ∷ m) = if j == k then remove k m else (j, w) ∷ remove k m

  pub find-put :
      (k j : ℕ) (v : V) (m : List (ℕ × V))
      → find j (put k v m) ≡ (if k == j then some v else find j m)
  unfolding find put
  find-put k j v [] = refl
  find-put k j v ((i, w) ∷ m) = ground (arith, find-put k j v m)

  pub find-remove :
      (k j : ℕ) (m : List (ℕ × V)) → find j (remove k m) ≡ (if k == j then none else find j m)
  unfolding find remove
  find-remove k j [] = ground arith
  find-remove k j ((i, w) ∷ m) = ground (arith, find-remove k j m)

  pub length-put-le : (k : ℕ) (v : V) (m : List (ℕ × V)) → length (put k v m) ≤ length m + 1
  unfolding put
  length-put-le k v [] = omega arith
  length-put-le k v ((i, w) ∷ m) = ground (arith, length-put-le k v m)

  pub length-remove-le : (k : ℕ) (m : List (ℕ × V)) → length (remove k m) ≤ length m
  unfolding remove
  length-remove-le k [] = omega arith
  length-remove-le k ((i, w) ∷ m) = ground (arith, length-remove-le k m)

  -- Removing a key that is there makes the map smaller.
  pub length-remove-lt :
      (k : ℕ) (v : V) (m : List (ℕ × V)) → find k m ≡ some v → length (remove k m) < length m
  unfolding find remove
  length-remove-lt k v [] e = absurd (ground arith)
  length-remove-lt k v ((i, w) ∷ m) e = ground (arith, length-remove-lt k v m, length-remove-le k m)

  -- What is found after a change was put, or was there.
  pub find-put-some :
      (k j : ℕ) (v w : V) (m : List (ℕ × V))
      → find j (put k v m) ≡ some w
      → ((k ≡ j) × (v ≡ w)) ⊎ (((k == j) ≡ false) × (find j m ≡ some w))
  find-put-some k j v w m e = elim (Bool-cases (k == j)) [
    | inl same ↦
        inl ((==_iff k j).0 same, some-injective v w (sym (find-put k j v m ∙ rw same refl) ∙ e))
    | inr differ ↦ inr (differ, sym (find-put k j v m ∙ rw differ refl) ∙ e)
  ]

  pub find-remove-some :
      (k j : ℕ) (w : V) (m : List (ℕ × V))
      → find j (remove k m) ≡ some w
      → ((k == j) ≡ false) × (find j m ≡ some w)
  find-remove-some k j w m e = elim (Bool-cases (k == j)) [
    | inl same ↦ absurd (ground (arith, find-remove k j m, same, e))
    | inr differ ↦ (differ, sym (find-remove k j m ∙ rw differ refl) ∙ e)
  ]
