-- ===== src/Base/Occurs.antt =====
-- Where an element of two joined lists stands.
use mathlib.Core.List.{List, [], ◌∷◌, ◌++◌, Memᴰ}
use mathlib.Core.List.Memᴰ.{head, tail}

module _ {ℓ} {A : Type ℓ} where
  pub mem-append-left : (a : A) (xs ys : List A) → Memᴰ a xs → Memᴰ a (xs ++ ys)
  mem-append-left a [] ys m = elim m [ ]
  mem-append-left a (x ∷ xs) ys (head e) = head e
  mem-append-left a (x ∷ xs) ys (tail m) = tail (mem-append-left a xs ys m)

  pub mem-append-right : (a : A) (xs ys : List A) → Memᴰ a ys → Memᴰ a (xs ++ ys)
  mem-append-right a [] ys m = m
  mem-append-right a (x ∷ xs) ys m = tail (mem-append-right a xs ys m)
