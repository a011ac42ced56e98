-- ===== src/Base/Counts.antt =====
-- How often a number stands in a list.
use Prim.Native.Nat.{ℕ, ◌+◌}
use mathlib.Core.Path.{◌≡◌}
use mathlib.Core.List.{List, [], ◌∷◌, ◌++◌}
use native.Mathlib.Omega.{arith}
use echo_net.Base.Tests.{◌==◌, if◌then◌else◌}

unfoldable pub count : ℕ → List ℕ → ℕ
count k [] = 0
count k (n ∷ ns) = (if n == k then 1 else 0) + count k ns

abbrev pub one : ℕ → ℕ → ℕ
one k n = if n == k then 1 else 0

pub count-append : (k : ℕ) (xs : List ℕ) (n : ℕ) → count k (xs ++ n ∷ []) ≡ count k xs + one k n
unfolding count
count-append k [] n = omega arith
count-append k (x ∷ xs) n = omega (arith, count-append k xs n)
