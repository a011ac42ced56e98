-- ===== src/Client/Texts.antt =====
-- The parts of the texts that the server sends.
use echo_net.Base.{
  Bool, Bool-cases, Digits, List, Text, [], all_digits, arith, decimal, decimal-Digits, false,
  if◌then◌else◌, inl, inr, length, length-append, not, refl, suc, to_string, true, zero, ℕ, ◌%◌,
  ◌&&◌, ◌*◌, ◌++◌, ◌+◌, ◌/◌, ◌<◌, ◌==◌, ◌^◌, ◌∷◌, ◌≡◌, ◌≤◌,
}
use echo_net.Client.Qt.{is_ascii, before_first, split_bytes}

-- There is no `|`.
unfoldable pub has_no_bar : Text → Bool
has_no_bar [] = true
has_no_bar (c ∷ cs) = not (c == 124) && has_no_bar cs

-- What stands before the first `|`.
unfoldable pub before_bar : Text → Text
before_bar [] = []
before_bar (c ∷ cs) = let rest = before_bar cs in if c == 124 then [] else c ∷ rest

-- What stands behind it, in parts.
unfoldable pub after_bar : Text → List Text
unfolding split_bytes
after_bar [] = []
after_bar (c ∷ cs) = let rest = after_bar cs in if c == 124 then split_bytes cs else rest

pub split_bytes-eq : (t : Text) → split_bytes t ≡ before_bar t ∷ after_bar t
unfolding split_bytes before_bar after_bar before_first
split_bytes-eq [] = refl
split_bytes-eq (c ∷ cs) = elim (Bool-cases (c == 124)) [
  | inl e ↦ rw e refl
  | inr e ↦ rw (e, split_bytes-eq cs) refl
]

pub split_bytes-append :
    (t r : Text) → has_no_bar t ≡ true → split_bytes (t ++ 124 ∷ r) ≡ t ∷ split_bytes r
unfolding split_bytes before_first has_no_bar
split_bytes-append [] r h = refl
split_bytes-append (c ∷ cs) r h = rw (bar c cs h, split_bytes-append cs r (ground (arith, h))) refl
  where
    bar : (c : ℕ) (cs : Text) → not (c == 124) && has_no_bar cs ≡ true → (c == 124) ≡ false
    bar c cs h = ground arith

pub has_no_bar-digits : (t : Text) → all_digits t ≡ true → has_no_bar t ≡ true
unfolding has_no_bar all_digits
has_no_bar-digits [] h = refl
has_no_bar-digits (c ∷ cs) h = ground (arith, has_no_bar-digits cs)

pub is_ascii-digits : (t : Text) → all_digits t ≡ true → is_ascii t ≡ true
unfolding is_ascii all_digits
is_ascii-digits [] h = refl
is_ascii-digits (c ∷ cs) h = ground (arith, is_ascii-digits cs)

pub is_ascii-append :
    (s t : Text) → is_ascii s ≡ true → is_ascii t ≡ true → is_ascii (s ++ t) ≡ true
unfolding is_ascii
is_ascii-append [] t h k = k
is_ascii-append (c ∷ cs) t h k = ground (arith, is_ascii-append cs t)

pub to_string-Digits : (n : ℕ) → Digits n (to_string n)
unfolding to_string
to_string-Digits n = decimal-Digits (n + 1) n (omega arith)

abbrev power_of_ten : ℕ → ℕ
power_of_ten zero = 1
power_of_ten (suc k) = 10 * power_of_ten k

length-decimal : (fuel n k : ℕ) → n < power_of_ten (suc k) → length (decimal fuel n) ≤ suc k
unfolding decimal
length-decimal zero n k h = omega arith
length-decimal (suc fuel) n zero h = ground (arith, h)
length-decimal (suc fuel) n (suc k) h =
    let rest = length-decimal fuel (n / 10) k (omega (arith, h)) in
    ground (arith, rest, length-append (decimal fuel (n / 10)) ((48 + n % 10) ∷ []))

-- A number of 32 bits has ten digits at most.
pub length-to_string : (n : ℕ) → n < 2 ^ 32 → length (to_string n) ≤ 10
unfolding to_string
length-to_string n h = length-decimal (n + 1) n 9 (omega (arith, h))
