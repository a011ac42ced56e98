-- ===== src/Base/Decimal.antt =====
-- Scanning a text and the decimal numbers in it, as `std::string`, `std::to_string` and
-- `std::stoul` do.
use Prim.Native.Nat.{◌^◌, ℕ, zero, suc, ◌+◌, ◌-◌, ◌*◌, ◌/◌, ◌%◌, ◌<◌}
use mathlib.Core.Path.{◌≡◌, refl, ap, ◌∙◌}
use mathlib.Core.Logic.{inl, inr}
use mathlib.Core.Bool.{Bool, true, false, ◌&&◌, ◌||◌}
use mathlib.Core.Option.{Option, none, some}
use mathlib.Core.List.{[], ◌∷◌, ◌++◌}
use native.Mathlib.Omega.{arith}
use echo_net.Base.Tests.{◌==◌, if◌then◌else◌, ltb, leb, Bool-cases}
use echo_net.Base.Lists.{length, length-append}
use echo_net.Base.Strings.{Text}

abbrev pub is_empty : Text → Bool
is_empty [] = true
is_empty (c ∷ cs) = false

-- `std::isspace` in the C locale.
abbrev pub is_space : ℕ → Bool
is_space c = c == 32 || leb 9 c && leb c 13

unfoldable pub skip_spaces : Text → Text
skip_spaces [] = []
skip_spaces (c ∷ cs) = if is_space c then skip_spaces cs else c ∷ cs

-- An index in the rest of a text, as one in the whole.
abbrev pub next_index : Option ℕ → Option ℕ
next_index none = none
next_index (some i) = some (i + 1)

-- `find(":")`
unfoldable pub find_byte : ℕ → Text → Option ℕ
find_byte x [] = none
find_byte x (c ∷ cs) = if c == x then some 0 else next_index (find_byte x cs)

unfoldable pub all_digits : Text → Bool
all_digits [] = true
all_digits (c ∷ cs) = leb 48 c && leb c 57 && all_digits cs

-- The value of decimal digits, after `acc`.
unfoldable pub to_number : ℕ → Text → ℕ
to_number acc [] = acc
to_number acc (c ∷ cs) = to_number (acc * 10 + (c - 48)) cs

-- `std::to_string`: the last digit, after those of the tenth. Any fuel above the number is enough.
unfoldable pub decimal : ℕ → ℕ → Text
decimal zero n = []
decimal (suc fuel) n =
    let front = decimal fuel (n / 10) in
    if ltb n 10 then (48 + n) ∷ [] else front ++ (48 + n % 10) ∷ []

unfoldable pub to_string : ℕ → Text
unfolding decimal
to_string n = decimal (n + 1) n

to_number-append :
    (acc : ℕ) (s : Text) (c : ℕ) → to_number acc (s ++ c ∷ []) ≡ to_number acc s * 10 + (c - 48)
unfolding to_number
to_number-append acc [] c = refl
to_number-append acc (d ∷ s) c = to_number-append (acc * 10 + (d - 48)) s c

all_digits-append :
    (s : Text) (c : ℕ)
    → all_digits s ≡ true
    → leb 48 c && leb c 57 ≡ true
    → all_digits (s ++ c ∷ []) ≡ true
unfolding all_digits
all_digits-append [] c h k = ground arith
all_digits-append (d ∷ s) c h k = ground (arith, all_digits-append s c)

-- The digits are those of the number.
pub record Digits (n : ℕ) (s : Text) : Type 0 where
  pub value : to_number 0 s ≡ n
  pub digits : all_digits s ≡ true
  pub some_digit : 0 < length s

digit : (d : ℕ) → d < 10 → leb 48 (48 + d) && leb (48 + d) 57 ≡ true
digit d h = ground arith

pub decimal-Digits : (fuel n : ℕ) → n < fuel → Digits n (decimal fuel n)
unfolding decimal to_number all_digits
decimal-Digits zero n h = absurd (omega arith)
decimal-Digits (suc fuel) n h = elim (Bool-cases (ltb n 10)) [
  | inl one ↦
      rw one
        (record { value = omega arith; digits = ground (arith, digit n); some_digit = omega arith })
  | inr more ↦
      let rest = decimal-Digits fuel (n / 10) (ground arith) in
      let s = decimal fuel (n / 10) in
      rw more (record {
        value =
            to_number-append 0 s (48 + n % 10)
            ∙ ap (λ k. k * 10 + (48 + n % 10 - 48)) rest.value
            ∙ omega arith;
        digits = all_digits-append s (48 + n % 10) rest.digits (digit (n % 10) (omega arith));
        some_digit = ground (arith, length-append s ((48 + n % 10) ∷ []));
      })
]

-- The digits at the front.
unfoldable pub leading_digits : Text → Text
leading_digits [] = []
leading_digits (c ∷ cs) =
    let rest = leading_digits cs in if leb 48 c && leb c 57 then c ∷ rest else []

-- A sign, and the text after it.
unfoldable pub split_sign : Text → Bool × Text
split_sign [] = (false, [])
split_sign (c ∷ cs) =
    if c == 45 then (true, cs) else if c == 43 then (false, cs) else (false, c ∷ cs)

-- `std::stoul` with 64 bits: `none` is an exception. A minus negates modulo `2 ^ 64`.
unfoldable pub stoul : Text → Option ℕ
unfolding leading_digits split_sign
stoul s =
    let (negative, unsigned) = split_sign (skip_spaces s) in
    let digits = leading_digits unsigned in
    let n = to_number 0 digits in
    if is_empty digits
    then none
    else if leb (2 ^ 64) n
    then none
    else if negative
    then some ((2 ^ 64 - n) % 2 ^ 64)
    else some n

-- `std::stoi` with 32 bits: whether there is a minus, and the value without it.
unfoldable pub stoi : Text → Option (Bool × ℕ)
unfolding leading_digits split_sign
stoi s =
    let (negative, unsigned) = split_sign (skip_spaces s) in
    let digits = leading_digits unsigned in
    let n = to_number 0 digits in
    if is_empty digits
    then none
    else if ltb (if negative then 2 ^ 31 else 2 ^ 31 - 1) n
    then none
    else some (negative, n)

leading_digits_all : (s : Text) → all_digits s ≡ true → leading_digits s ≡ s
unfolding leading_digits all_digits
leading_digits_all [] h = refl
leading_digits_all (c ∷ s) h = ground (arith, leading_digits_all s)

-- A digit is neither a blank nor a sign.
digit-plain :
    (c : ℕ) (s : Text)
    → all_digits (c ∷ s) ≡ true
    → (is_space c ≡ false) × ((c == 45) ≡ false) × ((c == 43) ≡ false)
unfolding all_digits
digit-plain c s h = (ground arith, ground arith, ground arith)

-- The digits of a number are read back as it.
pub stoi-Digits : (n : ℕ) (s : Text) → n < 2 ^ 31 → Digits n s → stoi s ≡ some (false, n)
unfolding stoi split_sign skip_spaces
stoi-Digits n [] h d = absurd (omega (arith, d.some_digit))
stoi-Digits n (c ∷ s) h d =
    let (blank, minus, plus) = digit-plain c s d.digits in
    rw (blank, minus, plus, leading_digits_all (c ∷ s) d.digits, d.value) (ground arith)

pub stoul-Digits : (n : ℕ) (s : Text) → n < 2 ^ 64 → Digits n s → stoul s ≡ some n
unfolding stoul split_sign skip_spaces
stoul-Digits n [] h d = absurd (omega (arith, d.some_digit))
stoul-Digits n (c ∷ s) h d =
    let (blank, minus, plus) = digit-plain c s d.digits in
    rw (blank, minus, plus, leading_digits_all (c ∷ s) d.digits, d.value) (ground arith)
