-- ===== src/Client/Qt.antt =====
-- What the client asks of Qt's strings, as an interface, and what Qt documents of ASCII texts.
use echo_net.Base.{
  Bool, not, is_space, length, ◌++◌, Digits, List, Option, Text, [], false, if◌then◌else◌, is_empty,
  ltb, map, same_text, some, true, ℕ, ◌&&◌, ◌<◌, ◌==◌, ◌^◌, ◌∷◌, ◌≡◌,
}

-- The members of `QString` that the client calls. `split` is the one with `'|'`; `to_uint` is `none`
-- where `toUInt` sets its flag to false; `to_int` is whether there is a minus, and the value without
-- it.
pub record Qt : Type 1 where
  pub QString : Type 0
  pub to_utf8 : QString → Text
  pub from_utf8 : Text → QString
  pub size : QString → ℕ
  pub trimmed : QString → QString
  pub join : QString → QString → QString
  pub split : QString → List QString
  pub same : QString → QString → Bool
  pub starts_with : QString → QString → Bool
  pub to_uint : QString → Option ℕ
  pub to_int : QString → Bool × ℕ
  pub number : ℕ → QString

unfoldable pub is_ascii : Text → Bool
is_ascii [] = true
is_ascii (c ∷ cs) = ltb c 128 && is_ascii cs

-- A byte before the parts of the rest.
unfoldable pub before_first : ℕ → List Text → List Text
before_first c [] = (c ∷ []) ∷ []
before_first c (p ∷ ps) = (c ∷ p) ∷ ps

-- The parts of a text between the bytes `|`.
unfoldable pub split_bytes : Text → List Text
unfolding before_first
split_bytes [] = [] ∷ []
split_bytes (c ∷ cs) =
    let rest = split_bytes cs in if c == 124 then [] ∷ rest else before_first c rest

-- Whether the second text is a prefix of the first.
unfoldable pub has_prefix : Text → Text → Bool
has_prefix s [] = true
has_prefix [] (y ∷ ys) = false
has_prefix (x ∷ xs) (y ∷ ys) = x == y && has_prefix xs ys

-- There is no blank, which `trimmed` would take off at an end.
unfoldable pub has_no_blank : Text → Bool
has_no_blank [] = true
has_no_blank (c ∷ cs) = not (is_space c) && has_no_blank cs

-- On ASCII texts a character is a byte.
pub record Laws (q : Qt) : Type 0 where
  pub to_utf8-from_utf8 : (t : Text) → is_ascii t ≡ true → q.to_utf8 (q.from_utf8 t) ≡ t
  pub split-from_utf8 :
      (t : Text) → is_ascii t ≡ true → q.split (q.from_utf8 t) ≡ map q.from_utf8 (split_bytes t)
  pub same-from_utf8 :
      (s t : Text)
      → is_ascii s ≡ true
      → is_ascii t ≡ true
      → q.same (q.from_utf8 s) (q.from_utf8 t) ≡ same_text s t
  pub starts_with-from_utf8 :
      (s t : Text)
      → is_ascii s ≡ true
      → is_ascii t ≡ true
      → q.starts_with (q.from_utf8 s) (q.from_utf8 t) ≡ has_prefix s t
  pub to_uint-from_utf8 :
      (n : ℕ) (t : Text) → n < 2 ^ 32 → Digits n t → q.to_uint (q.from_utf8 t) ≡ some n
  pub to_int-from_utf8 :
      (n : ℕ) (t : Text) → n < 2 ^ 31 → Digits n t → q.to_int (q.from_utf8 t) ≡ (false, n)
  pub size-to_utf8 : (s : q.QString) → (q.size s == 0) ≡ is_empty (q.to_utf8 s)
  pub size-from_utf8 : (t : Text) → is_ascii t ≡ true → q.size (q.from_utf8 t) ≡ length t
  pub join-from_utf8 :
      (s t : Text)
      → is_ascii s ≡ true
      → is_ascii t ≡ true
      → q.join (q.from_utf8 s) (q.from_utf8 t) ≡ q.from_utf8 (s ++ t)
  pub trimmed-from_utf8 :
      (t : Text)
      → is_ascii t ≡ true
      → has_no_blank t ≡ true
      → q.trimmed (q.from_utf8 t) ≡ q.from_utf8 t
