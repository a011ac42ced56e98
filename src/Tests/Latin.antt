-- ===== src/Tests/Latin.antt =====
-- Strings of two-byte characters, as an instance of those of Qt, with their laws.
use echo_net.Base.{
  Bool, Bool-cases, List, Option, Text, [], ap, arith, false, if◌then◌else◌, inl, inr, is_empty,
  length, ltb, map, none, refl, same_text, skip_spaces, some, stoi, stoi-Digits, stoul,
  stoul-Digits, sym, to_string, true, ℕ, ◌%◌, ◌*◌, ◌++◌, ◌+◌, ◌-◌, ◌/◌, ◌==◌, ◌^◌, ◌∷◌, ◌≡◌,
}
use echo_net.Client.Qt.{has_no_blank, Qt, Laws, is_ascii, split_bytes, before_first, has_prefix}
use echo_net.Client.Texts.{is_ascii-append, is_ascii-digits}

-- A character below `2 ^ 11`, in UTF-8.
unfoldable pub char_utf8 : ℕ → Text
char_utf8 c = if ltb c 128 then c ∷ [] else (192 + c / 64) ∷ (128 + c % 64) ∷ []

unfoldable pub utf8 : List ℕ → Text
unfolding char_utf8
utf8 [] = []
utf8 (c ∷ cs) = char_utf8 c ++ utf8 cs

-- The characters of a text; `lead` is the first byte of a character, or 0 between two.
unfoldable pub chars : ℕ → Text → List ℕ
chars lead [] = []
chars lead (c ∷ cs) =
    let next = chars 0 cs in
    let inside = chars c cs in
    if ltb c 128
    then c ∷ next
    else if lead == 0
    then inside
    else ((lead - 192) * 64 + (c - 128)) ∷ next

unfoldable pub below : ℕ → Option ℕ → Option ℕ
below n none = none
below n (some k) = if ltb k n then some k else none

unfoldable pub or_nothing : Option (Bool × ℕ) → Bool × ℕ
or_nothing none = (false, 0)
or_nothing (some k) = k

abbrev pub latin : Qt
latin = record {
  QString = List ℕ;
  to_utf8 = utf8;
  from_utf8 = chars 0;
  size = length;
  trimmed = skip_spaces;
  join = ◌++◌;
  split = split_bytes;
  same = same_text;
  starts_with = has_prefix;
  to_uint = λ s. below (2 ^ 32) (stoul s);
  to_int = λ s. or_nothing (stoi s);
  number = to_string;
}

utf8-ascii : (t : Text) → is_ascii t ≡ true → utf8 t ≡ t
unfolding utf8 char_utf8 is_ascii
utf8-ascii [] h = refl
utf8-ascii (c ∷ cs) h = ground (arith, utf8-ascii cs)

chars-ascii : (t : Text) → is_ascii t ≡ true → chars 0 t ≡ t
unfolding chars is_ascii
chars-ascii [] h = refl
chars-ascii (c ∷ cs) h = ground (arith, chars-ascii cs)

chars-before_first :
    (c : ℕ) (ps : List Text)
    → ltb c 128 ≡ true
    → map (chars 0) (before_first c ps) ≡ before_first c (map (chars 0) ps)
unfolding chars before_first
chars-before_first c [] h = rw h refl
chars-before_first c (p ∷ ps) h = rw h refl

chars-split_bytes : (t : Text) → is_ascii t ≡ true → map (chars 0) (split_bytes t) ≡ split_bytes t
unfolding split_bytes is_ascii chars
chars-split_bytes [] h = refl
chars-split_bytes (c ∷ cs) h =
    ground (arith, chars-before_first c (split_bytes cs), chars-split_bytes cs)

utf8-empty : (s : List ℕ) → (length s == 0) ≡ is_empty (utf8 s)
unfolding utf8 char_utf8
utf8-empty [] = refl
utf8-empty (c ∷ cs) = elim (Bool-cases (ltb c 128)) [
  | inl e ↦ rw e (ground arith)
  | inr e ↦ rw e (ground arith)
]

no_blank : (t : Text) → has_no_blank t ≡ true → skip_spaces t ≡ t
unfolding skip_spaces has_no_blank
no_blank [] h = refl
no_blank (c ∷ cs) h = ground (arith, h)

pub latin-Laws : Laws latin
unfolding below or_nothing
latin-Laws = record {
  to_utf8-from_utf8 = λ t h. rw (chars-ascii t h) (utf8-ascii t h);
  split-from_utf8 = λ t h. rw (chars-ascii t h) (sym (chars-split_bytes t h));
  same-from_utf8 = λ s t h k. rw (chars-ascii s h, chars-ascii t k) refl;
  starts_with-from_utf8 = λ s t h k. rw (chars-ascii s h, chars-ascii t k) refl;
  to_uint-from_utf8 = λ n t h d.
      rw (chars-ascii t (is_ascii-digits t d.digits), stoul-Digits n t (omega arith) d)
        (ground (arith, h));
  to_int-from_utf8 =
      λ n t h d. rw (chars-ascii t (is_ascii-digits t d.digits), stoi-Digits n t h d) refl;
  size-to_utf8 = utf8-empty;
  size-from_utf8 = λ t h. ap length (chars-ascii t h);
  join-from_utf8 = λ s t h k.
      rw (chars-ascii s h, chars-ascii t k, chars-ascii (s ++ t) (is_ascii-append s t h k)) refl;
  trimmed-from_utf8 = λ t h k. rw (chars-ascii t h) (no_blank t k);
}
