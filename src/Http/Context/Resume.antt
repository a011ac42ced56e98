-- ===== src/Http/Context/Resume.antt =====
-- The loop can be left and resumed at any byte: parsing in pieces is parsing at once.
use echo_net.Base.{
  next_index, ℕ, zero, suc, ◌+◌, ◌≤◌, ◌<◌, ◌≡◌, refl, sym, ap, ◌∙◌, inl, inr, [], ◌∷◌, ◌++◌, Bool,
  true, false, ◌&&◌, Option, some, none, arith, if◌then◌else◌, ◌==◌, ltb, Text, bytes, length, take,
  drop, length-append, length-drop, drop-append_le, take-append_le, drop-drop, Bool-cases,
}
use echo_net.Http.Message.{HttpRequest, find_header}
use echo_net.Http.Context.Lines.{line_context, header_context, find_crlf, content_length}
use echo_net.Http.Context.Scan.{
  ParseState, request_line, headers, body, done, Turn, stop, fail, go, after_line, line_turn,
  headers_turn, sized_turn, body_turn, turn, Scan, consume_more, act, scan, after_headers,
}
use Prim.{Unit, tt}

-- What the rounds that are left can consume: a byte each, but for the one that finds an empty body.
abbrev pub bonus : ParseState → ℕ
bonus done = 0
bonus _ = 1

abbrev pub room : ParseState → Text → ℕ
room s view = length view + bonus s

next_index-some :
    (n : ℕ) (o : Option ℕ) → next_index o ≡ some n → (i : ℕ) × (o ≡ some i) × (n ≡ i + 1)
next_index-some n none e = absurd (ground arith)
next_index-some n (some i) e = (i, refl, ground arith)

find_crlf-append :
    (n : ℕ) (a b : Text) → find_crlf a ≡ some n → (find_crlf (a ++ b) ≡ some n) × (n + 2 ≤ length a)
unfolding find_crlf
find_crlf-append n [] b = λ e. absurd (ground arith)
find_crlf-append n (c ∷ []) b = λ e. absurd (ground arith)
find_crlf-append n (c ∷ d ∷ cs) b = elim (Bool-cases (c == 13 && d == 10)) [
  | inl ends ↦ rw ends (λ e. (e, ground arith))
  | inr goes ↦ rw goes (λ e.
      let (i, at, n_eq) = next_index-some n (find_crlf (d ∷ cs)) e in
      let (same, fits) = find_crlf-append i (d ∷ cs) b at in
      (ap next_index same ∙ ap some (sym n_eq), omega (arith, fits, n_eq)))
]

pub bonus_le : (s : ParseState) → bonus s ≤ 1
bonus_le request_line = omega arith
bonus_le headers = omega arith
bonus_le body = omega arith
bonus_le done = omega arith

-- A round that has what it needs does the same when more bytes follow, and the loop gets on.
abbrev pub Stable : ParseState → Text → Turn → Turn → Type 0
Stable s a stop u = Unit {0}
Stable s a (fail q) u = u ≡ fail q
Stable s a (go t q n) u = (u ≡ go t q n) × (n ≤ length a) × (room t (drop n a) < room s a)

after_line-Stable :
    (s : ParseState) (a : Text) (n : ℕ) (p : Bool × HttpRequest)
    → n + 2 ≤ length a
    → bonus s ≡ 1
    → Stable s a (after_line n p) (after_line n p)
unfolding after_line
after_line-Stable s a n (true, r) h e = (refl, h, omega (arith, e, length-drop (n + 2) a))
after_line-Stable s a n (false, r) h e = refl

line-Stable :
    (r : HttpRequest) (a b : Text) (o : Option ℕ)
    → find_crlf a ≡ o
    → Stable request_line a (line_turn r a o) (line_turn r (a ++ b) (find_crlf (a ++ b)))
unfolding line_turn
line-Stable r a b none e = tt
line-Stable r a b (some n) e =
    let (same, room_for) = find_crlf-append n a b e in
    rw (same, take-append_le n a b (omega arith))
      (after_line-Stable request_line a n (line_context (take n a) r) room_for refl)

headers-Stable :
    (r : HttpRequest) (a b : Text) (o : Option ℕ)
    → find_crlf a ≡ o
    → Stable headers a (headers_turn r a o) (headers_turn r (a ++ b) (find_crlf (a ++ b)))
unfolding headers_turn
headers-Stable r a b none e = tt
headers-Stable r a b (some n) e =
    let (same, room_for) = find_crlf-append n a b e in
    elim (Bool-cases (n == 0)) [
      | inl blank ↦
          rw (same, blank)
            (
              refl,
              omega (arith, room_for),
              omega (
                arith,
                room_for,
                length-drop 2 a,
                bonus_le (after_headers (find_header (bytes "Content-Length") r.header)),
              ),
            )
      | inr line ↦
          rw (same, line, take-append_le n a b (omega (arith, room_for)))
            (after_line-Stable headers a n (header_context (take n a) r) room_for refl)
    ]

fits : (a : Text) (size : ℕ) → ltb (length a) size ≡ false → size ≤ length a
fits a size e = ground arith

longer : (a b : Text) (size : ℕ) → ltb (length a) size ≡ false → ltb (length (a ++ b)) size ≡ false
longer a b size e = ground (arith, length-append a b)

sized-Stable :
    (r : HttpRequest) (a b : Text) (o : Option ℕ)
    → Stable body a (sized_turn r a o) (sized_turn r (a ++ b) o)
unfolding sized_turn
sized-Stable r a b none = refl
sized-Stable r a b (some size) = elim (Bool-cases (size == 0)) [
  | inl empty ↦ rw empty (refl, omega arith, omega arith)
  | inr more ↦ elim (Bool-cases (ltb (length a) size)) [
    | inl short ↦ rw (more, short) tt
    | inr enough ↦
        rw (more, enough, longer a b size enough, take-append_le size a b (fits a size enough))
          (refl, fits a size enough, omega (arith, length-drop size a))
  ]
]

body-Stable :
    (r : HttpRequest) (a b : Text) (o : Option Text)
    → Stable body a (body_turn r a o) (body_turn r (a ++ b) o)
unfolding body_turn
body-Stable r a b none = refl
body-Stable r a b (some v) = sized-Stable r a b (content_length v)

pub turn-Stable :
    (s : ParseState) (r : HttpRequest) (a b : Text) → Stable s a (turn s r a) (turn s r (a ++ b))
unfolding turn
turn-Stable request_line r a b = line-Stable r a b (find_crlf a) refl
turn-Stable headers r a b = headers-Stable r a b (find_crlf a) refl
turn-Stable body r a b = body-Stable r a b (find_header (bytes "Content-Length") r.header)
turn-Stable done r a b = tt

act-fuel :
    (next last : ParseState → HttpRequest → Text → Scan) (s : ParseState) (r : HttpRequest)
    (a : Text) (t u : Turn)
    → Stable s a t u
    → ((s1 : ParseState) (r1 : HttpRequest) (a1 : Text)
        → room s1 a1 < room s a
        → next s1 r1 a1 ≡ last s1 r1 a1)
    → act next s r a t ≡ act last s r a t
unfolding act
act-fuel next last s r a stop u st h = refl
act-fuel next last s r a (fail q) u st h = refl
act-fuel next last s r a (go t q n) u st h = ap (consume_more n) (h t q (drop n a) st.2)

-- The fuel does not matter, once there is enough.
pub scan-fuel :
    (f g : ℕ) (s : ParseState) (r : HttpRequest) (a : Text)
    → room s a ≤ f
    → room s a ≤ g
    → scan f s r a ≡ scan g s r a
unfolding scan
scan-fuel zero zero s r a h k = refl
scan-fuel zero (suc g) s r [] h k = refl
scan-fuel zero (suc g) s r (c ∷ cs) h k = absurd (omega arith)
scan-fuel (suc f) zero s r [] h k = refl
scan-fuel (suc f) zero s r (c ∷ cs) h k = absurd (omega arith)
scan-fuel (suc f) (suc g) s r [] h k = refl
scan-fuel (suc f) (suc g) s r (c ∷ cs) h k =
    act-fuel (scan f) (scan g) s r (c ∷ cs) (turn s r (c ∷ cs)) (turn s r ((c ∷ cs) ++ []))
      (turn-Stable s r (c ∷ cs) [])
      (λ s1 r1 a1 less. scan-fuel f g s1 r1 a1 (omega arith) (omega arith))

-- The loop resumed on what it left of `a`, with `b` behind.
abbrev pub resumed : ℕ → Text → Text → Scan → Scan
resumed h b a o =
    if o.failed
    then o
    else consume_more o.consumed (scan h o.state o.request (drop o.consumed a ++ b))

consume_more_zero : (o : Scan) → consume_more 0 o ≡ o
consume_more_zero o = ground arith

consume_more_add : (n m : ℕ) (o : Scan) → consume_more n (consume_more m o) ≡ consume_more (n + m) o
consume_more_add n m o = ground arith

resumed-consume_more :
    (h n : ℕ) (a b : Text) (o : Scan)
    → consume_more n (resumed h b (drop n a) o) ≡ resumed h b a (consume_more n o)
resumed-consume_more h n a b o = elim (Bool-cases o.failed) [
  | inl bad ↦ rw bad refl
  | inr good ↦
      rw (good, drop-drop o.consumed n a)
        (consume_more_add n o.consumed (scan h o.state o.request (drop (n + o.consumed) a ++ b)))
]

act-resumes :
    (f g h : ℕ) (s : ParseState) (r : HttpRequest) (a b : Text) (t u : Turn)
    → Stable s a t u
    → act (scan g) s r (a ++ b) u ≡ scan h s r (a ++ b)
    → ((s1 : ParseState) (r1 : HttpRequest) (n : ℕ)
        → n ≤ length a
        → room s1 (drop n a) < room s a
        → scan g s1 r1 (drop n a ++ b) ≡ resumed h b (drop n a) (scan f s1 r1 (drop n a)))
    → act (scan g) s r (a ++ b) u ≡ resumed h b a (act (scan f) s r a t)
unfolding act
act-resumes f g h s r a b stop u st whole next =
    whole ∙ sym (consume_more_zero (scan h s r (a ++ b)))
act-resumes f g h s r a b (fail q) u st whole next = rw st refl
act-resumes f g h s r a b (go t q n) u (same, enough, less) whole next =
    rw (same, drop-append_le n a b enough, next t q n enough less)
      (resumed-consume_more h n a b (scan f t q (drop n a)))

-- Scanning `a` and then, from where that stopped, what it left with `b` behind, is scanning both.
pub scan-append :
    (f g h : ℕ) (s : ParseState) (r : HttpRequest) (a b : Text)
    → room s a ≤ f
    → room s (a ++ b) ≤ g
    → length a + length b < h
    → scan g s r (a ++ b) ≡ resumed h b a (scan f s r a)
unfolding scan
scan-append zero g h s r [] b x y z =
    scan-fuel g h s r b y (omega (arith, z, bonus_le s)) ∙ sym (consume_more_zero (scan h s r b))
scan-append (suc f) g h s r [] b x y z =
    scan-fuel g h s r b y (omega (arith, z, bonus_le s)) ∙ sym (consume_more_zero (scan h s r b))
scan-append zero g h s r (c ∷ cs) b x y z = absurd (omega arith)
scan-append (suc f) zero h s r (c ∷ cs) b x y z = absurd (omega arith)
scan-append (suc f) (suc g) h s r (c ∷ cs) b x y z =
    act-resumes f g h s r (c ∷ cs) b (turn s r (c ∷ cs)) (turn s r (c ∷ cs ++ b))
      (turn-Stable s r (c ∷ cs) b)
      (scan-fuel (suc g) h s r (c ∷ cs ++ b) y
        (omega (arith, z, length-append (c ∷ cs) b, bonus_le s)))
      (λ s1 r1 n enough less.
        scan-append f g h s1 r1 (drop n (c ∷ cs)) b (omega arith)
          (omega (arith, y, less, length-append (c ∷ cs) b, length-append (drop n (c ∷ cs)) b))
          (omega (arith, z, enough, length-drop n (c ∷ cs))))
