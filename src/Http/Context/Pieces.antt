-- ===== src/Http/Context/Pieces.antt =====
-- A request may arrive in any pieces.
use echo_net.Base.{
  ℕ, ◌+◌, ◌≤◌, ◌≡◌, refl, sym, ap, ◌∙◌, subst, inl, inr, [], ◌∷◌, ◌++◌, false, Option, some, none,
  arith, Text, length, drop, length-append, length-drop, drop-append_le, drop-drop, Bool-cases,
  Returns,
}
use echo_net.Net.Buffer.{Buffer, buffer_append}
use echo_net.Net.Buffer.Bounds.{IsValid, buffer_append-IsValid}
use echo_net.Net.Buffer.Contents.{contents, contents-buffer_append}
use echo_net.Protocol.{ParseResult, need_more}
use echo_net.Http.Message.{HttpRequest}
use echo_net.Http.Context.Scan.{ParseState, Scan, consume_more, scan}
use echo_net.Http.Context.Resume.{resumed, scan-append, scan-fuel, bonus_le}
use echo_net.Http.Context.Parse.{HttpContext, is_done, verdict, parse_request}
use echo_net.Http.Context.Correct.{
  Seen, seen, settled, outcome, scan-consumed, parse_request-outcome,
}

verdict-need_more : (s : ParseState) → verdict s ≡ need_more → is_done s ≡ false
verdict-need_more s = elim (Bool-cases (is_done s)) [
  | inl d ↦ rw d (λ e. absurd (ground arith))
  | inr d ↦ λ e. d
]

-- A scan that stopped for want of bytes.
settled-need_more :
    (a : Text) (o : Scan)
    → (settled a o).0 ≡ need_more
    → (o.failed ≡ false) × (is_done o.state ≡ false)
unfolding settled
settled-need_more a o = elim (Bool-cases o.failed) [
  | inl bad ↦ rw bad (λ e. absurd (ground arith))
  | inr good ↦ rw good (λ e. (refl, verdict-need_more o.state e))
]

outcome-going :
    (x : HttpContext) (r : HttpRequest) (w : Text)
    → is_done x.parsestate ≡ false
    → outcome x r w ≡ settled w (scan (length w + 1) x.parsestate r w)
unfolding outcome settled scan
outcome-going x r [] e = rw e refl
outcome-going x r (c ∷ cs) e = ground arith

pub outcome-more :
    (x : HttpContext) (r : HttpRequest) (c : ℕ) (cs : Text)
    → outcome x r (c ∷ cs) ≡ settled (c ∷ cs) (scan (length (c ∷ cs) + 1) x.parsestate r (c ∷ cs))
unfolding outcome
outcome-more x r c cs = ground arith

settled-consume_more :
    (a b : Text) (k : ℕ) (o : Scan)
    → k ≤ length a
    → settled (a ++ b) (consume_more k o) ≡ settled (drop k a ++ b) o
unfolding settled
settled-consume_more a b k o h =
    rw (sym (drop-drop o.consumed k (a ++ b)), drop-append_le k a b h) refl

abbrev paused : Scan → HttpContext
paused o = record { parsestate = o.state; is_error = false }

settled-good :
    (a : Text) (o : Scan)
    → o.failed ≡ false
    → settled a o ≡ (verdict o.state, paused o, o.request, drop o.consumed a)
unfolding settled
settled-good a o good = rw good refl

resumed-good :
    (h : ℕ) (a b : Text) (o : Scan)
    → o.failed ≡ false
    → resumed h b a o ≡ consume_more o.consumed (scan h o.state o.request (drop o.consumed a ++ b))
resumed-good h a b o good = simp good refl

settled-append :
    (s : ParseState) (r : HttpRequest) (a b : Text) (o : Scan)
    → scan (length a + 1) s r a ≡ o
    → o.failed ≡ false
    → is_done o.state ≡ false
    → settled (a ++ b) (scan (length (a ++ b) + 1) s r (a ++ b))
      ≡ outcome (paused o) o.request (drop o.consumed a ++ b)
settled-append s r a b o e good going =
    let k_le : o.consumed ≤ length a =
      subst (λ x. x.consumed ≤ length a) e (scan-consumed (length a + 1) s r a) in
    let h = length a + length b + 1 in
    let left = drop o.consumed a ++ b in
    ap (settled (a ++ b)) (
      scan-append (length a + 1) (length (a ++ b) + 1) h s r a b (omega (arith, bonus_le s))
        (omega (arith, bonus_le s)) (omega arith)
      ∙ ap (resumed h b a) e
      ∙ resumed-good h a b o good)
    ∙ settled-consume_more a b o.consumed (scan h o.state o.request left) k_le
    ∙ ap (settled left) (
        scan-fuel h (length left + 1) o.state o.request left
          (omega (
            arith,
            bonus_le o.state,
            length-append (drop o.consumed a) b,
            length-drop o.consumed a,
          ))
          (omega (arith, bonus_le o.state)))
    ∙ sym (outcome-going (paused o) o.request left going)

outcome-append :
    (x : HttpContext) (r : HttpRequest) (a b : Text)
    → (outcome x r a).0 ≡ need_more
    → outcome x r (a ++ b) ≡ outcome (outcome x r a).1 (outcome x r a).2 ((outcome x r a).3 ++ b)
unfolding outcome
outcome-append x r [] b n = refl
outcome-append x r (c ∷ cs) b n =
    let a = c ∷ cs in
    let o = scan (length a + 1) x.parsestate r a in
    let whole = outcome-more x r c cs in
    let (good, going) = settled-need_more a o (ap (λ t. t.0) (sym whole) ∙ n) in
    outcome-more x r c (cs ++ b)
    ∙ settled-append x.parsestate r a b o refl good going
    ∙ ap (λ t. outcome t.1 t.2 (t.3 ++ b)) (sym (whole ∙ settled-good a o good))

abbrev pub Call : Type 0
Call = Option (ParseResult × HttpContext × HttpRequest × Buffer)

-- Two calls return, and nobody can tell their results apart.
abbrev pub Agree : Call → Call → Type 0
Agree none u = ⊥
Agree (some t) none = ⊥
Agree (some t) (some u) = seen t ≡ seen u

Returns-Agree :
    (m n : Call) (s t : Seen)
    → Returns (λ c. IsValid c.3 × (seen c ≡ s)) m
    → Returns (λ c. IsValid c.3 × (seen c ≡ t)) n
    → s ≡ t
    → Agree m n
Returns-Agree none n s t h k e = absurd h
Returns-Agree (some c) none s t h k e = absurd k
Returns-Agree (some c) (some d) s t h k e = h.1 ∙ e ∙ sym k.1

-- When a call of `parse` on a well-formed buffer wants more, a call once more bytes have arrived,
-- with the state, the request and the buffer that the first one left, gives the same result, state
-- and request as one call on all the bytes would have given, and leaves the same bytes unless it is
-- an error.
pub parse_resumes :
    (x x1 : HttpContext) (r r1 : HttpRequest) (b b1 : Buffer) (more : Text)
    → IsValid b
    → parse_request x r b ≡ some (need_more, x1, r1, b1)
    → Agree (parse_request x r (buffer_append b more)) (parse_request x1 r1 (buffer_append b1 more))
parse_resumes x x1 r r1 b b1 more v e =
    let (w, s) =
      subst (Returns (λ c. IsValid c.3 × (seen c ≡ outcome x r (contents b)))) e
        (parse_request-outcome x r b v) in
    Returns-Agree (parse_request x r (buffer_append b more))
      (parse_request x1 r1 (buffer_append b1 more)) (outcome x r (contents (buffer_append b more)))
      (outcome x1 r1 (contents (buffer_append b1 more)))
      (parse_request-outcome x r (buffer_append b more) (buffer_append-IsValid b more v))
      (parse_request-outcome x1 r1 (buffer_append b1 more) (buffer_append-IsValid b1 more w))
      (ap (outcome x r) (contents-buffer_append b more v)
        ∙ outcome-append x r (contents b) more (ap (λ t. t.0) (sym s))
        ∙ ap (λ t. outcome t.1 t.2 (t.3 ++ more)) (sym s)
        ∙ ap (outcome x1 r1) (sym (contents-buffer_append b1 more w)))
