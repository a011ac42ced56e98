-- ===== src/Http/Context/Correct.antt =====
-- The parser on buffers: no assertion of the buffer fails, and a request may arrive in any pieces.
use echo_net.Base.{
  ℕ, zero, suc, ◌+◌, ◌≤◌, ◌≡◌, refl, ◌∙◌, inl, inr, [], ◌∷◌, ◌++◌, Bool, true, false, arith,
  if◌then◌else◌, ◌==◌, ltb, Text, length, take, drop, length-drop, take_all, Bool-cases, Returns,
}
use echo_net.Net.Buffer.{Buffer, readable, peek}
use echo_net.Net.Buffer.Bounds.{IsValid, move_read_ptr-eq, advance-IsValid}
use echo_net.Net.Buffer.Contents.{contents, length-contents, contents-advance, take-peek}
use echo_net.Protocol.{ParseResult, need_more, error}
use echo_net.Http.Message.{HttpRequest}
use echo_net.Http.Context.Scan.{ParseState, Turn, stop, fail, go, turn, Scan, act, scan}
use echo_net.Http.Context.Resume.{Stable, turn-Stable}
use echo_net.Http.Context.Parse.{HttpContext, is_done, verdict, finish, parse_request}

act-consumed :
    (next : ParseState → HttpRequest → Text → Scan) (s : ParseState) (r : HttpRequest) (a : Text)
    (t u : Turn)
    → Stable s a t u
    → ((s1 : ParseState) (r1 : HttpRequest) (a1 : Text) → (next s1 r1 a1).consumed ≤ length a1)
    → (act next s r a t).consumed ≤ length a
unfolding act
act-consumed next s r a stop u st h = omega arith
act-consumed next s r a (fail q) u st h = omega arith
act-consumed next s r a (go t q n) u st h = omega (arith, st.1, h t q (drop n a), length-drop n a)

pub scan-consumed :
    (f : ℕ) (s : ParseState) (r : HttpRequest) (a : Text) → (scan f s r a).consumed ≤ length a
unfolding scan
scan-consumed zero s r a = omega arith
scan-consumed (suc f) s r [] = omega arith
scan-consumed (suc f) s r (c ∷ cs) =
    act-consumed (scan f) s r (c ∷ cs) (turn s r (c ∷ cs)) (turn s r ((c ∷ cs) ++ []))
      (turn-Stable s r (c ∷ cs) []) (scan-consumed f)

-- What a call gives, with the bytes that it leaves, or none of them after an error.
abbrev pub Seen : Type 0
Seen = ParseResult × HttpContext × HttpRequest × Text

abbrev is_failure : ParseResult → Bool
is_failure error = true
is_failure _ = false

abbrev pub seen : ParseResult × HttpContext × HttpRequest × Buffer → Seen
seen t = (t.0, t.1, t.2, if is_failure t.0 then [] else contents t.3)

-- The parser as a function of the bytes.
unfoldable pub settled : Text → Scan → Seen
settled w o =
    if o.failed then (error, record { parsestate = o.state; is_error = true }, o.request, []) else (
      verdict o.state,
      record { parsestate = o.state; is_error = false },
      o.request,
      drop o.consumed w,
    )

unfoldable pub outcome : HttpContext → HttpRequest → Text → Seen
unfolding settled
outcome x r w =
    if length w == 0
    then (need_more, record { parsestate = x.parsestate; is_error = false }, r, w)
    else settled w (scan (length w + 1) x.parsestate r w)

verdict-ok : (s : ParseState) → is_failure (verdict s) ≡ false
verdict-ok s = elim (Bool-cases (is_done s)) [ inl e ↦ rw e refl | inr e ↦ rw e refl ]

finish-settled :
    (o : Scan) (b : Buffer)
    → IsValid b
    → o.consumed ≤ readable b
    → Returns (λ t. IsValid t.3 × (seen t ≡ settled (contents b) o)) (finish o b)
unfolding finish settled
finish-settled o b v h = elim (Bool-cases o.failed) [
  | inl bad ↦ simp bad (v, refl)
  | inr good ↦ elim (Bool-cases (ltb 0 o.consumed)) [
    | inl some_read ↦
        simp
          (
            good,
            some_read,
            move_read_ptr-eq b o.consumed h,
            verdict-ok o.state,
            contents-advance b o.consumed v h,
          )
          (advance-IsValid b o.consumed v h, refl)
    | inr none_read ↦
        let e : o.consumed ≡ 0 = ground arith in simp (good, e, verdict-ok o.state) (v, refl)
  ]
]

readable_view : (b : Buffer) → IsValid b → take (readable b) (peek b) ≡ contents b
readable_view b v =
    take-peek b (readable b) (omega arith)
    ∙ take_all (readable b) (contents b) (omega (arith, length-contents b v))

-- No assertion of the buffer fails in a call of `parse` on a well-formed buffer, which it leaves well
-- formed. Its result, state and request, and the bytes left unless it is an error, are a function of
-- the state and the request before it and of the unread bytes, wherever these stand in the buffer.
pub parse_request-outcome :
    (x : HttpContext) (r : HttpRequest) (b : Buffer)
    → IsValid b
    → Returns (λ t. IsValid t.3 × (seen t ≡ outcome x r (contents b))) (parse_request x r b)
unfolding parse_request outcome
parse_request-outcome x r b v =
    rw (readable_view b v, length-contents b v)
      (elim (Bool-cases (readable b == 0)) [
        | inl empty ↦ rw empty (v, refl)
        | inr more ↦ rw more (
            finish-settled (scan (readable b + 1) x.parsestate r (contents b)) b v (
              omega (
                arith,
                length-contents b v,
                scan-consumed (readable b + 1) x.parsestate r (contents b),
              )))
      ])
