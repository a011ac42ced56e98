-- ===== src/Http/Context/EmptyBody.antt =====
-- A request whose body has length zero.
use echo_net.Base.{
  ℕ, suc, ◌+◌, ◌≡◌, refl, ap, ◌∙◌, [], ◌∷◌, ◌++◌, false, some, arith, Text, bytes, length,
}
use echo_net.Protocol.{ok, need_more}
use echo_net.Http.Message.{HttpRequest, find_header}
use echo_net.Http.Context.Lines.{content_length, find_crlf, body_context}
use echo_net.Http.Context.Scan.{
  headers, body, done, go, scan, act, turn, headers_turn, body_turn, sized_turn, after_headers,
}
use echo_net.Http.Context.Resume.{scan-fuel}
use echo_net.Http.Context.Pieces.{outcome-more}
use echo_net.Http.Context.Parse.{HttpContext, crlf}
use echo_net.Http.Context.Correct.{outcome, settled}

blank_turn :
    (r : HttpRequest) (v : Text) (rest : Text)
    → find_header (bytes "Content-Length") r.header ≡ some v
    → turn headers r (13 ∷ 10 ∷ rest) ≡ go body r 2
unfolding turn headers_turn find_crlf
blank_turn r v rest h = ap (λ o. go (after_headers o) r 2) h

empty_turn :
    (r : HttpRequest) (v : Text) (rest : Text)
    → find_header (bytes "Content-Length") r.header ≡ some v
    → content_length v ≡ some 0
    → turn body r rest ≡ go done (record r { body = [] }) 0
unfolding turn body_turn sized_turn body_context
empty_turn r v rest h k = rw (h, k) refl

two_turns :
    (r : HttpRequest) (v : Text) (c : ℕ) (cs : Text) (n : ℕ)
    → find_header (bytes "Content-Length") r.header ≡ some v
    → content_length v ≡ some 0
    → scan (suc (suc (suc (suc (suc (suc n)))))) headers r (crlf ++ c ∷ cs)
      ≡ record { failed = false; state = done; request = record r { body = [] }; consumed = 2 }
unfolding scan act crlf turn
two_turns r v c cs n h k = rw (blank_turn r v (c ∷ cs) h, empty_turn r v (c ∷ cs) h k) refl

-- The blank line that ends the headers is the last thing to arrive, and the length of the body is
-- given as zero: the parser wants more, although the request is complete. It gives the request out
-- once any byte follows, and leaves that byte.
pub empty_body_waits :
    (r : HttpRequest) (v : Text) (c : ℕ) (cs : Text)
    → find_header (bytes "Content-Length") r.header ≡ some v
    → content_length v ≡ some 0
    → let x : HttpContext = record { parsestate = headers; is_error = false } in
      (outcome x r crlf ≡ (need_more, record { parsestate = body; is_error = false }, r, []))
      × (outcome x r (crlf ++ c ∷ cs)
          ≡ (ok, record { parsestate = done; is_error = false }, record r { body = [] }, c ∷ cs))
unfolding outcome settled scan act crlf
empty_body_waits r v c cs h k =
    let x : HttpContext = record { parsestate = headers; is_error = false } in
    let w = crlf ++ c ∷ cs in
    (
      rw (blank_turn r v [] h) refl,
      outcome-more x r 13 (10 ∷ c ∷ cs)
          ∙ ap (settled w) (
              scan-fuel (length w + 1) (suc (suc (suc (length w)))) headers r w (omega arith)
                (omega arith)
              ∙ two_turns r v c cs (length cs) h k),
    )
