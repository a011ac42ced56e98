-- ===== src/Http/Context/Scan.antt =====
-- The loop of `HttpContext::parse`, over the readable bytes.
use echo_net.Base.{
  ℕ, zero, suc, ◌+◌, [], ◌∷◌, Bool, true, false, Option, some, none, if◌then◌else◌, ◌==◌, ltb, Text,
  bytes, length, take, drop,
}
use echo_net.Http.Message.{HttpRequest, find_header}
use echo_net.Http.Context.Lines.{
  line_context, header_context, body_context, find_crlf, content_length,
}

-- `enum class ParseState`
pub data ParseState : Type 0 where
  request_line headers body done : ParseState

-- What one round of the loop does: it leaves the loop, it fails with the request as it is then, or it
-- goes on in another state after so many bytes.
pub data Turn : Type 0 where
  stop : Turn
  fail : HttpRequest → Turn
  go : ParseState → HttpRequest → ℕ → Turn

unfoldable pub after_line : ℕ → Bool × HttpRequest → Turn
after_line n (ok_line, r) = if ok_line then go headers r (n + 2) else fail r

unfoldable pub line_turn : HttpRequest → Text → Option ℕ → Turn
unfolding after_line
line_turn r view none = stop
line_turn r view (some n) = after_line n (line_context (take n view) r)

abbrev pub after_headers : Option Text → ParseState
after_headers none = done
after_headers (some v) = body

unfoldable pub headers_turn : HttpRequest → Text → Option ℕ → Turn
unfolding after_line
headers_turn r view none = stop
headers_turn r view (some n) =
    if n == 0
    then go (after_headers (find_header (bytes "Content-Length") r.header)) r 2
    else after_line n (header_context (take n view) r)

unfoldable pub sized_turn : HttpRequest → Text → Option ℕ → Turn
sized_turn r view none = fail r
sized_turn r view (some size) =
    if size == 0
    then go done (body_context [] r) 0
    else if ltb (length view) size
    then stop
    else go done (body_context (take size view) r) size

unfoldable pub body_turn : HttpRequest → Text → Option Text → Turn
unfolding sized_turn
body_turn r view none = fail r
body_turn r view (some v) = sized_turn r view (content_length v)

-- One round, in each state; `view` is what has not been consumed.
unfoldable pub turn : ParseState → HttpRequest → Text → Turn
unfolding line_turn headers_turn body_turn
turn request_line r view = line_turn r view (find_crlf view)
turn headers r view = headers_turn r view (find_crlf view)
turn body r view = body_turn r view (find_header (bytes "Content-Length") r.header)
turn done r view = stop

-- Where the loop ends: whether it failed, the state, the request, and the bytes consumed.
pub record Scan : Type 0 where
  pub failed : Bool
  pub state : ParseState
  pub request : HttpRequest
  pub consumed : ℕ

abbrev pub consume_more : ℕ → Scan → Scan
consume_more n s = record s { consumed = n + s.consumed }

-- The loop is left as it stands.
abbrev pub halt : ParseState → HttpRequest → Scan
halt s r = record { failed = false; state = s; request = r; consumed = 0 }

-- A round, for the rest of the loop `next`.
unfoldable pub act :
    (ParseState → HttpRequest → Text → Scan) → ParseState → HttpRequest → Text → Turn → Scan
act next s r view stop = halt s r
act next s r view (fail q) = record { failed = true; state = s; request = q; consumed = 0 }
act next s r view (go t q n) = consume_more n (next t q (drop n view))

-- The loop, with fuel.
unfoldable pub scan : ℕ → ParseState → HttpRequest → Text → Scan
unfolding turn act
scan zero s r view = halt s r
scan (suc fuel) s r [] = halt s r
scan (suc fuel) s r (c ∷ cs) = act (scan fuel) s r (c ∷ cs) (turn s r (c ∷ cs))
