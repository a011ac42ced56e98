-- ===== src/Tests/Web.antt =====
-- HTTP requests.
use echo_net.Base.{◌≡◌, refl, [], ◌∷◌, some, false, arith, bytes, Returns}
use echo_net.Net.Buffer.{Buffer, readable, peek, buffer_append}
use echo_net.Net.Buffer.Bounds.{IsValid}
use echo_net.Net.Buffer.Contents.{contents}
use echo_net.Protocol.{need_more}
use echo_net.Http.Message.{HttpRequest, new_request, post, http11}
use echo_net.Http.Context.Lines.{find_crlf}
use echo_net.Http.Context.Scan.{request_line, scan, turn, line_turn, act}
use echo_net.Http.Context.Parse.{HttpContext, parse_request, finish}
use echo_net.Http.Context.Correct.{seen, outcome, parse_request-outcome}
use echo_net.Http.Context.Pieces.{Agree, parse_resumes}

abbrev start : HttpContext
start = record { parsestate = request_line; is_error = false }

-- A request line without its end.
abbrev piece : Buffer
piece = record { store = bytes "GET / HTT"; read_ptr = 0; write_ptr = 9 }

piece-IsValid : IsValid piece
piece-IsValid = record { ordered = omega arith; inside = omega arith; nonempty = omega arith }

piece_waits : parse_request start new_request piece ≡ some (need_more, start, new_request, piece)
unfolding parse_request readable peek finish scan turn line_turn find_crlf act new_request
piece_waits = refl

parse_resumes_example :
    Agree
      (parse_request start new_request (buffer_append piece (bytes "P/1.1")))
      (parse_request start new_request (buffer_append piece (bytes "P/1.1")))
parse_resumes_example =
    parse_resumes start start new_request new_request piece piece (bytes "P/1.1") piece-IsValid
      piece_waits

parse_request-outcome_example :
    Returns
      (λ t. IsValid t.3 × (seen t ≡ outcome start new_request (contents piece)))
      (parse_request start new_request piece)
parse_request-outcome_example = parse_request-outcome start new_request piece piece-IsValid

abbrev empty_post : HttpRequest
empty_post = record {
  method = post;
  path = bytes "/";
  version = http11;
  header = (bytes "Content-Length", bytes "0") ∷ [];
  body = [];
}
