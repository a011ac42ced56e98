-- ===== src/Http/Context/Parse.antt =====
-- `HttpContext::parse` on a buffer, and `HttpProtocol`.
use echo_net.Base.{
  ◌+◌, List, [], ◌∷◌, ◌++◌, Bool, true, false, Option, some, none, if◌then◌else◌, ◌==◌, ltb, Text,
  bytes, take, ◌>>=◌,
}
use echo_net.Net.Buffer.{Buffer, readable, peek, move_read_ptr}
use echo_net.Protocol.{ParseResult, ok, need_more, error}
use echo_net.Http.Message.{HttpRequest, HttpResponse, Version, http11, new_request, put_header}
use echo_net.Http.Context.Scan.{ParseState, request_line, done, Scan, scan}

pub record HttpContext : Type 0 where
  pub parsestate : ParseState
  pub is_error : Bool

abbrev pub is_done : ParseState → Bool
is_done done = true
is_done _ = false

abbrev pub verdict : ParseState → ParseResult
verdict s = if is_done s then ok else need_more

-- The end of `parse`, once the loop has been left.
unfoldable pub finish : Scan → Buffer → Option (ParseResult × HttpContext × HttpRequest × Buffer)
finish o b =
    if o.failed
    then some (error, record { parsestate = o.state; is_error = true }, o.request, b)
    else do
      c ← if ltb 0 o.consumed then move_read_ptr b o.consumed else some b
      some (verdict o.state, record { parsestate = o.state; is_error = false }, o.request, c)

-- `HttpContext::parse`; `none` is an assertion of the buffer that fails.
unfoldable pub parse_request :
    HttpContext → HttpRequest → Buffer → Option (ParseResult × HttpContext × HttpRequest × Buffer)
unfolding finish
parse_request x r b =
    let view = take (readable b) (peek b) in
    if readable b == 0
    then some (need_more, record { parsestate = x.parsestate; is_error = false }, r, b)
    else finish (scan (readable b + 1) x.parsestate r view) b

pub record HttpProtocol : Type 0 where
  pub context : HttpContext
  pub request : HttpRequest
  pub error_response : HttpResponse
  pub has_error : Bool

-- `400 Bad Request`, over what the response held before.
unfoldable pub bad_request : HttpResponse → HttpResponse
bad_request e = record {
  version = http11;
  status_code = 400;
  status_msg = bytes "Bad Request";
  header =
      put_header (bytes "Connection") (bytes "keep-alive")
        (put_header (bytes "Content-Length") (bytes "0") e.header);
  body = [];
}

unfoldable pub note_result :
    HttpProtocol
    → ParseResult × HttpContext × HttpRequest × Buffer
    → ParseResult × HttpProtocol × Buffer
unfolding bad_request
note_result p (error, x, r, b) = (
  error,
  record {
    context = x;
    request = r;
    error_response = bad_request p.error_response;
    has_error = true;
  },
  b,
)
note_result p (ok, x, r, b) = (ok, record p { context = x; request = r }, b)
note_result p (need_more, x, r, b) = (need_more, record p { context = x; request = r }, b)

-- `HttpProtocol::parse`
unfoldable pub parse : HttpProtocol → Buffer → Option (ParseResult × HttpProtocol × Buffer)
unfolding parse_request note_result
parse p b = do t ← parse_request p.context p.request b; some (note_result p t)

unfoldable pub reset : HttpProtocol → HttpProtocol
unfolding new_request
reset p = record p {
  context = record { parsestate = request_line; is_error = false };
  request = new_request;
  has_error = false;
}

unfoldable pub get_message : HttpProtocol → HttpRequest
get_message p = p.request

unfoldable pub get_error_response : HttpProtocol → Option HttpResponse
get_error_response p = if p.has_error then some p.error_response else none

unfoldable pub crlf : Text
crlf = 13 ∷ 10 ∷ []

abbrev pub version_text : Version → Text
version_text http11 = bytes "HTTP/1.1"
version_text _ = bytes "HTTP/1.0"

-- The header lines, in the order in which the map is read.
unfoldable pub header_lines : List (Text × Text) → Text
unfolding crlf
header_lines [] = []
header_lines ((k, v) ∷ m) = k ++ bytes ": " ++ v ++ crlf ++ header_lines m
