-- ===== src/Http/Service.antt =====
-- src/HTTP/HttpService.cpp and `HttpProtocol::encode`: the example service and its responses.
use echo_net.Base.{
  to_string, Digits, decimal, decimal-Digits, ℕ, ◌+◌, ◌*◌, ◌≤◌, ◌≡◌, refl, [], ◌∷◌, ◌++◌, some,
  arith, Text, bytes, same_text, length,
}
use echo_net.Http.Message.{
  HttpRequest, HttpResponse, Method, get, post, unknown_method, put_header, find_header,
}
use echo_net.Http.Context.Lines.{content_length}
use echo_net.Http.Context.Parse.{crlf, header_lines, version_text}

-- `HttpProtocol::encode`
unfoldable pub encode : HttpResponse → Text
unfolding to_string crlf header_lines
encode r =
    version_text r.version
    ++ bytes " "
    ++ to_string r.status_code
    ++ bytes " "
    ++ r.status_msg
    ++ crlf
    ++ header_lines r.header
    ++ crlf
    ++ r.body

-- The UTF-8 bytes of the answer to a POST.
unfoldable pub post_answer : Text
post_answer =
    230
      ∷ 136
      ∷ 145
      ∷ 230
      ∷ 148
      ∷ 182
      ∷ 229
      ∷ 136
      ∷ 176
      ∷ 229
      ∷ 185
      ∷ 182
      ∷ 229
      ∷ 173
      ∷ 152
      ∷ 229
      ∷ 156
      ∷ 168
      ∷ bytes "memory"
    ++ 233 ∷ 135 ∷ 140 ∷ 10 ∷ []

unfoldable pub answer_body : Text → HttpRequest → Method → Text × Text
unfolding post_answer
answer_body memory r get = (memory ++ 10 ∷ [], memory)
answer_body memory r post = (post_answer, memory ++ r.body)
answer_body memory r unknown_method = ([], memory)

-- `HttpService::handle`: the response, and the contents of `memory_` after it.
unfoldable pub handle : Text → HttpRequest → HttpResponse × Text
unfolding answer_body to_string put_header
handle memory r =
    let (answer, kept) = answer_body memory r r.method in
    (
      record {
        version = r.version;
        status_code = 200;
        status_msg = bytes "OK";
        header = put_header (bytes "Connection") (bytes "keep-alive") (
            put_header (bytes "Content-Length") (to_string (length answer))
              (put_header (bytes "Server") (bytes "MyServer/1.0") []));
        body = answer;
      },
      kept,
    )

content_length-Digits :
    (n : ℕ) (s : Text) → n ≤ 1024 * 1024 → Digits n s → content_length s ≡ some n
unfolding content_length
content_length-Digits n [] h d = absurd (omega (arith, d.some_digit))
content_length-Digits n (c ∷ cs) h d = ground (arith, d.value, d.digits)

-- The `Content-Length` of a response, read as the parser reads it, is the length of the body, up to
-- the parser's own limit of a megabyte.
pub handle-content_length :
    (memory : Text) (r : HttpRequest)
    → length (handle memory r).0.body ≤ 1024 * 1024
    → (find_header (bytes "Content-Length") (handle memory r).0.header
        ≡ some (to_string (length (handle memory r).0.body)))
      × (content_length (to_string (length (handle memory r).0.body))
          ≡ some (length (handle memory r).0.body))
unfolding handle to_string find_header put_header same_text
handle-content_length memory r h =
    let n = length (answer_body memory r r.method).0 in
    (refl, content_length-Digits n (decimal (n + 1) n) h (decimal-Digits (n + 1) n (omega arith)))
