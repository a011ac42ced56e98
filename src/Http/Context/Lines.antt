-- ===== src/Http/Context/Lines.antt =====
-- `lineContext`, `headerContext` and `bodyContext`, and what they use of `std::string`.
use echo_net.Base.{
  next_index, find_byte, is_space, skip_spaces, all_digits, to_number, is_empty, ℕ, ◌+◌, ◌*◌, ◌^◌,
  [], ◌∷◌, Bool, true, false, ◌&&◌, ◌||◌, not, Option, some, none, if◌then◌else◌, ◌==◌, ltb, leb,
  Text, bytes, same_text, take, drop,
}
use echo_net.Http.Message.{
  HttpRequest, Method, Version, get, post, unknown_method, http10, http11, unknown_version,
  put_header,
}

-- The bytes up to the next space, and the others.
unfoldable pub split_word : Text → Text × Text
split_word [] = ([], [])
split_word (c ∷ cs) =
    let rest = split_word cs in if is_space c then ([], c ∷ cs) else (c ∷ rest.0, rest.1)

-- `ss >> word`
unfoldable pub next_word : Text → Text × Text
unfolding skip_spaces split_word
next_word s = split_word (skip_spaces s)

unfoldable pub to_method : Text → Method
to_method m =
    if same_text m (bytes "GET")
    then get
    else if same_text m (bytes "POST")
    then post
    else unknown_method

unfoldable pub to_version : Text → Version
to_version v =
    if same_text v (bytes "HTTP/1.1")
    then http11
    else if same_text v (bytes "HTTP/1.0")
    then http10
    else unknown_version

abbrev pub is_known : Method → Bool
is_known unknown_method = false
is_known _ = true

-- `lineContext`; the Boolean is what it returns.
unfoldable pub line_context : Text → HttpRequest → Bool × HttpRequest
unfolding next_word to_method to_version
line_context line r =
    let w1 = next_word line in
    let w2 = next_word w1.1 in
    let w3 = next_word w2.1 in
    (
      is_known (to_method w1.0),
      record r { method = to_method w1.0; path = w2.0; version = to_version w3.0 },
    )

-- Blanks before the value of a header.
unfoldable pub trim : Text → Text
trim [] = []
trim (c ∷ cs) = if c == 32 then trim cs else c ∷ cs

unfoldable pub header_at : Text → HttpRequest → Option ℕ → Bool × HttpRequest
unfolding trim put_header
header_at line r none = (false, r)
header_at line r (some n) =
    (true, record r { header = put_header (take n line) (trim (drop (n + 1) line)) r.header })

-- `headerContext`
unfoldable pub header_context : Text → HttpRequest → Bool × HttpRequest
unfolding header_at
header_context line r = header_at line r (find_byte 58 line)

-- `bodyContext`
unfoldable pub body_context : Text → HttpRequest → HttpRequest
body_context b r = record r { body = b }

abbrev pub starts_lf : Text → Bool
starts_lf [] = false
starts_lf (c ∷ cs) = c == 10

-- `view.find("\r\n")`
unfoldable pub find_crlf : Text → Option ℕ
find_crlf [] = none
find_crlf (c ∷ cs) = if c == 13 && starts_lf cs then some 0 else next_index (find_crlf cs)

-- The length of the body, where the checks of `Content-Length` pass: digits only, no overflow in
-- `stoul` (64 bits), and at most a megabyte.
unfoldable pub content_length : Text → Option ℕ
content_length s =
    let n = to_number 0 s in
    if is_empty s || not (all_digits s)
    then none
    else if leb (2 ^ 64) n
    then none
    else if ltb (1024 * 1024) n
    then none
    else some n
