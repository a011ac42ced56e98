-- ===== src/Protocol/MyProtocol/Parse.antt =====
-- `MyProtocol::parse`, `getMessage`, `reset` and `getErrorResponse`.
use echo_net.Base.{
  ℕ, ◌+◌, ◌-◌, ◌%◌, ◌^◌, List, [], Option, some, none, if◌then◌else◌, ltb, take, ◌>>=◌,
}
use echo_net.Net.Buffer.{Buffer, readable, peek, move_read_ptr}
use echo_net.Protocol.{ParseResult, ok, need_more, error}
use echo_net.Protocol.MyProtocol.Bytes.{be}
use echo_net.Protocol.MyProtocol.Message.{Message, MyType, no_message, cast_type, max_body_size}

-- The member `currentMessage_`.
pub record MyProtocol : Type 0 where
  pub current : Message

-- The check of the type, and the assignment to `currentMessage_`.
unfoldable pub accept :
    MyProtocol → Option MyType → ℕ → List ℕ → Buffer → ParseResult × MyProtocol × Buffer
accept p none id payload b = (error, p, b)
accept p (some ty) id payload b =
    (ok, record { current = record { type = ty; id = id; payload = payload } }, b)

-- The complete frame has arrived: read type, id and payload.
unfoldable pub read_frame : MyProtocol → Buffer → ℕ → Option (ParseResult × MyProtocol × Buffer)
unfolding accept
read_frame p b body_len = do
  b1 ← move_read_ptr b 4
  let type_raw = be (take 2 (peek b1))
  b2 ← move_read_ptr b1 2
  let id = be (take 4 (peek b2))
  b3 ← move_read_ptr b2 4
  let payload_len = body_len - 6
  b4 ← if ltb 0 payload_len then move_read_ptr b3 payload_len else some b3
  some (
      accept p (cast_type type_raw) id
        (if ltb 0 payload_len then take payload_len (peek b3) else []) b4)

-- `parse`; `none` is an assertion of the buffer that fails.
unfoldable pub parse : MyProtocol → Buffer → Option (ParseResult × MyProtocol × Buffer)
unfolding read_frame
parse p b =
    let body_len = be (take 4 (peek b)) in
    if ltb (readable b) 4
    then some (need_more, p, b)
    else if ltb max_body_size body_len
    then some (error, p, b)
    else if ltb body_len 6
    then some (error, p, b)
    else if ltb (readable b) ((4 + body_len) % 2 ^ 32)
    then some (need_more, p, b)
    else read_frame p b body_len

unfoldable pub get_message : MyProtocol → Message
get_message p = p.current

unfoldable pub reset : MyProtocol → MyProtocol
unfolding no_message
reset p = record { current = no_message }

-- Never an error response: the connection is closed.
unfoldable pub get_error_response : MyProtocol → Option Message
get_error_response p = none
