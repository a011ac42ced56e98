-- ===== src/Protocol/MyProtocol/Exchange.antt =====
-- The parser, on a buffer, against the encoder.
use echo_net.Base.{ℕ, ◌+◌, ◌<◌, ◌≡◌, ◌≢◌, ap, ◌∙◌, subst, List, ◌++◌, some, length, take}
use echo_net.Net.Buffer.{Buffer, buffer_append}
use echo_net.Net.Buffer.Bounds.{IsValid, buffer_append-IsValid}
use echo_net.Net.Buffer.Contents.{contents, contents-buffer_append}
use echo_net.Protocol.{need_more}
use echo_net.Protocol.MyProtocol.Message.{Message, encode}
use echo_net.Protocol.MyProtocol.Parse.{MyProtocol, parse}
use echo_net.Protocol.MyProtocol.Frames.{frame, incomplete, spec, Shows, parse_refines}
use echo_net.Protocol.MyProtocol.RoundTrip.{
  Fits, spec-encode, spec-take-encode, extend, spec-append,
}

-- Where a well-formed buffer holds what the encoder wrote for a message of a known type, with a
-- payload that fits into the largest body and an id of 32 bits, and any bytes behind it, the parser
-- succeeds, stores that message, and leaves exactly those bytes.
pub parse-encode :
    (p : MyProtocol) (b : Buffer) (m : Message) (rest : List ℕ)
    → IsValid b
    → Fits m
    → contents b ≡ encode m ++ rest
    → Shows p b (parse p b) (frame m rest)
parse-encode p b m rest v f e =
    subst (Shows p b (parse p b)) (ap spec e ∙ spec-encode m rest f) (parse_refines p b v)

-- Where it holds only a proper part of such a frame, the parser asks for more, and neither its state
-- nor the buffer changes.
pub parse-take-encode :
    (p : MyProtocol) (b : Buffer) (m : Message) (k : ℕ)
    → IsValid b
    → Fits m
    → k < 10 + length m.payload
    → contents b ≡ take k (encode m)
    → parse p b ≡ some (need_more, p, b)
parse-take-encode p b m k v f h e =
    subst (Shows p b (parse p b)) (ap spec e ∙ spec-take-encode m k f h) (parse_refines p b v)

-- Where the unread bytes of a well-formed buffer decide, by a frame or by an error, the parser says
-- the same when more bytes have been appended, and these stand behind the bytes that it leaves.
parse-buffer_append :
    (p : MyProtocol) (b : Buffer) (more : List ℕ)
    → IsValid b
    → spec (contents b) ≢ incomplete
    → let c = buffer_append b more in Shows p c (parse p c) (extend (spec (contents b)) more)
parse-buffer_append p b more v ne =
    let c = buffer_append b more in
    subst (Shows p c (parse p c))
      (ap spec (contents-buffer_append b more v) ∙ spec-append (contents b) more ne)
      (parse_refines p c (buffer_append-IsValid b more v))
