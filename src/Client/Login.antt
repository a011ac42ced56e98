-- ===== src/Client/Login.antt =====
-- What the server makes of the login packet.
use echo_net.Base.{
  Text, ap, append_assoc, arith, drop, length, length-take, refl, sym, take, take-append-drop, ℕ,
  ◌%◌, ◌++◌, ◌+◌, ◌<◌, ◌^◌, ◌∙◌, ◌≡◌, ◌≤◌,
}
use echo_net.Protocol.MyProtocol.Bytes.{bytes_16, bytes_32}
use echo_net.Protocol.MyProtocol.Message.{
  Message, login_req, encode, encode_message, max_body_size, type_code, is_valid_msg_type,
}
use echo_net.Protocol.MyProtocol.Frames.{frame, spec}
use echo_net.Protocol.MyProtocol.RoundTrip.{Fits, spec-encode}
use echo_net.Client.Qt.{Qt}
use echo_net.Client.Packet.{login_packet}

module _ (q : Qt) where
  -- The request that the length field of the packet covers.
  abbrev pub covered : ℕ → q.QString → Message
  covered id payload = record {
    type = login_req;
    id = id;
    payload = take (q.size payload) (q.to_utf8 payload);
  }

  covered-length :
      (payload : q.QString)
      → q.size payload ≤ length (q.to_utf8 payload)
      → length (take (q.size payload) (q.to_utf8 payload)) ≡ q.size payload
  covered-length payload h = length-take (q.size payload) (q.to_utf8 payload) ∙ omega arith

  login_packet-encode :
      (id : ℕ) (payload : q.QString)
      → q.size payload ≤ length (q.to_utf8 payload)
      → login_packet q id payload
        ≡ encode (covered id payload) ++ drop (q.size payload) (q.to_utf8 payload)
  unfolding login_packet encode encode_message bytes_32 bytes_16
  login_packet-encode id payload h =
      let n = q.size payload in
      let t = q.to_utf8 payload in
      let front = λ (k : ℕ) (u : Text).
        bytes_32 (k % 2 ^ 32) ++ (bytes_16 (type_code login_req) ++ (bytes_32 id ++ u)) in
      ap (λ k. front k t) (omega (arith, covered-length payload h))
      ∙ ap (front (6 + length (take n t))) (sym (take-append-drop n t))

  -- Where UTF-8 needs no fewer bytes than there are characters, the id has 32 bits and the
  -- characters fit into the largest body, the server takes from the login packet, whatever follows
  -- it, a login request with as many bytes of the payload as there are characters. The other bytes
  -- of the payload stay at the front of the stream.
  pub login_packet_cut :
      (id : ℕ) (payload : q.QString) (rest : Text)
      → q.size payload ≤ length (q.to_utf8 payload)
      → q.size payload + 6 ≤ max_body_size
      → id < 2 ^ 32
      → spec (login_packet q id payload ++ rest)
        ≡ frame (covered id payload) (drop (q.size payload) (q.to_utf8 payload) ++ rest)
  unfolding is_valid_msg_type type_code
  login_packet_cut id payload rest h small word =
      let fits : Fits (covered id payload) = record {
        small = omega (arith, covered-length payload h);
        word = word;
        known = refl;
      } in
      let kept = drop (q.size payload) (q.to_utf8 payload) in
      ap (λ t. spec (t ++ rest)) (login_packet-encode id payload h)
      ∙ ap spec (append_assoc (encode (covered id payload)) kept rest)
      ∙ spec-encode (covered id payload) (kept ++ rest) fits
