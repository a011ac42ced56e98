-- ===== src/Client/Packet.antt =====
-- The packets that the two windows write.
use echo_net.Base.{Text, length, refl, ℕ, ◌%◌, ◌++◌, ◌+◌, ◌^◌, ◌≡◌}
use echo_net.Protocol.MyProtocol.Bytes.{bytes_16, bytes_32}
use echo_net.Protocol.MyProtocol.Message.{MyType, login_req, type_code, encode, encode_message}
use echo_net.Client.Qt.{Qt}

module _ (q : Qt) where
  -- The bytes that `ChatWindow::sendPacket` puts together: the length counts the encoded payload.
  unfoldable pub packet : MyType → ℕ → q.QString → Text
  packet ty id payload =
      let payload_bytes = q.to_utf8 payload in
      let body_len = (2 + 4 + length payload_bytes) % 2 ^ 32 in
      bytes_32 body_len ++ (bytes_16 (type_code ty) ++ (bytes_32 id ++ payload_bytes))

  -- The bytes that `MainWindow::slot_connected` puts together: the length counts the characters of
  -- the payload, in UTF-16, and not the bytes that follow.
  unfoldable pub login_packet : ℕ → q.QString → Text
  login_packet id payload =
      let body_len = (q.size payload + 6) % 2 ^ 32 in
      bytes_32 body_len ++ (bytes_16 (type_code login_req) ++ (bytes_32 id ++ q.to_utf8 payload))

  -- The chat window writes what the server's encoder would.
  pub packet-encode :
      (ty : MyType) (id : ℕ) (payload : q.QString)
      → packet ty id payload ≡ encode (record { type = ty; id = id; payload = q.to_utf8 payload })
  unfolding packet encode encode_message
  packet-encode ty id payload = refl
