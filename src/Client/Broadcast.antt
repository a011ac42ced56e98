-- ===== src/Client/Broadcast.antt =====
-- What a message of the server, and a broadcast in particular, becomes in the chat window.
use echo_net.Base.{
  Text, [], ap, append-nil, append_assoc, arith, bytes, length, map, refl, some, sym, to_string,
  true, ◌++◌, ◌∙◌, ◌∷◌, ◌≡◌,
}
use echo_net.Protocol.MyProtocol.Message.{Message, encode}
use echo_net.Protocol.MyProtocol.Frames.{spec}
use echo_net.Protocol.MyProtocol.RoundTrip.{Fits, length-encode}
use echo_net.Chat.State.{Session}
use echo_net.Chat.Talk.{talk_message}
use echo_net.Client.Qt.{Qt, Laws, is_ascii, split_bytes}
use echo_net.Client.Texts.{
  has_no_bar, before_bar, split_bytes-eq, split_bytes-append, has_no_bar-digits, is_ascii-digits,
  is_ascii-append, to_string-Digits,
}
use echo_net.Client.Window.{Window, said, handle, on_broadcast, on_ready_read}
use echo_net.Client.Frames.{handle_all}
use echo_net.Client.Receive.{on_ready_read-encode_all}

-- Two texts and more, joined by `|`.
parts :
    (a b c : Text)
    → has_no_bar a ≡ true
    → has_no_bar b ≡ true
    → split_bytes (a ++ bytes "|" ++ b ++ bytes "|" ++ c) ≡ a ∷ b ∷ split_bytes c
parts a b c h k =
    ap split_bytes (
      append_assoc (a ++ bytes "|" ++ b) (bytes "|") c
      ∙ append_assoc (a ++ bytes "|") b (124 ∷ c)
      ∙ append_assoc a (bytes "|") (b ++ 124 ∷ c))
    ∙ split_bytes-append a (b ++ 124 ∷ c) h
    ∙ ap (◌∷◌ a) (split_bytes-append b c k)

is_ascii-parts :
    (a b c : Text)
    → is_ascii a ≡ true
    → is_ascii b ≡ true
    → is_ascii c ≡ true
    → is_ascii (a ++ bytes "|" ++ b ++ bytes "|" ++ c) ≡ true
unfolding is_ascii
is_ascii-parts a b c h k l =
    is_ascii-append (a ++ bytes "|" ++ b ++ bytes "|") c
      (is_ascii-append (a ++ bytes "|" ++ b) (bytes "|")
        (is_ascii-append (a ++ bytes "|") b (is_ascii-append a (bytes "|") h refl) k) refl)
      l

module _ (q : Qt) where
  -- One message arrives.
  pub read_one :
      (w : Window q) (m : Message)
      → Fits m
      → w.recv_buf ≡ []
      → on_ready_read q (encode m) w
        ≡ some
            (record (handle q
              (some m.type)
              (q.from_utf8 m.payload)
              (record w { recv_buf = w.recv_buf ++ encode m })) { recv_buf = [] })
  unfolding spec handle_all
  read_one w m fit e =
      on_ready_read-encode_all q w (encode m) (m ∷ []) [] (fit, tt) refl
        (omega (
          arith,
          fit.small,
          length-encode m,
          ap length (append-nil (encode m)),
          ap length (append-nil (encode m ++ [])),
        ))
        (ap (◌++ encode m) e ∙ sym (append-nil (encode m)) ∙ sym (append-nil (encode m ++ [])))

module _ (q : Qt) (laws : Laws q) where
  -- Where the name of the sender is ASCII and has no `|`, the text is ASCII and the message fits into
  -- a frame, a chat window with no bytes waiting that reads the broadcast of the server shows one
  -- line more, from the sender, with the text up to its first `|`, and is otherwise as it was.
  pub broadcast_shown :
      (w : Window q) (s : Session) (text : Text)
      → Fits (talk_message s text)
      → w.recv_buf ≡ []
      → is_ascii s.user_name ≡ true
      → has_no_bar s.user_name ≡ true
      → is_ascii text ≡ true
      → on_ready_read q (encode (talk_message s text)) w
        ≡ some (record w {
          recv_buf = [];
          chat_lines =
              w.chat_lines ++ said (q.from_utf8 s.user_name) (q.from_utf8 (before_bar text)) ∷ [];
        })
  unfolding handle on_broadcast talk_message
  broadcast_shown w s text fit e name bar ascii =
      let room = to_string-Digits s.room_id in
      let split =
        laws.split-from_utf8 (talk_message s text).payload (
          is_ascii-parts (to_string s.room_id) s.user_name text
            (is_ascii-digits (to_string s.room_id) room.digits) name ascii)
        ∙ ap (map q.from_utf8) (
            parts (to_string s.room_id) s.user_name text
              (has_no_bar-digits (to_string s.room_id) room.digits) bar
            ∙ ap (λ ps. to_string s.room_id ∷ s.user_name ∷ ps) (split_bytes-eq text)) in
      read_one q w (talk_message s text) fit e ∙ rw split refl
