-- ===== src/Client/Rooms.antt =====
-- A room that is made or joined, from the button of the client through the server's handler to the
-- window.
use echo_net.Base.{
  Digits, Text, [], all_digits, ap, arith, bytes, false, get_elem?, get_elem?-set-here, is_empty,
  length, length-append, map, none, refl, same_text, some, stoul-Digits, sym, to_number, to_string,
  true, ℕ, ◌%◌, ◌++◌, ◌<◌, ◌==◌, ◌^◌, ◌∙◌, ◌∷◌, ◌≡◌,
}
use echo_net.Base.Maps.{find}
use echo_net.Protocol.MyProtocol.Message.{
  Message, MyType, encode, create_room_req, create_room_resp, join_room_req, error_resp,
  is_valid_msg_type, type_code,
}
use echo_net.Protocol.MyProtocol.RoundTrip.{Fits}
use echo_net.Chat.State.{Conn, Session, Chat, Answers, succeeds, reply, set_room_id}
use echo_net.Chat.Rooms.{create_room, join_room, join_parsed, join_found}
use echo_net.Chat.Responses.{responses, is_push}
use echo_net.Client.Qt.{Qt, Laws, is_ascii, split_bytes}
use echo_net.Client.Texts.{
  split_bytes-append, has_no_bar-digits, is_ascii-digits, is_ascii-append, to_string-Digits,
  length-to_string,
}
use echo_net.Client.Packet.{packet-encode}
use echo_net.Client.Window.{
  Window, from_server, handle, on_created, on_create_room, on_join_room, on_ready_read, send_packet,
  room_and_count, show_room, join_number,
}
use echo_net.Client.Broadcast.{read_one}

-- The request that the window sends next.
abbrev pub request : (q : Qt) → MyType → Window q → Text → Message
request q ty w payload = record { type = ty; id = w.request_id; payload = payload }

-- The response to a request.
abbrev pub response : Message → MyType → Text → Message
response msg ty payload = record { type = ty; id = msg.id; payload = payload }

one_digit : Digits 1 (bytes "1")
unfolding to_number all_digits
one_digit = record { value = refl; digits = refl; some_digit = omega arith }

module _ (q : Qt) (laws : Laws q) where
  created_parts :
      (id : ℕ)
      → q.split (q.from_utf8 (bytes "OK|" ++ to_string id ++ bytes "|1"))
        ≡ q.from_utf8 (bytes "OK") ∷ q.from_utf8 (to_string id) ∷ q.from_utf8 (bytes "1") ∷ []
  unfolding split_bytes is_ascii
  created_parts id =
      let room = to_string-Digits id in
      let ascii = is_ascii-digits (to_string id) room.digits in
      laws.split-from_utf8 (bytes "OK|" ++ to_string id ++ bytes "|1")
        (is_ascii-append (bytes "OK|" ++ to_string id) (bytes "|1") ascii refl)
      ∙ ap (λ ps. map q.from_utf8 (bytes "OK" ∷ ps))
          (split_bytes-append (to_string id) (bytes "1")
            (has_no_bar-digits (to_string id) room.digits))

  reads_created :
      (w : Window q) (id : ℕ)
      → id < 2 ^ 32
      → on_created q (q.from_utf8 (bytes "OK|" ++ to_string id ++ bytes "|1")) w
        ≡ show_room q id (false, 1) (record w { current_room_id = id })
  unfolding on_created same_text is_ascii
  reads_created w id h =
      rw
        (
          created_parts id,
          laws.same-from_utf8 (bytes "OK") (bytes "OK") refl refl,
          laws.to_uint-from_utf8 id (to_string id) h (to_string-Digits id),
          laws.to_int-from_utf8 1 (bytes "1") (omega arith) one_digit,
        )
        refl

  -- Where the name in the dialog is not empty, the server has taken the request of the window for a
  -- session, its database stores the room, the id of the room and the number of the request are below
  -- `2 ^ 32`, and no bytes wait at the window: the request is the frame that the window writes, the server
  -- answers it once, with the id of the new room, which becomes the room of the session, and the window
  -- that reads this answer has it for the current room, shows it with one member, and has the input, the
  -- button to send and the button to leave enabled.
  pub created_room_is_current :
      (w : Window q) (name : q.QString) (a : Answers) (conn : Conn) (c : Chat) (o : ℕ) (s : Session)
      → (q.size name == 0) ≡ false
      → succeeds a.insert_room ≡ true
      → get_elem? c.objects o ≡ some s
      → c.next_room_id < 2 ^ 32
      → w.request_id < 2 ^ 32
      → w.recv_buf ≡ []
      → let asked = on_create_room q (some name) w in
        let msg = request q create_room_req w (q.to_utf8 name) in
        let out = create_room a conn msg c o s in
        let answer =
          response msg create_room_resp (bytes "OK|" ++ to_string c.next_room_id ++ bytes "|1") in
        (asked.written ≡ w.written ++ encode msg ∷ [])
        × (responses out.effects ≡ (conn, answer) ∷ [])
        × (get_elem? out.chat.objects o ≡ some (record s { room_id = c.next_room_id }))
        × (on_ready_read q (encode answer) asked
            ≡ some (record asked {
              recv_buf = [];
              current_room_id = c.next_room_id;
              room_label = room_and_count c.next_room_id (false, 1);
              input_enabled = true;
              send_enabled = true;
              leave_enabled = true;
            }))
  unfolding on_create_room send_packet create_room responses reply set_room_id handle show_room
      is_push is_valid_msg_type type_code
  created_room_is_current w name a conn c o s named stored object room_word word e =
      let msg = request q create_room_req w (q.to_utf8 name) in
      let answer =
        response msg create_room_resp (bytes "OK|" ++ to_string c.next_room_id ++ bytes "|1") in
      let fits : Fits answer = record {
        small = omega (
          arith,
          length-to_string c.next_room_id room_word,
          length-append (bytes "OK|" ++ to_string c.next_room_id) (bytes "|1"),
        );
        word = word;
        known = refl;
      } in
      let given = sym (laws.size-to_utf8 name) ∙ named in
      rw (named, given, stored)
        (
          ap (λ p. w.written ++ p ∷ []) (packet-encode q create_room_req w.request_id name),
          refl,
          get_elem?-set-here c.objects o (record s { room_id = c.next_room_id }) s object,
          read_one q (send_packet q create_room_req name w) answer fits e
              ∙ rw (reads_created _ c.next_room_id room_word) refl,
        )

  typed_number : (n : ℕ) (t : Text) → Digits n t → (q.size (q.from_utf8 t) == 0) ≡ false
  typed_number n t d =
      laws.size-to_utf8 (q.from_utf8 t)
      ∙ ap is_empty (laws.to_utf8-from_utf8 t (is_ascii-digits t d.digits))
      ∙ not_empty t d.some_digit
    where
      not_empty : (t : Text) → 0 < length t → is_empty t ≡ false
      not_empty [] h = absurd (omega arith)
      not_empty (x ∷ xs) h = refl

  -- Where the user gives the digits of a number below `2 ^ 32` as the room to join, the server has no
  -- such room, and no bytes wait at the window: the request is the frame that the window writes, the
  -- server refuses it once and changes nothing, and the window that reads the refusal shows it, but
  -- keeps the refused room for the current one, whichever room the session is in.
  pub refused_room_stays :
      (w : Window q) (n : ℕ) (t : Text) (a : Answers) (conn : Conn) (c : Chat) (o : ℕ) (s : Session)
      → Digits n t
      → n < 2 ^ 32
      → find n c.rooms ≡ none
      → w.request_id < 2 ^ 32
      → w.recv_buf ≡ []
      → let asked = on_join_room q (some (q.from_utf8 t)) w in
        let msg = request q join_room_req w t in
        let out = join_room a conn msg c o s in
        let answer = response msg error_resp (bytes "Room not found") in
        (asked.written ≡ w.written ++ encode msg ∷ [])
        × (responses out.effects ≡ (conn, answer) ∷ [])
        × (out.chat ≡ c)
        × (asked.current_room_id ≡ n)
        × (on_ready_read q (encode answer) asked
            ≡ some (record asked {
              recv_buf = [];
              warnings = w.warnings ++ from_server (q.from_utf8 answer.payload) ∷ [];
            }))
  unfolding on_join_room join_number send_packet join_room join_parsed join_found responses reply
      handle is_push is_valid_msg_type type_code
  refused_room_stays w n t a conn c o s d word missing id_word e =
      let msg = request q join_room_req w t in
      let answer = response msg error_resp (bytes "Room not found") in
      let fits : Fits answer = record { small = omega arith; word = id_word; known = refl } in
      let asked = send_packet q join_room_req (q.from_utf8 t) (record w { current_room_id = n }) in
      let room : find (n % 2 ^ 32) c.rooms ≡ none =
        ap (λ k. find k c.rooms) (omega arith) ∙ missing in
      rw
        (
          typed_number n t d,
          laws.to_uint-from_utf8 n t word d,
          stoul-Digits n t (omega arith) d,
          room,
        )
        (
          ap (λ p. w.written ++ p ∷ [])
              (packet-encode q join_room_req w.request_id (q.from_utf8 t)
                ∙ ap (λ u. encode (request q join_room_req w u))
                    (laws.to_utf8-from_utf8 t (is_ascii-digits t d.digits))),
          refl,
          refl,
          refl,
          read_one q asked answer fits e,
        )
