-- ===== src/Tests/Desktop.antt =====
-- The Qt client at concrete inputs, over strings of two-byte characters.
use echo_net.Base.{
  ◌≡◌, refl, [], ◌∷◌, ◌++◌, true, false, none, some, arith, bytes, to_number, all_digits, Digits,
  skip_spaces, drop, to_string,
}
use echo_net.Protocol.MyProtocol.Message.{
  Message, encode, create_room_req, create_room_resp, join_room_req, error_resp, heartbeat_resp,
}
use echo_net.Client.LoginWindow.{LoginWindow, slot_connected, slot_ready_read}
use echo_net.Client.Answer.{login_request, verdict}
use echo_net.Client.Session.{answered, login_answered}
use echo_net.Chat.Login.{handle_login}
use echo_net.Protocol.MyProtocol.Message.{login_resp}
use echo_net.Client.Qt.{is_ascii}
use echo_net.Client.Window.{Window, new_window, on_ready_read, said}
use echo_net.Client.Broadcast.{broadcast_shown}
use echo_net.Chat.State.{Session}
use echo_net.Chat.Talk.{talk_message}
use echo_net.Protocol.MyProtocol.RoundTrip.{Fits}
use echo_net.Base.{take, decimal, get_elem?}
use echo_net.Base.Maps.{find}
use echo_net.Protocol.MyProtocol.Bytes.{bytes_16, bytes_32}
use echo_net.Protocol.MyProtocol.Message.{is_valid_msg_type, type_code, encode_message, login_req}
use echo_net.Protocol.MyProtocol.Frames.{spec, frame}
use echo_net.Client.Texts.{before_bar, has_no_bar}
use echo_net.Client.Frames.{handle_all}
use echo_net.Client.Packet.{login_packet}
use echo_net.Client.Login.{login_packet_cut}
use echo_net.Client.Receive.{on_ready_read-encode_all}
use echo_net.Client.Rooms.{request, response, created_room_is_current, refused_room_stays}
use echo_net.Client.Window.{
  handle, connected, room_and_count, on_create_room, on_join_room, from_server,
}
use echo_net.Chat.State.{Conn, Chat, Answers, Statement, succeeds}
use echo_net.Chat.Service.{new_chat}
use echo_net.Chat.Rooms.{create_room, join_room}
use echo_net.Chat.Responses.{responses}
use Prim.{tt}
use echo_net.Tests.Latin.{latin, latin-Laws, utf8, char_utf8, chars}

abbrev alice : Session
alice = record {
  connection = record { connection = 1; fd = 5 };
  user_id = 1;
  user_name = bytes "a";
  room_id = 2;
}

-- A window that waits for bytes.
abbrev window : Window latin
window = record (new_window latin (bytes "a")) { request_id = 7 }

abbrev works : Statement
works = record { connected = true; init = true; prepare = true; bind_param = true; execute = true }

abbrev fine : Answers
fine = record {
  global_limit = true;
  user_limit = λ key. true;
  select_user = works;
  bind_result = true;
  password = none;
  insert_room = works;
  delete_room = works;
  redis = true;
}

abbrev bob : Conn
bob = record { connection = 2; fd = 6 }

abbrev bob_session : Session
bob_session = record { connection = bob; user_id = 1; user_name = bytes "b"; room_id = 0 }

abbrev with_bob : Chat
with_bob = record new_chat { sessions = (6, 0) ∷ []; objects = bob_session ∷ [] }

nine : Digits 9 (bytes "9")
unfolding to_number all_digits
nine = record { value = refl; digits = refl; some_digit = omega arith }

shown-Fits : Fits (talk_message alice (bytes "x|y"))
unfolding talk_message is_valid_msg_type type_code to_string decimal
shown-Fits = record { small = omega arith; word = omega arith; known = refl }

broadcast_shown_example :
    on_ready_read latin (encode (talk_message alice (bytes "x|y"))) window
    ≡ some (record window { recv_buf = []; chat_lines = [] ++ said (bytes "a") (bytes "x") ∷ [] })
unfolding chars before_bar new_window is_ascii has_no_bar
broadcast_shown_example =
    broadcast_shown latin latin-Laws window alice (bytes "x|y") shown-Fits refl refl refl refl

-- The account `é|p` has three characters and four bytes.
login_packet_cut_example :
    spec (login_packet latin 0 (233 ∷ bytes "|p") ++ [])
    ≡ frame (record { type = login_req; id = 0; payload = 195 ∷ 169 ∷ 124 ∷ [] }) (bytes "p")
unfolding utf8 char_utf8
login_packet_cut_example =
    login_packet_cut latin 0 (233 ∷ bytes "|p") [] (omega arith) (omega arith) (omega arith)

abbrev pong : Message
pong = record { type = heartbeat_resp; id = 3; payload = [] }

on_ready_read-encode_all_example :
    on_ready_read latin
      (drop 3 (encode pong) ++ 0 ∷ [])
      (record window { recv_buf = take 3 (encode pong) })
    ≡ some (record window { status = connected; recv_buf = 0 ∷ [] })
unfolding handle_all handle encode encode_message spec is_valid_msg_type type_code bytes_32 bytes_16
    new_window
on_ready_read-encode_all_example =
    on_ready_read-encode_all latin (record window { recv_buf = take 3 (encode pong) })
      (drop 3 (encode pong) ++ 0 ∷ []) (pong ∷ []) (0 ∷ [])
      (record { small = omega arith; word = omega arith; known = refl }, tt) refl (omega arith) refl

created_room_is_current_example :
    let asked = on_create_room latin (some (bytes "den")) window in
    let msg = request latin create_room_req window (bytes "den") in
    let out = create_room fine bob msg with_bob 0 bob_session in
    let answer = response msg create_room_resp (bytes "OK|1|1") in
    (asked.written ≡ encode msg ∷ [])
    × (responses out.effects ≡ (bob, answer) ∷ [])
    × (get_elem? out.chat.objects 0 ≡ some (record bob_session { room_id = 1 }))
    × (on_ready_read latin (encode answer) asked
        ≡ some (record asked {
          recv_buf = [];
          current_room_id = 1;
          room_label = room_and_count 1 (false, 1);
          input_enabled = true;
          send_enabled = true;
          leave_enabled = true;
        }))
unfolding utf8 char_utf8 new_window succeeds to_string decimal new_chat
created_room_is_current_example =
    created_room_is_current latin latin-Laws window (bytes "den") fine bob with_bob 0 bob_session
      refl refl refl (omega arith) (omega arith) refl

refused_room_stays_example :
    let asked = on_join_room latin (some (bytes "9")) window in
    let msg = request latin join_room_req window (bytes "9") in
    let out = join_room fine bob msg with_bob 0 bob_session in
    let answer = response msg error_resp (bytes "Room not found") in
    (asked.written ≡ encode msg ∷ [])
    × (responses out.effects ≡ (bob, answer) ∷ [])
    × (out.chat ≡ with_bob)
    × (asked.current_room_id ≡ 9)
    × (on_ready_read latin (encode answer) asked
        ≡ some
            (record asked { recv_buf = []; warnings = from_server (bytes "Room not found") ∷ [] }))
unfolding chars new_window find new_chat
refused_room_stays_example =
    refused_room_stays latin latin-Laws window 9 (bytes "9") fine bob with_bob 0 bob_session nine
      (omega arith) refl (omega arith) refl

abbrev with_password : Answers
with_password = record fine { password = some (bytes "pw") }

abbrev login_window : LoginWindow latin
login_window = record {
  account = bytes " a";
  password = bytes "pw";
  is_connected = false;
  if_login_empty = false;
  recv_buf = [];
  qtimes = 0;
  connecting = 1;
  listening = true;
  visible = true;
  chat_window = none;
  notices = [];
  written = [];
}

login_answered_example :
    let asked = slot_connected latin login_window in
    let msg = login_request 0 (bytes "a") (bytes "pw") in
    let answer = response msg login_resp (verdict true) in
    (asked.written ≡ encode msg ∷ [])
    × (responses (handle_login with_password bob msg with_bob).effects ≡ (bob, answer) ∷ [])
    × (slot_ready_read latin (encode answer) asked ≡ some (answered latin true asked))
unfolding is_ascii has_no_bar skip_spaces chars
login_answered_example =
    login_answered latin latin-Laws login_window (bytes "a") (bytes "pw") (bytes "pw") with_password
      bob with_bob true refl refl refl refl refl (omega arith) refl (refl, refl, refl, refl, refl)
      refl refl (λ e. refl, λ e. refl)
