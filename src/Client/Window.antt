-- ===== src/Client/Window.antt =====
-- `ChatWindow` (QT/chatwindow.cpp): its members and widgets, its buttons, and what it does with a
-- message from the server. The time of day in a line of the conversation is left out.
use echo_net.Base.{
  Bool, List, Option, Text, [], bytes, false, if◌then◌else◌, length, none, some, suc, true, ℕ, ◌%◌,
  ◌++◌, ◌+◌, ◌==◌, ◌^◌, ◌||◌, ◌∷◌,
}
use echo_net.Protocol.MyProtocol.Message.{
  MyType, create_room_req, create_room_resp, join_room_req, join_room_resp, leave_room_req,
  leave_room_resp, send_msg_req, broadcast_msg, heartbeat_req, heartbeat_resp, error_resp,
  member_count_update,
}
use echo_net.Client.Qt.{Qt}
use echo_net.Client.Packet.{packet}
use echo_net.Client.Frames.{frame_loop}

-- The text of the label: as the form has it, no room, or a room with the number of its members.
pub data RoomLabel : Type 0 where
  as_designed no_room : RoomLabel
  room_and_count : ℕ → Bool × ℕ → RoomLabel

pub data Status : Type 0 where
  no_status connected disconnected : Status

-- A line of the conversation: who said what, or that the connection is lost.
pub data Line (S : Type 0) : Type 0 where
  said : S → S → Line S
  connection_lost : Line S

-- A box with a warning.
pub data Warning (S : Type 0) : Type 0 where
  must_be_number : Warning S
  from_server : S → Warning S

-- `written` is what went to the socket, oldest first.
pub record Window (q : Qt) : Type 0 where
  pub username : q.QString
  pub current_room_id : ℕ
  pub request_id : ℕ
  pub recv_buf : Text
  pub input_text : q.QString
  pub input_enabled : Bool
  pub send_enabled : Bool
  pub leave_enabled : Bool
  pub heartbeat_on : Bool
  pub room_label : RoomLabel
  pub status : Status
  pub chat_lines : List (Line q.QString)
  pub warnings : List (Warning q.QString)
  pub written : List Text

-- The first of the parts of a text, if there are enough; `parts[i]` is only read where it exists.
abbrev pub with_two : {A S : Type 0} → List S → A → (S → S → A) → A
with_two [] other f = other
with_two (a ∷ []) other f = other
with_two (a ∷ b ∷ rest) other f = f a b

abbrev pub with_three : {A S : Type 0} → List S → A → (S → S → S → A) → A
with_three [] other f = other
with_three (a ∷ []) other f = other
with_three (a ∷ b ∷ []) other f = other
with_three (a ∷ b ∷ c ∷ rest) other f = f a b c

-- `toUInt` without its flag is 0 where it fails.
abbrev pub or_zero : Option ℕ → ℕ
or_zero none = 0
or_zero (some n) = n

module _ (q : Qt) where
  -- `ChatWindow::ChatWindow`
  unfoldable pub new_window : q.QString → Window q
  new_window username = record {
    username = username;
    current_room_id = 0;
    request_id = 1;
    recv_buf = [];
    input_text = q.from_utf8 [];
    input_enabled = false;
    send_enabled = false;
    leave_enabled = false;
    heartbeat_on = true;
    room_label = as_designed;
    status = no_status;
    chat_lines = [];
    warnings = [];
    written = [];
  }

  -- `sendPacket` with `requestId_++`.
  unfoldable pub send_packet : MyType → q.QString → Window q → Window q
  unfolding packet
  send_packet ty payload w = record w {
    written = w.written ++ packet q ty w.request_id payload ∷ [];
    request_id = (w.request_id + 1) % 2 ^ 32;
  }

  -- `onCreateRoom`; the answer of the dialog is `none` where it is cancelled.
  unfoldable pub on_create_room : Option q.QString → Window q → Window q
  unfolding send_packet
  on_create_room none w = w
  on_create_room (some name) w = if q.size name == 0 then w else send_packet create_room_req name w

  unfoldable pub join_number : Option ℕ → q.QString → Window q → Window q
  unfolding send_packet
  join_number none text w = record w { warnings = w.warnings ++ must_be_number ∷ [] }
  join_number (some id) text w = send_packet join_room_req text (record w { current_room_id = id })

  -- `onJoinRoom`: the room is taken for the current one before the server answers.
  unfoldable pub on_join_room : Option q.QString → Window q → Window q
  unfolding join_number
  on_join_room none w = w
  on_join_room (some text) w = if q.size text == 0 then w else join_number (q.to_uint text) text w

  -- `onLeaveRoom`
  unfoldable pub on_leave_room : Window q → Window q
  unfolding send_packet
  on_leave_room w =
      if w.current_room_id == 0
      then w
      else send_packet leave_room_req (q.number w.current_room_id) w

  -- `onSendMessage`
  unfoldable pub on_send_message : Window q → Window q
  unfolding send_packet
  on_send_message w =
      let content = q.trimmed w.input_text in
      if q.size content == 0 || w.current_room_id == 0
      then w
      else record (send_packet send_msg_req content w) { input_text = q.from_utf8 [] }

  -- `sendHeartbeat`
  unfoldable pub send_heartbeat : Window q → Window q
  unfolding send_packet
  send_heartbeat w = send_packet heartbeat_req (q.from_utf8 []) w

  -- `onDisconnected`
  unfoldable pub on_disconnected : Window q → Window q
  on_disconnected w = record w {
    status = disconnected;
    chat_lines = w.chat_lines ++ connection_lost ∷ [];
    input_enabled = false;
    send_enabled = false;
    heartbeat_on = false;
  }

  -- The label, and the widgets of a window that is in a room.
  unfoldable pub show_room : ℕ → Bool × ℕ → Window q → Window q
  show_room id count w = record w {
    room_label = room_and_count id count;
    input_enabled = true;
    send_enabled = true;
    leave_enabled = true;
  }

  unfoldable pub on_created : q.QString → Window q → Window q
  unfolding show_room
  on_created payload w = with_three (q.split payload) w λ ok id count.
      let room = or_zero (q.to_uint id) in
      (if q.same ok (q.from_utf8 (bytes "OK"))
        then show_room room (q.to_int count) (record w { current_room_id = room })
        else w)

  unfoldable pub on_joined : q.QString → Window q → Window q
  unfolding show_room
  on_joined payload w =
      if q.starts_with payload (q.from_utf8 (bytes "OK"))
      then show_room w.current_room_id
          (with_two (q.split payload) (false, 0) (λ ok count. q.to_int count)) w
      else w

  unfoldable pub on_left : Window q → Window q
  on_left w = record w {
    current_room_id = 0;
    room_label = no_room;
    input_enabled = false;
    send_enabled = false;
    leave_enabled = false;
  }

  -- Only the parts before a third `|` are shown.
  unfoldable pub on_broadcast : q.QString → Window q → Window q
  on_broadcast payload w =
      with_three (q.split payload) w
        λ room user content. record w { chat_lines = w.chat_lines ++ said user content ∷ [] }

  unfoldable pub on_count : q.QString → Window q → Window q
  on_count payload w = with_two (q.split payload) w λ room count.
      let id = or_zero (q.to_uint room) in
      (if id == w.current_room_id
        then record w { room_label = room_and_count w.current_room_id (q.to_int count) }
        else w)

  -- The switch of `parsePacket`.
  unfoldable pub handle : Option MyType → q.QString → Window q → Window q
  unfolding on_created on_joined on_left on_broadcast on_count
  handle (some create_room_resp) payload w = on_created payload w
  handle (some join_room_resp) payload w = on_joined payload w
  handle (some leave_room_resp) payload w = on_left w
  handle (some broadcast_msg) payload w = on_broadcast payload w
  handle (some heartbeat_resp) payload w = record w { status = connected }
  handle (some error_resp) payload w = record w {
    warnings = w.warnings ++ from_server payload ∷ [];
  }
  handle (some member_count_update) payload w = on_count payload w
  handle _ payload w = w

  abbrev pub handle_frame : Option MyType → Text → Window q → Window q
  handle_frame ty payload w = handle ty (q.from_utf8 payload) w

  unfoldable pub with_rest : Option (Text × Window q) → Option (Window q)
  with_rest none = none
  with_rest (some (rest, w)) = some (record w { recv_buf = rest })

  -- `parsePacket`: no handler looks at the buffer, so it is stored at the end.
  unfoldable pub parse_packet : Window q → Option (Window q)
  unfolding with_rest frame_loop handle
  parse_packet w = with_rest (frame_loop handle_frame (suc (length w.recv_buf)) w.recv_buf w)

  -- `onReadyRead`
  unfoldable pub on_ready_read : Text → Window q → Option (Window q)
  unfolding parse_packet
  on_ready_read arrived w = parse_packet (record w { recv_buf = w.recv_buf ++ arrived })
