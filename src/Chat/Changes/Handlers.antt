-- ===== src/Chat/Changes/Handlers.antt =====
-- Each handler makes one of the changes.
use echo_net.Base.{
  stoul, ◌⊎◌, ==_refl, ℕ, ◌+◌, ◌≡◌, refl, sym, ap, subst, ◌%◌, ◌^◌, not, Option, none, some, arith,
  ◌==◌, Bool-cases, inl, inr, set, find_byte, is_empty, drop, take,
}
use echo_net.Base.Maps.{find, put, find-put}
use echo_net.Room.{Room, add_member}
use echo_net.Protocol.MyProtocol.Message.{
  Message, MyType, login_req, create_room_req, join_room_req, leave_room_req, send_msg_req,
  heartbeat_req, error_resp, login_resp, create_room_resp, join_room_resp, unset, leave_room_resp,
  send_msg_resp, broadcast_msg, heartbeat_resp, member_count_update,
}
use echo_net.Chat.State.{
  Conn, Session, Chat, Answers, Outcome, get_session_by_conn, succeeds, get_room_by_id, set_room_id,
  next_64,
}
use echo_net.Chat.Login.{with_session, is_valid, login_at, handle_login}
use echo_net.Chat.Rooms.{
  handle_create_room, handle_join_room, handle_leave_room, remove_from_room,
  check_and_remove_empty_room, create_room, enter_room, join_found, join_parsed, join_room,
  leave_room, leave_old, left_target, add_to_room, is_empty_room,
}
use echo_net.Chat.Talk.{handle_send_message, handle_heartbeat, talk_in, send_message}
use echo_net.Chat.Service.{handle_message, dispatch, refuse, send_rate_limited, is_limited}
use echo_net.Chat.Consistent.Rooms.{
  joined-Keeps, remove_from_room-Keeps, check_and_remove-Keeps, Keeps-trans, add_member-has,
}
use echo_net.Chat.Changes.{Change, kept, added, numbered, created, moved, talked, refused}

with_session-Change :
    (c : Chat) (conn : Conn) (msg : Message) (found : Option (ℕ × Session))
    (next : ℕ → Session → Outcome)
    → ((o : ℕ) (s : Session) → Change c (next o s).chat)
    → Change c (with_session c conn msg found next).chat
unfolding with_session
with_session-Change c conn msg none next h = kept
with_session-Change c conn msg (some (o, s)) next h = h o s

login_at-Change :
    (a : Answers) (conn : Conn) (msg : Message) (c : Chat) (at : Option ℕ)
    → Change c (login_at a conn msg c at).chat
unfolding login_at
login_at-Change a conn msg c none = kept
login_at-Change a conn msg c (some pos) = elim (Bool-cases (not a.select_user.connected)) [
  | inl b ↦ rw b kept
  | inr b ↦ elim (Bool-cases (is_valid a (drop (pos + 1) msg.payload))) [
    | inl v ↦ rw (b, v) (added a conn msg (take pos msg.payload))
    | inr v ↦ rw (b, v) kept
  ]
]

create_room-Change :
    (a : Answers) (conn : Conn) (msg : Message) (c : Chat) (o : ℕ) (s : Session)
    → Change c (create_room a conn msg c o s).chat
unfolding create_room set_room_id
create_room-Change a conn msg c o s = elim (Bool-cases (is_empty msg.payload)) [
  | inl b ↦ rw b kept
  | inr b ↦ elim (Bool-cases (succeeds a.insert_room)) [
    | inl v ↦ rw (b, v) (created o s msg.payload)
    | inr v ↦ rw (b, v) numbered
  ]
]

leave_old-keeps :
    (c : Chat) (o : ℕ) (s : Session)
    → leave_old c o s ≡ record c { rooms = (leave_old c o s).rooms }
unfolding leave_old remove_from_room
leave_old-keeps c o s = elim (Bool-cases (s.room_id == 0)) [ inl e ↦ rw e refl | inr e ↦ rw e refl ]

pub check_and_remove-keeps :
    (a : Answers) (c : Chat) (id : ℕ)
    → (check_and_remove_empty_room a c id).chat
      ≡ record c { rooms = (check_and_remove_empty_room a c id).chat.rooms }
unfolding check_and_remove_empty_room
check_and_remove-keeps a c id = elim (Bool-cases (is_empty_room (find id c.rooms))) [
  | inl e ↦ rw e refl
  | inr e ↦ rw e refl
]

join_found-Change :
    (a : Answers) (conn : Conn) (msg : Message) (c : Chat) (id o : ℕ) (s : Session)
    (found : Option Room)
    → find id c.rooms ≡ found
    → Change c (join_found a conn msg c id o s found).chat
unfolding join_found enter_room add_to_room set_room_id
join_found-Change a conn msg c id o s none e = kept
join_found-Change a conn msg c id o s (some r) e =
    let new = add_member (left_target id o s r) o in
    let rooms = put id new (leave_old c o s).rooms in
    subst (Change c)
      (sym (
        ap
          (λ (x : Chat). record x {
            rooms = rooms;
            objects = set x.objects o (record s { room_id = id });
          })
          (leave_old-keeps c o s)))
      (moved o id s rooms (joined-Keeps c id o s r e) (λ z.
        rw (find-put id id new (leave_old c o s).rooms, ==_refl id)
          (add_member-has (left_target id o s r) o)))

join_room-Change :
    (a : Answers) (conn : Conn) (msg : Message) (c : Chat) (o : ℕ) (s : Session) (n : Option ℕ)
    → Change c (join_parsed a conn msg c o s n).chat
unfolding join_parsed
join_room-Change a conn msg c o s none = kept
join_room-Change a conn msg c o s (some n) =
    join_found-Change a conn msg c (n % 2 ^ 32) o s (find (n % 2 ^ 32) c.rooms) refl

leave_room-Change :
    (a : Answers) (conn : Conn) (msg : Message) (c : Chat) (o : ℕ) (s : Session)
    → Change c (leave_room a conn msg c o s).chat
unfolding leave_room set_room_id remove_from_room
leave_room-Change a conn msg c o s =
    let left = set_room_id (remove_from_room c s.room_id o) o s 0 in
    let rooms = (check_and_remove_empty_room a left s.room_id).chat.rooms in
    subst (Change c) (sym (check_and_remove-keeps a left s.room_id)) (
      moved o 0 s rooms
        (Keeps-trans o c.rooms left.rooms rooms (remove_from_room-Keeps c s.room_id o)
          (check_and_remove-Keeps a left s.room_id o))
        (λ e. absurd (ground arith)))

talk_in-Change :
    (conn : Conn) (msg : Message) (c : Chat) (s : Session) (r : Option Room)
    → Change c (talk_in conn msg c s r).chat
unfolding talk_in
talk_in-Change conn msg c s none = kept
talk_in-Change conn msg c s (some r) =
    talked (record { room_id = s.room_id; user_id = s.user_id; content = msg.payload })

send_message-Change :
    (conn : Conn) (msg : Message) (c : Chat) (o : ℕ) (s : Session)
    → Change c (send_message conn msg c o s).chat
unfolding send_message
send_message-Change conn msg c o s = elim (Bool-cases (s.room_id == 0)) [
  | inl b ↦ rw b kept
  | inr b ↦ rw b (talk_in-Change conn msg c s (get_room_by_id c s.room_id))
]

dispatch-Change :
    (a : Answers) (conn : Conn) (msg : Message) (c : Chat) (ty : MyType)
    → Change c (dispatch a conn msg c ty).chat
unfolding dispatch handle_login handle_create_room handle_join_room handle_leave_room
    handle_send_message handle_heartbeat join_room refuse
dispatch-Change a conn msg c login_req = login_at-Change a conn msg c (find_byte 124 msg.payload)
dispatch-Change a conn msg c create_room_req =
    with_session-Change c conn msg (get_session_by_conn c conn) _ (create_room-Change a conn msg c)
dispatch-Change a conn msg c join_room_req =
    with_session-Change c conn msg (get_session_by_conn c conn) _
      (λ o s. join_room-Change a conn msg c o s (stoul msg.payload))
dispatch-Change a conn msg c leave_room_req =
    with_session-Change c conn msg (get_session_by_conn c conn) _ (leave_room-Change a conn msg c)
dispatch-Change a conn msg c send_msg_req =
    with_session-Change c conn msg (get_session_by_conn c conn) _ (send_message-Change conn msg c)
dispatch-Change a conn msg c heartbeat_req = kept
dispatch-Change a conn msg c login_resp = refused
dispatch-Change a conn msg c create_room_resp = refused
dispatch-Change a conn msg c join_room_resp = refused
dispatch-Change a conn msg c unset = refused
dispatch-Change a conn msg c leave_room_resp = refused
dispatch-Change a conn msg c send_msg_resp = refused
dispatch-Change a conn msg c broadcast_msg = refused
dispatch-Change a conn msg c heartbeat_resp = refused
dispatch-Change a conn msg c error_resp = refused
dispatch-Change a conn msg c member_count_update = refused

-- A message makes one change, and may count as a request before it.
pub handle_message-Change :
    (a : Answers) (conn : Conn) (msg : Message) (c : Chat)
    → Change c (handle_message a conn msg c).chat
      ⊎ Change
          (record c { total_requests = next_64 c.total_requests })
          (handle_message a conn msg c).chat
unfolding handle_message send_rate_limited refuse
handle_message-Change a conn msg c = elim (Bool-cases (is_limited a conn msg c)) [
  | inl e ↦ rw e (inl refused)
  | inr e ↦ rw e (inr (dispatch-Change a conn msg _ msg.type))
]
