-- ===== src/Chat/Answered/Handlers.antt =====
-- The response of each request.
use echo_net.Base.{
  ℕ, ◌+◌, ◌≡◌, refl, List, [], ◌∷◌, ◌++◌, false, Option, none, some, Text, bytes, ◌==◌, inl, inr,
  Bool-cases, not, is_empty, drop, ◌%◌, ◌^◌, take, to_string,
}
use echo_net.Base.Maps.{find}
use echo_net.Room.{Room, broadcast, add_member, member_count}
use echo_net.Protocol.MyProtocol.Message.{
  Message, MyType, error_resp, login_resp, create_room_resp, join_room_resp, leave_room_resp,
  send_msg_resp,
}
use echo_net.Chat.State.{
  Conn, Session, Chat, Answers, Effect, redis_set_online, redis_sadd, redis_srem, room_inserted,
  Outcome, reply, on_redis, succeeds, get_room_by_id, set_room_id,
}
use echo_net.Chat.Login.{with_session, add_session, is_valid, login_at}
use echo_net.Chat.Rooms.{
  remove_from_room, broadcast_member_count, check_and_remove_empty_room, create_room, enter_room,
  join_found, join_parsed, leave_room, leave_old, left_target, add_to_room,
}
use echo_net.Chat.Talk.{talk_message, talk_in, send_message}
use echo_net.Chat.Responses.{
  is_push, response_type, responses, Kept, IsAnswered, responses-send_all, IsSilent,
  broadcast_member_count-IsSilent, check_and_remove-IsSilent, on_redis-IsSilent, responses-reply,
  IsSilent-append,
}

Kept-refl : (c : Chat) → Kept c c
Kept-refl c = record {
  sessions = refl;
  objects = refl;
  rooms = refl;
  next_session_id = refl;
  next_room_id = refl;
  writer = refl;
  active_connections = refl;
}

-- A response of the type that belongs to the request, after silent effects.
pub IsAnswered-well :
    (c d : Chat) (conn : Conn) (msg : Message) (ty : MyType) (es : List Effect) (text : Text)
    → ty ≡ response_type msg.type
    → IsSilent es
    → is_push ty ≡ false
    → IsAnswered c conn msg (record { chat = d; effects = es ++ reply conn msg ty text ∷ [] })
IsAnswered-well c d conn msg ty es text e h k = record {
  response = record { type = ty; id = msg.id; payload = text };
  only = responses-reply es conn msg ty text h k;
  same_id = refl;
  right_type = inl e;
}

-- An error, and nothing else.
pub IsAnswered-error :
    (c d : Chat) (conn : Conn) (msg : Message) (text : Text)
    → Kept c d
    → IsAnswered c conn msg (record { chat = d; effects = reply conn msg error_resp text ∷ [] })
unfolding is_push responses
IsAnswered-error c d conn msg text k = record {
  response = record { type = error_resp; id = msg.id; payload = text };
  only = responses-reply [] conn msg error_resp text refl refl;
  same_id = refl;
  right_type = inr (refl, k);
}

pub with_session-IsAnswered :
    (c : Chat) (conn : Conn) (msg : Message) (found : Option (ℕ × Session))
    (next : ℕ → Session → Outcome)
    → ((o : ℕ) (s : Session) → IsAnswered c conn msg (next o s))
    → IsAnswered c conn msg (with_session c conn msg found next)
unfolding with_session
with_session-IsAnswered c conn msg none next h =
    IsAnswered-error c c conn msg (bytes "Not logged in") (Kept-refl c)
with_session-IsAnswered c conn msg (some (o, s)) next h = h o s

pub login_at-IsAnswered :
    (a : Answers) (conn : Conn) (msg : Message) (c : Chat) (at : Option ℕ)
    → login_resp ≡ response_type msg.type
    → IsAnswered c conn msg (login_at a conn msg c at)
unfolding login_at add_session responses is_push
login_at-IsAnswered a conn msg c none e =
    IsAnswered-well c c conn msg login_resp [] (bytes "Invalid login payload") e refl refl
login_at-IsAnswered a conn msg c (some pos) e = elim (Bool-cases (not a.select_user.connected)) [
  | inl b ↦
      rw b (IsAnswered-well c c conn msg login_resp [] (bytes "sql conecction fail") e refl refl)
  | inr b ↦ elim (Bool-cases (is_valid a (drop (pos + 1) msg.payload))) [
    | inl v ↦
        rw (b, v)
          (IsAnswered-well c (add_session a conn msg (take pos msg.payload) c).chat conn msg
            login_resp (on_redis a.redis (redis_set_online c.next_session_id)) (bytes "OK") e
            (on_redis-IsSilent a.redis (redis_set_online c.next_session_id) refl) refl)
    | inr v ↦ rw (b, v) (IsAnswered-well c c conn msg login_resp [] (bytes "FAIL") e refl refl)
  ]
]

pub create_room-IsAnswered :
    (a : Answers) (conn : Conn) (msg : Message) (c : Chat) (o : ℕ) (s : Session)
    → create_room_resp ≡ response_type msg.type
    → IsAnswered c conn msg (create_room a conn msg c o s)
unfolding create_room responses is_push
create_room-IsAnswered a conn msg c o s e = elim (Bool-cases (is_empty msg.payload)) [
  | inl b ↦ rw b (IsAnswered-error c c conn msg (bytes "Room name empty") (Kept-refl c))
  | inr b ↦ elim (Bool-cases (succeeds a.insert_room)) [
    | inl v ↦
        rw (b, v)
          (IsAnswered-well c _ conn msg create_room_resp
            (room_inserted c.next_room_id msg.payload ∷ [])
            (bytes "OK|" ++ to_string c.next_room_id ++ bytes "|1") e refl refl)
    | inr v ↦
        rw (b, v) (IsAnswered-well c _ conn msg create_room_resp [] (bytes "FAIL") e refl refl)
  ]
]

pub enter_room-IsAnswered :
    (a : Answers) (conn : Conn) (msg : Message) (c d : Chat) (id o : ℕ) (s : Session) (r : Room)
    → join_room_resp ≡ response_type msg.type
    → IsAnswered c conn msg (enter_room a conn msg d id o s r)
unfolding enter_room responses is_push
enter_room-IsAnswered a conn msg c d id o s r e =
    let joined = set_room_id (add_to_room d id r o) o s id in
    let counts = broadcast_member_count joined id in
    let added = on_redis a.redis (redis_sadd id s.user_id) in
    IsAnswered-well c joined conn msg join_room_resp (counts ++ added)
      (bytes "OK|" ++ to_string (member_count (add_member r o))) e
      (IsSilent-append counts added (broadcast_member_count-IsSilent joined id)
        (on_redis-IsSilent a.redis (redis_sadd id s.user_id) refl))
      refl

pub join_found-IsAnswered :
    (a : Answers) (conn : Conn) (msg : Message) (c : Chat) (id o : ℕ) (s : Session)
    (r : Option Room)
    → join_room_resp ≡ response_type msg.type
    → IsAnswered c conn msg (join_found a conn msg c id o s r)
unfolding join_found
join_found-IsAnswered a conn msg c id o s none e =
    IsAnswered-error c c conn msg (bytes "Room not found") (Kept-refl c)
join_found-IsAnswered a conn msg c id o s (some r) e =
    enter_room-IsAnswered a conn msg c (leave_old c o s) id o s (left_target id o s r) e

pub join_parsed-IsAnswered :
    (a : Answers) (conn : Conn) (msg : Message) (c : Chat) (o : ℕ) (s : Session) (n : Option ℕ)
    → join_room_resp ≡ response_type msg.type
    → IsAnswered c conn msg (join_parsed a conn msg c o s n)
unfolding join_parsed
join_parsed-IsAnswered a conn msg c o s none e =
    IsAnswered-error c c conn msg (bytes "Invalid room id") (Kept-refl c)
join_parsed-IsAnswered a conn msg c o s (some n) e =
    join_found-IsAnswered a conn msg c (n % 2 ^ 32) o s (find (n % 2 ^ 32) c.rooms) e

pub leave_room-IsAnswered :
    (a : Answers) (conn : Conn) (msg : Message) (c : Chat) (o : ℕ) (s : Session)
    → leave_room_resp ≡ response_type msg.type
    → IsAnswered c conn msg (leave_room a conn msg c o s)
unfolding leave_room responses is_push
leave_room-IsAnswered a conn msg c o s e =
    let left = set_room_id (remove_from_room c s.room_id o) o s 0 in
    let cleaned = check_and_remove_empty_room a left s.room_id in
    let counts = broadcast_member_count left s.room_id in
    let removed = on_redis a.redis (redis_srem s.room_id s.user_id) in
    IsAnswered-well c cleaned.chat conn msg leave_room_resp (counts ++ cleaned.effects ++ removed)
      (bytes "OK") e
      (IsSilent-append (counts ++ cleaned.effects) removed
        (IsSilent-append counts cleaned.effects (broadcast_member_count-IsSilent left s.room_id)
          (check_and_remove-IsSilent a left s.room_id))
        (on_redis-IsSilent a.redis (redis_srem s.room_id s.user_id) refl))
      refl

pub talk_in-IsAnswered :
    (conn : Conn) (msg : Message) (c : Chat) (s : Session) (r : Option Room)
    → send_msg_resp ≡ response_type msg.type
    → IsAnswered c conn msg (talk_in conn msg c s r)
unfolding talk_in responses is_push talk_message broadcast
talk_in-IsAnswered conn msg c s none e =
    IsAnswered-error c c conn msg (bytes "Room not found") (Kept-refl c)
talk_in-IsAnswered conn msg c s (some r) e =
    IsAnswered-well c _ conn msg send_msg_resp _ (bytes "OK") e
      (responses-send_all c.objects r.members (talk_message s msg.payload) refl) refl

pub send_message-IsAnswered :
    (conn : Conn) (msg : Message) (c : Chat) (o : ℕ) (s : Session)
    → send_msg_resp ≡ response_type msg.type
    → IsAnswered c conn msg (send_message conn msg c o s)
unfolding send_message
send_message-IsAnswered conn msg c o s e = elim (Bool-cases (s.room_id == 0)) [
  | inl b ↦ rw b (IsAnswered-error c c conn msg (bytes "Not in any room") (Kept-refl c))
  | inr b ↦ rw b (talk_in-IsAnswered conn msg c s (get_room_by_id c s.room_id) e)
]
