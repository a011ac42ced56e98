-- ===== src/Chat/Rooms.antt =====
-- The requests that create, join and leave a room.
use echo_net.Base.{
  stoul, ℕ, ◌^◌, ◌%◌, List, [], ◌∷◌, ◌++◌, Bool, false, ◌&&◌, Option, none, some, if◌then◌else◌,
  bytes, ◌==◌, not, is_empty, to_string, ◌>>=◌,
}
use echo_net.Base.Maps.{find, put, remove}
use echo_net.Room.{Room, new_room, add_member, remove_member, member_count, broadcast}
use echo_net.Protocol.MyProtocol.Message.{
  Message, error_resp, create_room_resp, join_room_resp, leave_room_resp, member_count_update,
}
use echo_net.Chat.State.{
  Conn, Session, Chat, succeeds, Answers, Effect, redis_sadd, redis_srem, room_inserted,
  room_deleted, Outcome, reply, next_32, on_redis, get_session_by_conn, get_room_by_id, set_room_id,
  send_all,
}
use echo_net.Chat.Login.{with_session}

unfoldable pub update_room : ℕ → Option Room → List (ℕ × Room) → List (ℕ × Room)
update_room id none rooms = rooms
update_room id (some r) rooms = put id r rooms

-- A room's object is changed where it stands; an id that is not there is passed over.
unfoldable pub remove_from_room : Chat → ℕ → ℕ → Chat
unfolding update_room get_room_by_id
remove_from_room c id o = record c {
  rooms = update_room id (get_room_by_id c id >>= λ r. some (remove_member r o)) c.rooms;
}

unfoldable pub count_message : ℕ → Room → Message
count_message id r = record {
  type = member_count_update;
  id = 0;
  payload = to_string id ++ bytes "|" ++ to_string (member_count r);
}

unfoldable pub count_effects : List Session → ℕ → Option Room → List Effect
unfolding count_message send_all
count_effects objects id none = []
count_effects objects id (some r) = send_all objects (broadcast r (count_message id r))

-- `broadcastMemberCount`
unfoldable pub broadcast_member_count : Chat → ℕ → List Effect
unfolding count_effects get_room_by_id
broadcast_member_count c id = count_effects c.objects id (get_room_by_id c id)

abbrev pub is_empty_room : Option Room → Bool
is_empty_room none = false
is_empty_room (some r) = member_count r == 0

-- `checkAndRemoveEmptyRoom`: from the memory, then from the database.
unfoldable pub check_and_remove_empty_room : Answers → Chat → ℕ → Outcome
unfolding succeeds
check_and_remove_empty_room a c id =
    if is_empty_room (find id c.rooms)
    then record {
      chat = record c { rooms = remove id c.rooms };
      effects = if succeeds a.delete_room then room_deleted id ∷ [] else [];
    }
    else record { chat = c; effects = [] }

unfoldable pub create_room : Answers → Conn → Message → Chat → ℕ → Session → Outcome
unfolding succeeds reply set_room_id
create_room a conn msg c o s =
    if is_empty msg.payload
    then record { chat = c; effects = reply conn msg error_resp (bytes "Room name empty") ∷ [] }
    else let id = c.next_room_id in
      let taken : Chat = record c { next_room_id = next_32 id } in
      if succeeds a.insert_room
      then record {
        chat =
            set_room_id
              (record taken { rooms = put id (add_member (new_room id msg.payload) o) taken.rooms })
              o s id;
        effects =
            room_inserted id msg.payload
            ∷ reply conn msg create_room_resp (bytes "OK|" ++ to_string id ++ bytes "|1")
            ∷ [];
      }
      else record { chat = taken; effects = reply conn msg create_room_resp (bytes "FAIL") ∷ [] }

-- `handleCreateRoom`: the id is taken even if the database refuses the room.
unfoldable pub handle_create_room : Answers → Conn → Message → Chat → Outcome
unfolding create_room
handle_create_room a conn msg c =
    with_session c conn msg (get_session_by_conn c conn) (create_room a conn msg c)

unfoldable pub add_to_room : Chat → ℕ → Room → ℕ → Chat
add_to_room c id r o = record c { rooms = put id (add_member r o) c.rooms }

-- The session is in the new room: its room, the members and the answer.
unfoldable pub enter_room : Answers → Conn → Message → Chat → ℕ → ℕ → Session → Room → Outcome
unfolding add_to_room broadcast_member_count set_room_id reply
enter_room a conn msg c id o s r =
    let joined = set_room_id (add_to_room c id r o) o s id in
    record {
      chat = joined;
      effects =
          broadcast_member_count joined id
          ++ on_redis a.redis (redis_sadd id s.user_id)
          ++ reply conn msg join_room_resp
              (bytes "OK|" ++ to_string (member_count (add_member r o)))
            ∷ [];
    }

-- The old room is left first, whichever it is, and even if it is the new one.
unfoldable pub leave_old : Chat → ℕ → Session → Chat
unfolding remove_from_room
leave_old c o s = if s.room_id == 0 then c else remove_from_room c s.room_id o

unfoldable pub left_target : ℕ → ℕ → Session → Room → Room
left_target id o s r = if not (s.room_id == 0) && s.room_id == id then remove_member r o else r

unfoldable pub join_found :
    Answers → Conn → Message → Chat → ℕ → ℕ → Session → Option Room → Outcome
unfolding enter_room reply leave_old left_target
join_found a conn msg c id o s none = record {
  chat = c;
  effects = reply conn msg error_resp (bytes "Room not found") ∷ [];
}
join_found a conn msg c id o s (some r) =
    enter_room a conn msg (leave_old c o s) id o s (left_target id o s r)

unfoldable pub join_parsed : Answers → Conn → Message → Chat → ℕ → Session → Option ℕ → Outcome
unfolding join_found reply
join_parsed a conn msg c o s none = record {
  chat = c;
  effects = reply conn msg error_resp (bytes "Invalid room id") ∷ [];
}
join_parsed a conn msg c o s (some n) =
    join_found a conn msg c (n % 2 ^ 32) o s (find (n % 2 ^ 32) c.rooms)

unfoldable pub join_room : Answers → Conn → Message → Chat → ℕ → Session → Outcome
unfolding join_parsed
join_room a conn msg c o s = join_parsed a conn msg c o s (stoul msg.payload)

-- `handleJionRoom`
unfoldable pub handle_join_room : Answers → Conn → Message → Chat → Outcome
unfolding join_room
handle_join_room a conn msg c =
    with_session c conn msg (get_session_by_conn c conn) (join_room a conn msg c)

unfoldable pub leave_room : Answers → Conn → Message → Chat → ℕ → Session → Outcome
unfolding remove_from_room set_room_id broadcast_member_count check_and_remove_empty_room reply
leave_room a conn msg c o s =
    let left = set_room_id (remove_from_room c s.room_id o) o s 0 in
    let cleaned = check_and_remove_empty_room a left s.room_id in
    record {
      chat = cleaned.chat;
      effects =
          broadcast_member_count left s.room_id
          ++ cleaned.effects
          ++ on_redis a.redis (redis_srem s.room_id s.user_id)
          ++ reply conn msg leave_room_resp (bytes "OK") ∷ [];
    }

-- `handleLeaveRoom`
unfoldable pub handle_leave_room : Answers → Conn → Message → Chat → Outcome
unfolding leave_room
handle_leave_room a conn msg c =
    with_session c conn msg (get_session_by_conn c conn) (leave_room a conn msg c)
