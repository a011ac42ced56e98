-- ===== src/Chat/Service.antt =====
-- `handleMessage`, `onConnectionClosed` and the first ids: every way into the service.
use echo_net.Base.{
  stoul, ℕ, ◌%◌, ◌^◌, [], ◌∷◌, ◌++◌, Bool, true, false, Option, none, some, Text, if◌then◌else◌,
  bytes, ◌==◌, to_string, not, ◌>>=◌,
}
use echo_net.Base.Maps.{remove}
use echo_net.Protocol.MyProtocol.Message.{
  Message, MyType, login_req, create_room_req, join_room_req, leave_room_req, send_msg_req,
  heartbeat_req, error_resp,
}
use echo_net.Chat.State.{
  Conn, Session, Chat, Answers, Outcome, reply, get_session_by_conn, get_session_by_fd, next_32,
  next_64, previous_64, on_redis, redis_del_online, key_removed,
}
use echo_net.Chat.Login.{handle_login}
use echo_net.Chat.Rooms.{
  handle_create_room, handle_join_room, handle_leave_room, remove_from_room, broadcast_member_count,
  check_and_remove_empty_room,
}
use echo_net.Chat.Talk.{handle_send_message, handle_heartbeat}

unfoldable pub refuse : Conn → Message → Text → Chat → Outcome
unfolding reply
refuse conn msg text c = record {
  chat = record c { error_requests = next_64 c.error_requests };
  effects = reply conn msg error_resp text ∷ [];
}

-- `sendRateLimited`
unfoldable pub send_rate_limited : Conn → Message → Chat → Outcome
unfolding refuse
send_rate_limited conn msg c = refuse conn msg (bytes "RATE_LIMITED") c

unfoldable pub user_key : ℕ → Text
user_key id = bytes "user:" ++ to_string id

unfoldable pub fd_key : ℕ → Text
fd_key fd = bytes "fd:" ++ to_string fd

-- The key of the limit of a user.
unfoldable pub limit_key : Conn → Option (ℕ × Session) → Text
unfolding user_key fd_key
limit_key conn none = fd_key conn.fd
limit_key conn (some (o, s)) = user_key s.user_id

unfoldable pub is_heartbeat : MyType → Bool
is_heartbeat heartbeat_req = true
is_heartbeat _ = false

-- The two limits, where both limiters are there. A heartbeat is exempt.
unfoldable pub is_limited : Answers → Conn → Message → Chat → Bool
unfolding is_heartbeat limit_key get_session_by_conn
is_limited a conn msg c =
    if is_heartbeat msg.type
    then false
    else if not a.global_limit
    then true
    else not (a.user_limit (limit_key conn (get_session_by_conn c conn)))

unfoldable pub dispatch : Answers → Conn → Message → Chat → MyType → Outcome
dispatch a conn msg c login_req = handle_login a conn msg c
dispatch a conn msg c create_room_req = handle_create_room a conn msg c
dispatch a conn msg c join_room_req = handle_join_room a conn msg c
dispatch a conn msg c leave_room_req = handle_leave_room a conn msg c
dispatch a conn msg c send_msg_req = handle_send_message conn msg c
dispatch a conn msg c heartbeat_req = handle_heartbeat conn msg c
dispatch a conn msg c _ = refuse conn msg (bytes "Unsupported message type") c

-- `handleMessage`
unfoldable pub handle_message : Answers → Conn → Message → Chat → Outcome
unfolding is_limited send_rate_limited dispatch
handle_message a conn msg c =
    if is_limited a conn msg c
    then send_rate_limited conn msg c
    else dispatch a conn msg (record c { total_requests = next_64 c.total_requests }) msg.type

-- The end of a session that is in a room.
unfoldable pub close_room : Answers → Chat → ℕ → Session → Outcome
unfolding remove_from_room broadcast_member_count check_and_remove_empty_room
close_room a c o s =
    if s.room_id == 0
    then record { chat = c; effects = [] }
    else let left = remove_from_room c s.room_id o in
      let cleaned = check_and_remove_empty_room a left s.room_id in
      record {
        chat = cleaned.chat;
        effects = broadcast_member_count left s.room_id ++ cleaned.effects;
      }

unfoldable pub close_session : Answers → ℕ → Chat → Option (ℕ × Session) → Outcome
unfolding close_room user_key fd_key
close_session a fd c none = record { chat = c; effects = key_removed (fd_key fd) ∷ [] }
close_session a fd c (some (o, s)) =
    let erased : Chat = record c {
      sessions = remove fd c.sessions;
      active_connections = previous_64 c.active_connections;
    } in
    let closed = close_room a erased o s in
    record {
      chat = closed.chat;
      effects =
          key_removed (fd_key fd)
            ∷ key_removed (user_key s.user_id)
            ∷ on_redis a.redis (redis_del_online s.user_id)
          ++ closed.effects;
    }

-- `onConnectionClosed`
unfoldable pub on_connection_closed : Answers → ℕ → Chat → Outcome
unfolding close_session get_session_by_fd
on_connection_closed a fd c = close_session a fd c (get_session_by_fd c fd)

-- `initIdsFromDatabase`: `row` is the text of the greatest id, where each call up to it succeeds. An
-- exception of `stoul` is `none`.
unfoldable pub init_ids_from_database : Option Text → Chat → Option Chat
unfolding stoul
init_ids_from_database none c = some c
init_ids_from_database (some row) c =
    stoul row >>= λ n. some (record c { next_room_id = next_32 (n % 2 ^ 32) })

-- The members of a new service.
unfoldable pub new_chat : Chat
new_chat = record {
  sessions = [];
  objects = [];
  rooms = [];
  next_session_id = 1;
  next_room_id = 1;
  writer = record { msg_queue = []; db_writer_stop = false; dropped_messages = 0 };
  total_connections = 0;
  active_connections = 0;
  total_requests = 0;
  error_requests = 0;
}
