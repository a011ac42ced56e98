-- ===== src/Chat/Login.antt =====
-- `handleLogin`, and the guard that the other requests share.
use echo_net.Base.{
  ℕ, ◌+◌, [], ◌∷◌, ◌++◌, Bool, false, ◌&&◌, Option, none, some, Text, length, take, drop,
  if◌then◌else◌, bytes, same_text, find_byte, not,
}
use echo_net.Base.Maps.{put}
use echo_net.Protocol.MyProtocol.Message.{Message, login_resp, error_resp}
use echo_net.Chat.State.{
  Conn, Session, Chat, succeeds, Answers, redis_set_online, Outcome, reply, next_32, next_64,
  on_redis,
}

-- What a request from a connection with no session gets, and the session of another one.
unfoldable pub with_session :
    Chat → Conn → Message → Option (ℕ × Session) → (ℕ → Session → Outcome) → Outcome
unfolding reply
with_session c conn msg none next = record {
  chat = c;
  effects = reply conn msg error_resp (bytes "Not logged in") ∷ [];
}
with_session c conn msg (some (o, s)) next = next o s

-- The new session, with the table and the answer.
unfoldable pub add_session : Answers → Conn → Message → Text → Chat → Outcome
unfolding reply
add_session a conn msg name c =
    let id = c.next_session_id in
    record {
      chat = record c {
        next_session_id = next_32 id;
        objects =
            c.objects
            ++ record { connection = conn; user_id = id; user_name = name; room_id = 0 } ∷ [];
        sessions = put conn.fd (length c.objects) c.sessions;
        total_connections = next_64 c.total_connections;
        active_connections = next_64 c.active_connections;
      };
      effects =
          on_redis a.redis (redis_set_online id) ++ reply conn msg login_resp (bytes "OK") ∷ [];
    }

abbrev pub matches : Text → Option Text → Bool
matches given none = false
matches given (some password) = same_text given password

-- Whether the password in the table is the one given.
unfoldable pub is_valid : Answers → Text → Bool
unfolding succeeds
is_valid a given = succeeds a.select_user && a.bind_result && matches given a.password

unfoldable pub login_at : Answers → Conn → Message → Chat → Option ℕ → Outcome
unfolding add_session is_valid reply
login_at a conn msg c none = record {
  chat = c;
  effects = reply conn msg login_resp (bytes "Invalid login payload") ∷ [];
}
login_at a conn msg c (some pos) =
    if not a.select_user.connected
    then record { chat = c; effects = reply conn msg login_resp (bytes "sql conecction fail") ∷ [] }
    else if is_valid a (drop (pos + 1) msg.payload)
    then add_session a conn msg (take pos msg.payload) c
    else record { chat = c; effects = reply conn msg login_resp (bytes "FAIL") ∷ [] }

-- `handleLogin`: the name is before the first `|`, the password after it.
unfoldable pub handle_login : Answers → Conn → Message → Chat → Outcome
unfolding login_at
handle_login a conn msg c = login_at a conn msg c (find_byte 124 msg.payload)
