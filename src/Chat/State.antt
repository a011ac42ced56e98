-- ===== src/Chat/State.antt =====
-- The members of `ChatService`, what its calls answer, and what it sends.
use echo_net.Base.{
  ℕ, ◌+◌, ◌-◌, ◌%◌, ◌^◌, List, [], ◌∷◌, ◌++◌, Bool, ◌&&◌, Option, none, some, Text, ◌>>=◌,
  get_elem?, set, if◌then◌else◌,
}
use echo_net.Base.Maps.{find}
use echo_net.Room.{Room}
use echo_net.Protocol.MyProtocol.Message.{Message, MyType}
use echo_net.Chat.Writer.{Writer}

-- A connection: the identity of the object, and its descriptor, which another one may have later.
pub record Conn : Type 0 where
  pub connection : ℕ
  pub fd : ℕ

-- The members of `Session` that the service reads.
pub record Session : Type 0 where
  pub connection : Conn
  pub user_id : ℕ
  pub user_name : Text
  pub room_id : ℕ

-- `objects` holds every session made so far; the shared pointer to one is its index. `sessions` and
-- the members of a room are such pointers.
pub record Chat : Type 0 where
  pub sessions : List (ℕ × ℕ)
  pub objects : List Session
  pub rooms : List (ℕ × Room)
  pub next_session_id : ℕ
  pub next_room_id : ℕ
  pub writer : Writer
  pub total_connections : ℕ
  pub active_connections : ℕ
  pub total_requests : ℕ
  pub error_requests : ℕ

-- What the calls of a prepared statement answer: whether each of them succeeds.
pub record Statement : Type 0 where
  pub connected : Bool
  pub init : Bool
  pub prepare : Bool
  pub bind_param : Bool
  pub execute : Bool

-- Whether the statement is executed: each call is made when those before it succeed.
unfoldable pub succeeds : Statement → Bool
succeeds s = s.connected && s.init && s.prepare && s.bind_param && s.execute

-- The answers that one message or one closed connection may ask for. `password` is what
-- `mysql_stmt_fetch` puts into the buffer, where it returns 0.
pub record Answers : Type 0 where
  pub global_limit : Bool
  pub user_limit : Text → Bool
  pub select_user : Statement
  pub bind_result : Bool
  pub password : Option Text
  pub insert_room : Statement
  pub delete_room : Statement
  pub redis : Bool

-- What leaves the service.
pub data Effect : Type 0 where
  sent : Conn → Message → Effect
  redis_set_online redis_del_online : ℕ → Effect
  redis_sadd redis_srem : ℕ → ℕ → Effect
  room_inserted : ℕ → Text → Effect
  room_deleted : ℕ → Effect
  key_removed : Text → Effect

pub record Outcome : Type 0 where
  pub chat : Chat
  pub effects : List Effect

abbrev pub next_32 : ℕ → ℕ
next_32 n = (n + 1) % 2 ^ 32

abbrev pub next_64 : ℕ → ℕ
next_64 n = (n + 1) % 2 ^ 64

abbrev pub previous_64 : ℕ → ℕ
previous_64 n = (n + 2 ^ 64 - 1) % 2 ^ 64

-- A response with the id of the request.
unfoldable pub reply : Conn → Message → MyType → Text → Effect
reply conn msg ty text = sent conn (record { type = ty; id = msg.id; payload = text })

unfoldable pub with_pointer : ℕ → Option Session → Option (ℕ × Session)
with_pointer o none = none
with_pointer o (some s) = some (o, s)

unfoldable pub pointed : List Session → ℕ → Option (ℕ × Session)
unfolding with_pointer
pointed objects o = with_pointer o (get_elem? objects o)

-- `getSessionByFd`: the pointer, and the session.
unfoldable pub get_session_by_fd : Chat → ℕ → Option (ℕ × Session)
unfolding pointed
get_session_by_fd c fd = find fd c.sessions >>= pointed c.objects

-- `getSessionByConn`, of a connection that is not null.
unfoldable pub get_session_by_conn : Chat → Conn → Option (ℕ × Session)
unfolding get_session_by_fd
get_session_by_conn c conn = get_session_by_fd c conn.fd

-- `getRoomById`
unfoldable pub get_room_by_id : Chat → ℕ → Option Room
get_room_by_id c id = find id c.rooms

-- `setRoomId`
unfoldable pub set_room_id : Chat → ℕ → Session → ℕ → Chat
set_room_id c o s r = record c { objects = set c.objects o (record s { room_id = r }) }

-- `Session::send`
unfoldable pub send_to : Message → Option Session → List Effect
send_to msg none = []
send_to msg (some s) = sent s.connection msg ∷ []

unfoldable pub send_all : List Session → List (ℕ × Message) → List Effect
unfolding send_to
send_all objects [] = []
send_all objects ((o, msg) ∷ rest) = send_to msg (get_elem? objects o) ++ send_all objects rest

-- Redis is asked only when the pool has a connection.
abbrev pub on_redis : Bool → Effect → List Effect
on_redis b e = if b then e ∷ [] else []
