-- ===== src/Chat/Changes.antt =====
-- The changes that a message or a closed connection may make to the state, as a relation.
pub mod Handlers
pub mod Closing
use echo_net.Base.{ℕ, ◌≡◌, List, ◌∷◌, Bool, true, false, some, ◌==◌, Text, set}
use echo_net.Base.Maps.{find, put, remove}
use echo_net.Room.{Room, new_room, add_member}
use echo_net.Protocol.MyProtocol.Message.{Message}
use echo_net.Chat.Writer.{MessageRecord, enqueue_message}
use echo_net.Chat.State.{Conn, Session, Chat, Answers, next_32, next_64, previous_64}
use echo_net.Chat.Login.{add_session}
use echo_net.Chat.Consistent.{is_in_room, Keeps}

pub data Change (c : Chat) : Chat → Type 0 where
  kept : Change c c
  added :
      (a : Answers) (conn : Conn) (msg : Message) (name : Text)
      → Change c (add_session a conn msg name c).chat
  numbered : Change c (record c { next_room_id = next_32 c.next_room_id })
  created :
      (o : ℕ) (s : Session) (name : Text)
      → Change c (record c {
        next_room_id = next_32 c.next_room_id;
        rooms = put c.next_room_id (add_member (new_room c.next_room_id name) o) c.rooms;
        objects = set c.objects o (record s { room_id = c.next_room_id });
      })
  moved :
      (o r : ℕ) (s : Session) (rooms : List (ℕ × Room))
      → Keeps o c.rooms rooms
      → ((r == 0) ≡ false → is_in_room o (find r rooms) ≡ true)
      → Change c (record c { objects = set c.objects o (record s { room_id = r }); rooms = rooms })
  talked : (m : MessageRecord) → Change c (record c { writer = enqueue_message m c.writer })
  refused : Change c (record c { error_requests = next_64 c.error_requests })
  closed :
      (fd o : ℕ) (rooms : List (ℕ × Room))
      → find fd c.sessions ≡ some o
      → Keeps o c.rooms rooms
      → Change c (record c {
        sessions = remove fd c.sessions;
        active_connections = previous_64 c.active_connections;
        rooms = rooms;
      })
