-- ===== src/Chat/Stale.antt =====
-- A room that is created by a member of another room.
use echo_net.Base.{
  ℕ, ◌≡◌, refl, ap, ◌∙◌, true, false, some, arith, Bool-cases, inl, inr, ◌==◌, get_elem?, is_empty,
  get_elem?-set-here,
}
use echo_net.Base.Maps.{find, put, find-put, find-remove}
use echo_net.Room.{add_member, new_room}
use echo_net.Protocol.MyProtocol.Message.{Message}
use echo_net.Chat.State.{
  Conn, Session, Chat, Answers, succeeds, set_room_id, get_session_by_fd, pointed, with_pointer,
  get_room_by_id, next_32,
}
use echo_net.Chat.Rooms.{create_room, remove_from_room, check_and_remove_empty_room, is_empty_room}
use echo_net.Chat.Service.{on_connection_closed, close_session, close_room}
use echo_net.Chat.Consistent.{IsSound, is_in_room}
use echo_net.Chat.Consistent.Rooms.{update_room-other}
use echo_net.Chat.Consistent.Handlers.{is_in-is_there}

check_and_remove-other :
    (a : Answers) (c : Chat) (id k : ℕ)
    → (id == k) ≡ false
    → find k (check_and_remove_empty_room a c id).chat.rooms ≡ find k c.rooms
unfolding check_and_remove_empty_room
check_and_remove-other a c id k e = elim (Bool-cases (is_empty_room (find id c.rooms))) [
  | inl b ↦ rw b (find-remove id k c.rooms ∙ rw e refl)
  | inr b ↦ rw b refl
]

remove_from_room-other :
    (c : Chat) (id o k : ℕ)
    → (id == k) ≡ false
    → find k (remove_from_room c id o).rooms ≡ find k c.rooms
unfolding remove_from_room get_room_by_id
remove_from_room-other c id o k e = update_room-other c.rooms id k o (find id c.rooms) e

-- Only the room of the session is changed.
close_room-other :
    (a : Answers) (c : Chat) (o k : ℕ) (s : Session)
    → (s.room_id == k) ≡ false
    → find k (close_room a c o s).chat.rooms ≡ find k c.rooms
unfolding close_room
close_room-other a c o k s e = elim (Bool-cases (s.room_id == 0)) [
  | inl b ↦ rw b refl
  | inr b ↦ rw b (
      check_and_remove-other a (remove_from_room c s.room_id o) s.room_id k e
      ∙ remove_from_room-other c s.room_id o k e)
]

on_connection_closed-other :
    (a : Answers) (c : Chat) (fd o k : ℕ) (s : Session)
    → get_session_by_fd c fd ≡ some (o, s)
    → (s.room_id == k) ≡ false
    → find k (on_connection_closed a fd c).chat.rooms ≡ find k c.rooms
unfolding on_connection_closed close_session
on_connection_closed-other a c fd o k s h e = rw h (close_room-other a _ o k s e)

-- The new room is made, and the others are as before.
created :
    (a : Answers) (conn : Conn) (msg : Message) (c : Chat) (o : ℕ) (s : Session)
    → is_empty msg.payload ≡ false
    → succeeds a.insert_room ≡ true
    → (create_room a conn msg c o s).chat
      ≡ set_room_id
          (record c {
            next_room_id = next_32 c.next_room_id;
            rooms = put c.next_room_id (add_member (new_room c.next_room_id msg.payload) o) c.rooms;
          })
          o
          s
          c.next_room_id
unfolding create_room
created a conn msg c o s h k = rw (h, k) refl

moved_session :
    (c : Chat) (fd o r : ℕ) (s : Session)
    → find fd c.sessions ≡ some o
    → get_elem? c.objects o ≡ some s
    → get_session_by_fd (set_room_id c o s r) fd ≡ some (o, record s { room_id = r })
unfolding get_session_by_fd set_room_id pointed with_pointer
moved_session c fd o r s live object =
    rw live (rw (get_elem?-set-here c.objects o (record s { room_id = r }) s object) refl)

below_differs :
    (c : Chat) (o id : ℕ)
    → IsSound c
    → is_in_room o (find id c.rooms) ≡ true
    → (c.next_room_id == id) ≡ false
below_differs c o id sound h =
    let (low, high) =
      sound.below id
        (is_in-is_there c.sessions c.objects c.rooms c.next_room_id o (find id c.rooms) h) in
    ground (arith, high)

-- In a sound state of the service, a session that creates a room while it is in another one stays a
-- member of that one, even after its connection is closed.
pub stays_in_old_room :
    (a b : Answers) (conn : Conn) (msg : Message) (c : Chat) (fd o : ℕ) (s : Session)
    → IsSound c
    → find fd c.sessions ≡ some o
    → get_elem? c.objects o ≡ some s
    → (s.room_id == 0) ≡ false
    → is_empty msg.payload ≡ false
    → succeeds a.insert_room ≡ true
    → (is_in_room o (find s.room_id (create_room a conn msg c o s).chat.rooms) ≡ true)
      × (is_in_room o (
            find s.room_id
              (on_connection_closed b fd (create_room a conn msg c o s).chat).chat.rooms)
          ≡ true)
unfolding set_room_id
stays_in_old_room a b conn msg c fd o s sound live object in_one named stored =
    let inside = sound.inside fd o s live object in_one in
    let made = created a conn msg c o s named stored in
    let apart = below_differs c o s.room_id sound inside in
    let new = add_member (new_room c.next_room_id msg.payload) o in
    let kept =
      ap (λ (x : Chat). find s.room_id x.rooms) made
      ∙ find-put c.next_room_id s.room_id new c.rooms
      ∙ rw apart refl in
    let there = ap (is_in_room o) kept ∙ inside in
    let found =
      ap (λ (x : Chat). get_session_by_fd x fd) made
      ∙ moved_session _ fd o c.next_room_id s live object in
    (
      there,
      ap (is_in_room o) (
            on_connection_closed-other b (create_room a conn msg c o s).chat fd o s.room_id
              (record s { room_id = c.next_room_id }) found apart)
          ∙ there,
    )
