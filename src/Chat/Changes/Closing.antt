-- ===== src/Chat/Changes/Closing.antt =====
-- A closed connection makes one of the changes.
use echo_net.Base.{
  ℕ, ◌≡◌, refl, sym, ap, subst, List, Option, none, some, arith, ◌==◌, ◌>>=◌, Bool-cases, inl, inr,
  get_elem?,
}
use mathlib.Core.Option.{some-injective}
use echo_net.Base.Maps.{find, remove}
use echo_net.Room.{Room}
use echo_net.Chat.State.{
  Session, Chat, Answers, get_session_by_fd, pointed, with_pointer, previous_64,
}
use echo_net.Chat.Rooms.{remove_from_room, check_and_remove_empty_room}
use echo_net.Chat.Service.{on_connection_closed, close_session, close_room}
use echo_net.Chat.Consistent.{Keeps}
use echo_net.Chat.Consistent.Rooms.{
  remove_from_room-Keeps, check_and_remove-Keeps, Keeps-trans, Keeps-refl,
}
use echo_net.Chat.Changes.{Change, kept, closed}
use echo_net.Chat.Changes.Handlers.{check_and_remove-keeps}

close_room-rooms :
    (a : Answers) (c : Chat) (o : ℕ) (s : Session)
    → (rooms : List (ℕ × Room)) × (Keeps o c.rooms rooms)
      × ((close_room a c o s).chat ≡ record c { rooms = rooms })
unfolding close_room remove_from_room
close_room-rooms a c o s =
    let left = remove_from_room c s.room_id o in
    let rooms = (check_and_remove_empty_room a left s.room_id).chat.rooms in
    elim (Bool-cases (s.room_id == 0)) [
      | inl e ↦ rw e (c.rooms, Keeps-refl o c.rooms, refl)
      | inr e ↦ rw e (
        rooms,
        Keeps-trans o c.rooms left.rooms rooms (remove_from_room-Keeps c s.room_id o)
            (check_and_remove-Keeps a left s.room_id o),
        check_and_remove-keeps a left s.room_id,
      )
    ]

close_session-Change :
    (a : Answers) (fd : ℕ) (c : Chat) (found : Option (ℕ × Session))
    → ((o : ℕ) (s : Session) → found ≡ some (o, s) → find fd c.sessions ≡ some o)
    → Change c (close_session a fd c found).chat
unfolding close_session
close_session-Change a fd c none h = kept
close_session-Change a fd c (some (o, s)) h =
    let erased : Chat = record c {
      sessions = remove fd c.sessions;
      active_connections = previous_64 c.active_connections;
    } in
    let (rooms, k, e) = close_room-rooms a erased o s in
    subst (Change c) (sym e) (closed fd o rooms (h o s refl) k)

same_pointer :
    (p o : ℕ) (s : Session) (got : Option Session) → with_pointer p got ≡ some (o, s) → p ≡ o
unfolding with_pointer
same_pointer p o s none e = absurd (ground arith)
same_pointer p o s (some t) e = ap (λ (x : ℕ × Session). x.0) (some-injective (p, t) (o, s) e)

pointed-object :
    (objects : List Session) (p : Option ℕ) (o : ℕ) (s : Session)
    → (p >>= pointed objects) ≡ some (o, s)
    → p ≡ some o
unfolding pointed
pointed-object objects none o s e = absurd (ground arith)
pointed-object objects (some p) o s e = ap some (same_pointer p o s (get_elem? objects p) e)

pub on_connection_closed-Change :
    (a : Answers) (fd : ℕ) (c : Chat) → Change c (on_connection_closed a fd c).chat
unfolding on_connection_closed get_session_by_fd
on_connection_closed-Change a fd c =
    close_session-Change a fd c (get_session_by_fd c fd)
      (pointed-object c.objects (find fd c.sessions))
