-- ===== src/Chat/Consistent.antt =====
-- What every history of the chat service keeps: whoever is in a room is among its members.
use echo_net.Base.{
  ℕ, ◌+◌, ◌≤◌, ◌<◌, ◌≡◌, refl, sym, ap, ◌∙◌, List, [], ◌∷◌, ◌++◌, Bool, true, false, Option, none,
  some, arith, if◌then◌else◌, ◌==◌, length, get_elem?, set, length-append, length-set,
}
use echo_net.Base.Maps.{find, put, find-put}
use echo_net.Room.{Room, has_member}
use echo_net.Chat.State.{Session, Chat}
pub mod Rooms
pub mod Handlers

abbrev pub is_there : Option Room → Bool
is_there none = false
is_there (some r) = true

abbrev pub is_in_room : ℕ → Option Room → Bool
is_in_room o none = false
is_in_room o (some r) = has_member r.members o

-- `sessions` point to objects, no two to the same; a session with a room is a member of it; the ids
-- of the rooms are below the next one.
pub record IsConsistent (sessions : List (ℕ × ℕ)) (objects : List Session) (rooms : List (ℕ × Room))
    (next : ℕ) : Type 0 where
  pub valid : (fd o : ℕ) → find fd sessions ≡ some o → o < length objects
  pub owners :
      (fd other o : ℕ) → find fd sessions ≡ some o → find other sessions ≡ some o → fd ≡ other
  pub inside :
      (fd o : ℕ) (s : Session)
      → find fd sessions ≡ some o
      → get_elem? objects o ≡ some s
      → (s.room_id == 0) ≡ false
      → is_in_room o (find s.room_id rooms) ≡ true
  pub below : (id : ℕ) → is_there (find id rooms) ≡ true → (0 < id) × (id < next)
  pub positive : 0 < next

-- What a handler may do to the rooms, where it moves the session `o` only: the others stay inside,
-- and no room appears.
pub record Keeps (o : ℕ) (before after : List (ℕ × Room)) : Type 0 where
  pub others :
      (other id : ℕ)
      → (o == other) ≡ false
      → is_in_room other (find id before) ≡ true
      → is_in_room other (find id after) ≡ true
  pub no_more : (id : ℕ) → is_there (find id after) ≡ true → is_there (find id before) ≡ true

abbrev pub IsSound : Chat → Type 0
IsSound c = IsConsistent c.sessions c.objects c.rooms c.next_room_id
