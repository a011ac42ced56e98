-- ===== src/Room.antt =====
-- src/Room/Room.cpp: a room and its members. A session is a number, which stands for the identity of
-- the shared pointer.
use echo_net.Base.{
  ℕ, List, [], ◌∷◌, ◌++◌, Bool, true, false, ◌||◌, if◌then◌else◌, ◌==◌, map, length, Text,
}
use echo_net.Protocol.MyProtocol.Message.{Message}
pub mod Members

pub record Room : Type 0 where
  pub id : ℕ
  pub name : Text
  pub members : List ℕ

unfoldable pub new_room : ℕ → Text → Room
new_room id name = record { id = id; name = name; members = [] }

unfoldable pub has_member : List ℕ → ℕ → Bool
has_member [] s = false
has_member (m ∷ ms) s = m == s || has_member ms s

unfoldable pub add_member : Room → ℕ → Room
unfolding has_member
add_member r s = if has_member r.members s then r else record r { members = r.members ++ s ∷ [] }

-- The loop that erases a session.
unfoldable pub without : List ℕ → ℕ → List ℕ
without [] s = []
without (m ∷ ms) s = if m == s then without ms s else m ∷ without ms s

unfoldable pub remove_member : Room → ℕ → Room
unfolding without
remove_member r s = record r { members = without r.members s }

-- Who is sent a message, in this order.
unfoldable pub broadcast : Room → Message → List (ℕ × Message)
broadcast r msg = map (λ s. (s, msg)) r.members

unfoldable pub member_count : Room → ℕ
member_count r = length r.members

unfoldable pub set_id_name : Room → ℕ → Text → Room
set_id_name r id name = record r { id = id; name = name }
