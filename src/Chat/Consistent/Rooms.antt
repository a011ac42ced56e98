-- ===== src/Chat/Consistent/Rooms.antt =====
-- Which members and which rooms each change of the rooms keeps.
use echo_net.Base.{
  subst, ℕ, ◌≡◌, refl, sym, ap, ◌∙◌, List, [], ◌∷◌, ◌++◌, true, false, ◌||◌, ◌&&◌, not, Option,
  none, some, arith, if◌then◌else◌, ◌==◌, ==_iff, length, ◌>>=◌, Bool-cases, inl, inr,
}
use mathlib.Core.Option.{some-injective}
use echo_net.Base.Maps.{find, put, remove, find-put, find-remove}
use echo_net.Room.{Room, has_member, without, add_member, remove_member, member_count}
use echo_net.Chat.State.{Session, Chat, Answers, get_room_by_id}
use echo_net.Chat.Rooms.{
  update_room, remove_from_room, check_and_remove_empty_room, is_empty_room, left_target, leave_old,
}
use echo_net.Chat.Consistent.{is_there, is_in_room, Keeps}

has_member-append :
    (ms : List ℕ) (o k : ℕ) → has_member (ms ++ o ∷ []) k ≡ (has_member ms k || o == k)
unfolding has_member
has_member-append [] o k = ground arith
has_member-append (m ∷ ms) o k = ground (arith, has_member-append ms o k)

has_member-without :
    (ms : List ℕ) (o k : ℕ) → (o == k) ≡ false → has_member (without ms o) k ≡ has_member ms k
unfolding has_member without
has_member-without [] o k e = refl
has_member-without (m ∷ ms) o k e = ground (arith, has_member-without ms o k)

-- An added member is in.
pub add_member-has : (r : Room) (o : ℕ) → has_member (add_member r o).members o ≡ true
unfolding add_member
add_member-has r o = elim (Bool-cases (has_member r.members o)) [
  | inl e ↦ rw e e
  | inr e ↦ rw e (has_member-append r.members o o ∙ ground arith)
]

-- The others stay in.
pub add_member-other :
    (r : Room) (o k : ℕ)
    → has_member r.members k ≡ true
    → has_member (add_member r o).members k ≡ true
unfolding add_member
add_member-other r o k h = elim (Bool-cases (has_member r.members o)) [
  | inl e ↦ rw e h
  | inr e ↦ rw e (has_member-append r.members o k ∙ ground arith)
]

pub Keeps-refl : (o : ℕ) (rooms : List (ℕ × Room)) → Keeps o rooms rooms
Keeps-refl o rooms = record { others = λ other id e h. h; no_more = λ id h. h }

pub Keeps-trans : (o : ℕ) (a b c : List (ℕ × Room)) → Keeps o a b → Keeps o b c → Keeps o a c
Keeps-trans o a b c h k = record {
  others = λ other id e i. k.others other id e (h.others other id e i);
  no_more = λ id i. h.no_more id (k.no_more id i);
}

at_key :
    (id k : ℕ) (r : Room) (rooms : List (ℕ × Room))
    → find id rooms ≡ some r
    → (id == k) ≡ true
    → find k rooms ≡ some r
at_key id k r rooms e same = ap (λ i. find i rooms) (sym ((==_iff id k).0 same)) ∙ e

-- A room is put in place of one whose other members it has.
pub put-Keeps :
    (o id : ℕ) (r new : Room) (rooms : List (ℕ × Room))
    → find id rooms ≡ some r
    → ((other : ℕ)
        → (o == other) ≡ false
        → has_member r.members other ≡ true
        → has_member new.members other ≡ true)
    → Keeps o rooms (put id new rooms)
put-Keeps o id r new rooms e h = record {
  others = λ other k ne i. elim (Bool-cases (id == k)) [
    | inl same ↦
        rw (find-put id k new rooms, same)
          (h other ne (subst (λ x. is_in_room other x ≡ true) (at_key id k r rooms e same) i))
    | inr differ ↦ rw (find-put id k new rooms, differ) i
  ];
  no_more = λ k i. elim (Bool-cases (id == k)) [
    | inl same ↦ ap is_there (at_key id k r rooms e same)
    | inr differ ↦
        sym (
          ap is_there
            (find-put id k new rooms ∙ ap (λ b. if b then some new else find k rooms) differ))
        ∙ i
  ];
}

update_room-Keeps :
    (o id : ℕ) (rooms : List (ℕ × Room)) (found : Option Room)
    → find id rooms ≡ found
    → Keeps o rooms (update_room id (found >>= λ r. some (remove_member r o)) rooms)
unfolding update_room remove_member
update_room-Keeps o id rooms none e = Keeps-refl o rooms
update_room-Keeps o id rooms (some r) e =
    put-Keeps o id r (remove_member r o) rooms e
      (λ other ne h. has_member-without r.members o other ne ∙ h)

pub remove_from_room-Keeps : (c : Chat) (id o : ℕ) → Keeps o c.rooms (remove_from_room c id o).rooms
unfolding remove_from_room get_room_by_id
remove_from_room-Keeps c id o = update_room-Keeps o id c.rooms (find id c.rooms) refl

empty_members : (other : ℕ) (ms : List ℕ) → (length ms == 0) ≡ true → has_member ms other ≡ true → ⊥
unfolding has_member
empty_members other [] e h = ground arith
empty_members other (m ∷ ms) e h = ground arith

-- An empty room has no member.
empty_room : (other : ℕ) (r : Option Room) → is_empty_room r ≡ true → is_in_room other r ≡ true → ⊥
unfolding member_count has_member
empty_room other none e h = ground arith
empty_room other (some r) e h = empty_members other r.members e h

remove-Keeps :
    (o id : ℕ) (rooms : List (ℕ × Room))
    → is_empty_room (find id rooms) ≡ true
    → Keeps o rooms (remove id rooms)
remove-Keeps o id rooms e = record {
  others = λ other k ne i. elim (Bool-cases (id == k)) [
    | inl same ↦ absurd (
        empty_room other (find k rooms)
          (ap (λ j. is_empty_room (find j rooms)) (sym ((==_iff id k).0 same)) ∙ e) i)
    | inr differ ↦ rw (find-remove id k rooms, differ) i
  ];
  no_more = λ k i. ground (arith, find-remove id k rooms);
}

pub check_and_remove-Keeps :
    (a : Answers) (c : Chat) (id o : ℕ)
    → Keeps o c.rooms (check_and_remove_empty_room a c id).chat.rooms
unfolding check_and_remove_empty_room
check_and_remove-Keeps a c id o = elim (Bool-cases (is_empty_room (find id c.rooms))) [
  | inl e ↦ rw e (remove-Keeps o id c.rooms e)
  | inr e ↦ rw e (Keeps-refl o c.rooms)
]

update_room-found :
    (rooms : List (ℕ × Room)) (old id o : ℕ) (r : Room) (found : Option Room)
    → find id rooms ≡ some r
    → find old rooms ≡ found
    → (old == id) ≡ true
    → find id (update_room old (found >>= λ x. some (remove_member x o)) rooms)
      ≡ some (remove_member r o)
unfolding update_room
update_room-found rooms old id o r none e f same = absurd (ground (arith, e, f, ==_iff old id))
update_room-found rooms old id o r (some x) e f same =
    find-put old id (remove_member x o) rooms
    ∙ rw same (
        ap (λ y. some (remove_member y o))
          (some-injective x r (sym (at_key old id x rooms f same) ∙ e)))

pub update_room-other :
    (rooms : List (ℕ × Room)) (old id o : ℕ) (found : Option Room)
    → (old == id) ≡ false
    → find id (update_room old (found >>= λ x. some (remove_member x o)) rooms) ≡ find id rooms
unfolding update_room
update_room-other rooms old id o none differ = refl
update_room-other rooms old id o (some x) differ =
    find-put old id (remove_member x o) rooms ∙ rw differ refl

-- The target after the old room is left.
left_target-found :
    (c : Chat) (id o : ℕ) (s : Session) (r : Room)
    → find id c.rooms ≡ some r
    → find id (leave_old c o s).rooms ≡ some (left_target id o s r)
unfolding leave_old left_target remove_from_room get_room_by_id
left_target-found c id o s r e = elim (Bool-cases (s.room_id == 0)) [
  | inl out ↦ rw out e
  | inr in_one ↦ elim (Bool-cases (s.room_id == id)) [
    | inl same ↦
        rw (in_one, same)
          (update_room-found c.rooms s.room_id id o r (find s.room_id c.rooms) e refl same)
    | inr other ↦
        rw (in_one, other)
          (update_room-other c.rooms s.room_id id o (find s.room_id c.rooms) other ∙ e)
  ]
]

left_target-other :
    (id o other : ℕ) (s : Session) (r : Room)
    → (o == other) ≡ false
    → has_member r.members other ≡ true
    → has_member (left_target id o s r).members other ≡ true
unfolding left_target remove_member
left_target-other id o other s r ne h =
    elim (Bool-cases (not (s.room_id == 0) && s.room_id == id)) [
      | inl e ↦ rw e (has_member-without r.members o other ne ∙ h)
      | inr e ↦ rw e h
    ]

leave_old-Keeps : (c : Chat) (o : ℕ) (s : Session) → Keeps o c.rooms (leave_old c o s).rooms
unfolding leave_old
leave_old-Keeps c o s = elim (Bool-cases (s.room_id == 0)) [
  | inl e ↦ rw e (Keeps-refl o c.rooms)
  | inr e ↦ rw e (remove_from_room-Keeps c s.room_id o)
]

-- The rooms after a session has joined one.
pub joined-Keeps :
    (c : Chat) (id o : ℕ) (s : Session) (r : Room)
    → find id c.rooms ≡ some r
    → Keeps o c.rooms (put id (add_member (left_target id o s r) o) (leave_old c o s).rooms)
joined-Keeps c id o s r e =
    Keeps-trans o c.rooms (leave_old c o s).rooms _ (leave_old-Keeps c o s) (
      put-Keeps o id (left_target id o s r) (add_member (left_target id o s r) o)
        (leave_old c o s).rooms (left_target-found c id o s r e)
        (λ other ne h. add_member-other (left_target id o s r) o other h))
