-- ===== src/Room/Members.antt =====
-- Who is in a room after any history of it, and who receives a broadcast.
use echo_net.Base.{
  ℕ, ◌≡◌, refl, ap, ◌∙◌, List, [], ◌∷◌, Bool, true, false, arith, if◌then◌else◌, ◌==◌, ltb, map,
  Text, ==_iff,
}
use echo_net.Base.Counts.{count, count-append}
use echo_net.Protocol.MyProtocol.Message.{Message}
use echo_net.Room.{
  Room, new_room, has_member, add_member, without, remove_member, broadcast, set_id_name,
}

-- The operations that change a room.
pub data Op : Type 0 where
  joins : ℕ → Op
  leaves : ℕ → Op
  renamed : ℕ → Text → Op

unfoldable pub step : Room → Op → Room
unfolding add_member remove_member set_id_name
step r (joins s) = add_member r s
step r (leaves s) = remove_member r s
step r (renamed id name) = set_id_name r id name

unfoldable pub run : Room → List Op → Room
unfolding step
run r [] = r
run r (o ∷ os) = run (step r o) os

-- Whether the session `k` is in, from the operations alone, where it was in or not before them.
abbrev pub is_in : ℕ → Bool → List Op → Bool
is_in k before [] = before
is_in k before (joins s ∷ os) = is_in k (if s == k then true else before) os
is_in k before (leaves s ∷ os) = is_in k (if s == k then false else before) os
is_in k before (renamed id name ∷ os) = is_in k before os

abbrev pub bit : Bool → ℕ
bit b = if b then 1 else 0

has_member-count : (ms : List ℕ) (k : ℕ) → has_member ms k ≡ ltb 0 (count k ms)
unfolding has_member count
has_member-count [] k = refl
has_member-count (m ∷ ms) k = ground (arith, has_member-count ms k)

count-without :
    (ms : List ℕ) (s k : ℕ) → count k (without ms s) ≡ (if s == k then 0 else count k ms)
unfolding without count
count-without [] s k = ground arith
count-without (m ∷ ms) s k = ground (arith, count-without ms s k)

add_member-count :
    (r : Room) (s k : ℕ) (b : Bool)
    → count k r.members ≡ bit b
    → count k (add_member r s).members ≡ bit (if s == k then true else b)
unfolding add_member
add_member-count r s k b e = ground (
  arith,
  has_member-count r.members s,
  count-append k r.members s,
  ==_iff s k,
  ap (λ i. count i r.members),
)

step-count :
    (r : Room) (o : Op) (k : ℕ) (b : Bool)
    → count k r.members ≡ bit b
    → count k (step r o).members ≡ bit (is_in k b (o ∷ []))
unfolding step remove_member set_id_name
step-count r (joins s) k b e = add_member-count r s k b e
step-count r (leaves s) k b e = ground (arith, count-without r.members s k)
step-count r (renamed id name) k b e = e

run-count :
    (r : Room) (os : List Op) (k : ℕ) (b : Bool)
    → count k r.members ≡ bit b
    → count k (run r os).members ≡ bit (is_in k b os)
unfolding run
run-count r [] k b e = e
run-count r (joins s ∷ os) k b e =
    run-count (step r (joins s)) os k (if s == k then true else b) (step-count r (joins s) k b e)
run-count r (leaves s ∷ os) k b e =
    run-count (step r (leaves s)) os k (if s == k then false else b) (step-count r (leaves s) k b e)
run-count r (renamed id name ∷ os) k b e =
    run-count (step r (renamed id name)) os k b (step-count r (renamed id name) k b e)

recipients :
    (ms : List ℕ) (msg : Message) → map (λ (x : ℕ × Message). x.0) (map (λ s. (s, msg)) ms) ≡ ms
recipients [] msg = refl
recipients (m ∷ ms) msg = ap (◌∷◌ m) (recipients ms msg)

-- After any operations on a new room, a broadcast goes once to each session that is in by the last
-- operation on it, however often it joined, and to no other.
pub broadcast_once :
    (id : ℕ) (name : Text) (os : List Op) (msg : Message) (k : ℕ)
    → count k (map (λ (x : ℕ × Message). x.0) (broadcast (run (new_room id name) os) msg))
      ≡ bit (is_in k false os)
unfolding broadcast new_room count
broadcast_once id name os msg k =
    ap (count k) (recipients (run (new_room id name) os).members msg)
    ∙ run-count (new_room id name) os k false refl
