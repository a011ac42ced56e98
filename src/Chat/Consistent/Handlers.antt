-- ===== src/Chat/Consistent/Handlers.antt =====
-- What a login, a move to a room, a new room and a closed connection keep.
use echo_net.Base.{
  ℕ, ◌+◌, ◌<◌, ◌≡◌, refl, sym, ap, subst, ◌∙◌, ◌^◌, List, [], ◌∷◌, ◌++◌, true, false, Option, none,
  some, arith, ◌==◌, ==_iff, ==_refl, length, Bool-cases, false_of_ne_true, inl, inr, Text, set,
  get_elem?, length-append, length-set, get_elem?-set-same, get_elem?-set-other,
  get_elem?-append-left, get_elem?-append-last,
}
use mathlib.Core.Option.{some-injective}
use echo_net.Base.Maps.{find, put, remove, find-put, find-put-some, find-remove-some}
use echo_net.Room.{Room, new_room, add_member}
use echo_net.Chat.State.{Session, next_32}
use echo_net.Chat.Consistent.{is_there, is_in_room, Keeps, IsConsistent}
use echo_net.Chat.Consistent.Rooms.{add_member-has}

module _ (sessions : List (ℕ × ℕ)) (objects : List Session) (rooms : List (ℕ × Room))
    (next : ℕ) where
  owner_differs :
      (fd f o p : ℕ)
      → ((i j k : ℕ) → find i sessions ≡ some k → find j sessions ≡ some k → i ≡ j)
      → find fd sessions ≡ some o
      → find f sessions ≡ some p
      → (fd == f) ≡ false
      → (o == p) ≡ false
  owner_differs fd f o p owners e j differ = false_of_ne_true (o == p) (λ same.
      absurd (ground (arith, differ, owners fd f o e (j ∙ ap some (sym ((==_iff o p).0 same))))))

  in_none : (s t : Session) → s.room_id ≡ 0 → (t.room_id == 0) ≡ false → s ≡ t → ⊥
  in_none s t e z is = ground (arith, e, z, ap (λ (x : Session). x.room_id) is)

  moved-inside :
      (after : List (ℕ × Room)) (o r : ℕ) (s : Session)
      → IsConsistent sessions objects rooms next
      → ((other id : ℕ)
          → (o == other) ≡ false
          → is_in_room other (find id rooms) ≡ true
          → is_in_room other (find id after) ≡ true)
      → ((r == 0) ≡ false → is_in_room o (find r after) ≡ true)
      → (fd p : ℕ) (t : Session) → find fd sessions ≡ some p
      → get_elem? (set objects o (record s { room_id = r })) p ≡ some t
      → (t.room_id == 0) ≡ false
      → is_in_room p (find t.room_id after) ≡ true
  moved-inside after o r s h others e fd p t i g z = elim (Bool-cases (o == p)) [
    | inl same ↦
        let v : Session = record s { room_id = r } in
        let p_is = (==_iff o p).0 same in
        let t_is =
          get_elem?-set-same objects o v t
            (subst (λ q. get_elem? (set objects o v) q ≡ some t) (sym p_is) g) in
        subst (λ x. (x.room_id == 0) ≡ false → is_in_room p (find x.room_id after) ≡ true) t_is
          (λ y. subst (λ q. is_in_room q (find r after) ≡ true) p_is (e y)) z
    | inr differ ↦ others p t.room_id differ (
        h.inside fd p t i
          (sym (get_elem?-set-other objects o p (record s { room_id = r }) differ) ∙ g) z)
  ]

  -- The session `o` is put into the room `r`, or into none.
  pub moved-IsConsistent :
      (after : List (ℕ × Room)) (o r : ℕ) (s : Session)
      → IsConsistent sessions objects rooms next
      → Keeps o rooms after
      → ((r == 0) ≡ false → is_in_room o (find r after) ≡ true)
      → IsConsistent sessions (set objects o (record s { room_id = r })) after next
  moved-IsConsistent after o r s h k e = record {
    valid = λ fd p i. rw (length-set objects o (record s { room_id = r })) (h.valid fd p i);
    owners = h.owners;
    inside = λ fd p t i g z. moved-inside after o r s h k.others e fd p t i g z;
    below = λ id i. h.below id (k.no_more id i);
    positive = h.positive;
  }

  pub added-IsConsistent :
      (fd : ℕ) (s : Session)
      → s.room_id ≡ 0
      → IsConsistent sessions objects rooms next
      → IsConsistent (put fd (length objects) sessions) (objects ++ s ∷ []) rooms next
  added-IsConsistent fd s e h = record {
    valid = λ f p i. elim (find-put-some fd f (length objects) p sessions i) [
      | inl (same, is) ↦ omega (arith, is, length-append objects (s ∷ []))
      | inr (differ, j) ↦ omega (arith, h.valid f p j, length-append objects (s ∷ []))
    ];
    owners = λ f g p i j. elim (find-put-some fd f (length objects) p sessions i) [
      | inl (same, is) ↦ elim (find-put-some fd g (length objects) p sessions j) [
        | inl (alike, too) ↦ sym same ∙ alike
        | inr (differ, l) ↦ absurd (omega (arith, is, h.valid g p l))
      ]
      | inr (differ, k) ↦ elim (find-put-some fd g (length objects) p sessions j) [
        | inl (alike, too) ↦ absurd (omega (arith, too, h.valid f p k))
        | inr (apart, l) ↦ h.owners f g p k l
      ]
    ];
    inside = λ f p t i g z. elim (find-put-some fd f (length objects) p sessions i) [
      | inl (same, is) ↦ absurd (
          in_none s t e z (
            some-injective s t
              (sym (get_elem?-append-last objects s) ∙ ap (get_elem? (objects ++ s ∷ [])) is ∙ g)))
      | inr (differ, j) ↦
          h.inside f p t j (sym (get_elem?-append-left objects (s ∷ []) p (h.valid f p j)) ∙ g) z
    ];
    below = h.below;
    positive = h.positive;
  }

  pub closed-IsConsistent :
      (after : List (ℕ × Room)) (fd o : ℕ)
      → find fd sessions ≡ some o
      → IsConsistent sessions objects rooms next
      → Keeps o rooms after
      → IsConsistent (remove fd sessions) objects after next
  closed-IsConsistent after fd o e h k = record {
    valid = λ f p i. h.valid f p (find-remove-some fd f p sessions i).1;
    owners = λ f g p i j.
        h.owners f g p (find-remove-some fd f p sessions i).1
          (find-remove-some fd g p sessions j).1;
    inside = λ f p t i g z.
        let (differ, j) = find-remove-some fd f p sessions i in
        k.others p t.room_id (owner_differs fd f o p h.owners e j differ) (h.inside f p t j g z);
    below = λ id i. h.below id (k.no_more id i);
    positive = h.positive;
  }

  pub counted-IsConsistent :
      next + 1 < 2 ^ 32
      → IsConsistent sessions objects rooms next
      → IsConsistent sessions objects rooms (next_32 next)
  counted-IsConsistent l h = record {
    valid = h.valid;
    owners = h.owners;
    inside = h.inside;
    below = λ id i. ground (arith, h.below id);
    positive = omega arith;
  }

  pub is_in-is_there : (o : ℕ) (r : Option Room) → is_in_room o r ≡ true → is_there r ≡ true
  is_in-is_there o none e = absurd (ground arith)
  is_in-is_there o (some r) e = refl

  fresh-inside :
      (other id : ℕ) (new : Room)
      → IsConsistent sessions objects rooms next
      → is_in_room other (find id rooms) ≡ true
      → is_in_room other (find id (put next new rooms)) ≡ true
  fresh-inside other id new h i =
      let (low, high) = h.below id (is_in-is_there other (find id rooms) i) in
      let apart : (next == id) ≡ false = ground (arith, high) in
      rw (find-put next id new rooms, apart) i

  pub created-IsConsistent :
      (o : ℕ) (s : Session) (name : Text)
      → next + 1 < 2 ^ 32
      → IsConsistent sessions objects rooms next
      → IsConsistent sessions
          (set objects o (record s { room_id = next }))
          (put next (add_member (new_room next name) o) rooms)
          (next_32 next)
  created-IsConsistent o s name l h = record {
    valid = λ fd p i. rw (length-set objects o (record s { room_id = next })) (h.valid fd p i);
    owners = h.owners;
    inside = λ fd p t i g z.
        moved-inside (put next (add_member (new_room next name) o) rooms) o next s h
          (λ other id differ i. fresh-inside other id (add_member (new_room next name) o) h i)
          (λ y.
            rw (find-put next next (add_member (new_room next name) o) rooms, ==_refl next)
              (add_member-has (new_room next name) o))
          fd p t i g z;
    below = λ id i. ground (
      arith,
      h.below id,
      h.positive,
      find-put next id (add_member (new_room next name) o) rooms,
      ==_iff next id,
    );
    positive = omega arith;
  }
