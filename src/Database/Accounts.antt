-- ===== src/Database/Accounts.antt =====
-- Where the connections of the MySQL pool are, whatever its users do.
use echo_net.Base.{
  Bool, Bool-cases, List, Option, [], ap, arith, false, get_elem?, if◌then◌else◌, inl, inr, length,
  length-append, ltb, none, refl, some, suc, true, zero, ℕ, ◌&&◌, ◌++◌, ◌+◌, ◌∷◌, ◌≡◌,
}
use echo_net.Base.Counts.{count, one, count-append}
use echo_net.Database.MysqlPool.{
  MysqlPool, Opening, open_connection, push_opened, open_all, new_mysql_pool, check_connection,
  take_front, get_connection, release_connection,
}
use echo_net.Database.Users.{
  Event, gets, returns, Users, remove_at, loss, hand_out, give_back, step, run,
}

abbrev pub is_opened : ℕ → ℕ → ℕ
is_opened k n = if ltb k n then 1 else 0

is_opened-suc : (k n : ℕ) → is_opened k (suc n) ≡ is_opened k n + one k n
is_opened-suc k n = ground arith

count-remove_at :
    (k i c : ℕ) (xs : List ℕ)
    → get_elem? xs i ≡ some c
    → count k (remove_at i xs) + one k c ≡ count k xs
unfolding remove_at count
count-remove_at k i c [] e = absurd (ground arith)
count-remove_at k zero c (x ∷ xs) e = ground arith
count-remove_at k (suc i) c (x ∷ xs) e = omega (arith, count-remove_at k i c xs e)

length-remove_at :
    (i c : ℕ) (xs : List ℕ) → get_elem? xs i ≡ some c → suc (length (remove_at i xs)) ≡ length xs
unfolding remove_at
length-remove_at i c [] e = absurd (ground arith)
length-remove_at zero c (x ∷ xs) e = refl
length-remove_at (suc i) c (x ∷ xs) e = ap suc (length-remove_at i c xs e)

-- Every connection ever opened is in one place: in the queue, lent or closed. The queue, the lent
-- ones and the lost ones make up the size.
record Sound (size : ℕ) (u : Users) : Type 0 where
  places :
      (k : ℕ)
      → count k u.pool.pool + count k u.lent + count k u.pool.closed ≡ is_opened k u.pool.opened
  slots : length u.pool.pool + length u.lent + u.lost ≡ size

-- A connection of the queue, or a new one, is lent.
lend_old :
    (size c : ℕ) (cs : List ℕ) (u : Users)
    → u.pool.pool ≡ c ∷ cs
    → Sound size u
    → Sound size
        (record { pool = record u.pool { pool = cs }; lent = u.lent ++ c ∷ []; lost = u.lost + 0 })
unfolding count
lend_old size c cs u e s = record {
  places = λ k. omega (arith, s.places k, ap (count k) e, count-append k u.lent c);
  slots = omega (arith, s.slots, ap length e, length-append u.lent (c ∷ []));
}

-- The connection of the queue is closed, and what comes in its place is not there, closed too, or
-- lent.
replace_dead :
    (size c : ℕ) (cs : List ℕ) (again : Opening) (u : Users)
    → u.pool.pool ≡ c ∷ cs
    → Sound size u
    → Sound size (
        hand_out
          (open_connection again (record u.pool { pool = cs; closed = u.pool.closed ++ c ∷ [] }))
          (if again.init && again.connect then 0 else 1)
          u)
unfolding open_connection hand_out count
replace_dead size c cs again u e s = elim (Bool-cases again.init) [
  | inr off ↦ rw off (record {
    places = λ k. omega (arith, s.places k, ap (count k) e, count-append k u.pool.closed c);
    slots = omega (arith, s.slots, ap length e);
  })
  | inl yes_init ↦ elim (Bool-cases again.connect) [
    | inr off ↦
        rw (yes_init, off)
          (record {
            places = λ k. omega (
              arith,
              s.places k,
              ap (count k) e,
              count-append k u.pool.closed c,
              count-append k (u.pool.closed ++ c ∷ []) u.pool.opened,
              is_opened-suc k u.pool.opened,
            );
            slots = omega (arith, s.slots, ap length e);
          })
    | inl up ↦
        rw (yes_init, up)
          (record {
            places = λ k. omega (
              arith,
              s.places k,
              ap (count k) e,
              count-append k u.pool.closed c,
              count-append k u.lent u.pool.opened,
              is_opened-suc k u.pool.opened,
            );
            slots = omega (arith, s.slots, ap length e, length-append u.lent (u.pool.opened ∷ []));
          })
  ]
]

-- A request, by what the queue holds.
take_front-Sound :
    (size : ℕ) (alive : Bool) (again : Opening) (q : List ℕ) (u : Users)
    → u.pool.pool ≡ q
    → Sound size u
    → Sound size (hand_out (take_front alive again q u.pool) (loss alive again q) u)
unfolding take_front loss hand_out check_connection
take_front-Sound size alive again [] u e s = record {
  places = s.places;
  slots = omega (arith, s.slots);
}
take_front-Sound size true again (c ∷ cs) u e s = lend_old size c cs u e s
take_front-Sound size false again (c ∷ cs) u e s = replace_dead size c cs again u e s

give_back-Sound :
    (size i : ℕ) (o : Option ℕ) (u : Users)
    → get_elem? u.lent i ≡ o
    → Sound size u
    → Sound size (give_back o i u)
unfolding give_back release_connection
give_back-Sound size i none u e s = s
give_back-Sound size i (some c) u e s = record {
  places =
      λ k. omega (arith, s.places k, count-append k u.pool.pool c, count-remove_at k i c u.lent e);
  slots = omega (arith, s.slots, length-append u.pool.pool (c ∷ []), length-remove_at i c u.lent e);
}

Sound-step : (size : ℕ) (u : Users) (e : Event) → Sound size u → Sound size (step u e)
unfolding step get_connection
Sound-step size u (gets alive again) s = take_front-Sound size alive again u.pool.pool u refl s
Sound-step size u (returns i) s = give_back-Sound size i (get_elem? u.lent i) u refl s

Sound-run : (size : ℕ) (u : Users) (es : List Event) → Sound size u → Sound size (run u es)
unfolding run
Sound-run size u [] s = s
Sound-run size u (e ∷ es) s = Sound-run size (step u e) es (Sound-step size u e s)

-- The connections of the constructor.
abbrev Placed : MysqlPool → Type 0
Placed p = (k : ℕ) → count k p.pool + count k p.closed ≡ is_opened k p.opened

Placed-open : (o : Opening) (p : MysqlPool) → Placed p → Placed (push_opened (open_connection o p))
unfolding open_connection push_opened
Placed-open o p h = elim (Bool-cases o.init) [
  | inr off ↦ rw off h
  | inl yes_init ↦ elim (Bool-cases o.connect) [
    | inl up ↦
        rw (yes_init, up)
          λ k. omega (arith, h k, count-append k p.pool p.opened, is_opened-suc k p.opened)
    | inr off ↦
        rw (yes_init, off)
          λ k. omega (arith, h k, count-append k p.closed p.opened, is_opened-suc k p.opened)
  ]
]

Placed-open_all : (os : List Opening) (p : MysqlPool) → Placed p → Placed (open_all os p)
unfolding open_all
Placed-open_all [] p h = h
Placed-open_all (o ∷ os) p h =
    Placed-open_all os (push_opened (open_connection o p)) (Placed-open o p h)

none_opened : (k : ℕ) → 0 ≡ is_opened k 0
none_opened k = ground arith

unfoldable pub new_users : MysqlPool → Users
new_users p = record { pool = p; lent = []; lost = 0 }

-- Whatever the databases answer and the users do, a connection that was ever opened is in exactly one
-- place, in the queue, with one user, or closed. A connection that did not answer and could not be
-- replaced is lost for good: the queue, the connections lent and those lost make up the size that the
-- pool had at first.
pub connections_conserved :
    (os : List Opening) (es : List Event) (k : ℕ)
    → let p = new_mysql_pool os in
      let u = run (new_users p) es in
      (count k u.pool.pool + count k u.lent + count k u.pool.closed ≡ is_opened k u.pool.opened)
      × (length u.pool.pool + length u.lent + u.lost ≡ length p.pool)
unfolding new_users new_mysql_pool count
connections_conserved os es k =
    let p = new_mysql_pool os in
    let placed = Placed-open_all os (record { pool = []; opened = 0; closed = [] }) none_opened in
    let start : Sound (length p.pool) (new_users p) = record {
      places = λ j. omega (arith, placed j);
      slots = omega arith;
    } in
    let s = Sound-run (length p.pool) (new_users p) es start in (s.places k, s.slots)
