-- ===== src/Net/Connection/Events/Lifecycle.antt =====
-- Every history of a connection, from its registration on, under any interleaving of the event loop
-- with the workers.
use echo_net.Base.{
  ◌⊎◌, inl, inr, Bool-cases, ℕ, suc, ◌+◌, ◌≤◌, ◌≡◌, refl, List, [], ◌∷◌, true, false, not, Option,
  some, none, arith, length, Returns, subst,
}
use echo_net.Net.Buffer.{readable}
use echo_net.Net.Connection.State.{Protocol, Conn, Callback, is_connected, new_conn}
use echo_net.Net.Connection.Events.{
  Event, readable_event, writable_event, respond, task_done, final_posted, check_posted,
  close_called, run_posted, run_first, step,
}
use echo_net.Net.Connection.Events.Inv.{Inv, finals, bit, new_conn-Inv}
use echo_net.Net.Connection.Events.Steps.{
  exec-Inv, send_response-Inv, close-Inv, on_task_complete-Inv, post_final-Inv, post_check-Inv,
}
use echo_net.Net.Connection.Events.Io.{Laws, Chunks, total_sent, read-Inv, write-Inv}
use echo_net.Net.Connection.Events.Alive.{
  Alive, read-Alive, write-Alive, exec-Alive, send_response-Alive, close-Alive,
  on_task_complete-Alive, post_final-Alive, post_check-Alive,
}

module _ {P M : Type 0} where
  -- What the kernel may answer, and that a task ends only while one is running.
  abbrev pub Allowed : Conn P M → Event M → Type 0
  Allowed c (readable_event rs) = Chunks c.in_buffer rs
  Allowed c (writable_event rs) = total_sent rs ≤ readable c.out_buffer
  Allowed c task_done = c.task_running ≡ true
  Allowed c _ = Unit {0}

-- How many tasks have ended, after an event.
module _ {M : Type 0} where
  abbrev pub count_done : ℕ → Event M → ℕ
  count_done n task_done = suc n
  count_done n _ = n

-- `Reach proto start done c`: some history leads from `start` to `c`, in which `done` tasks ended.
pub data Reach {P M : Type 0} (proto : Protocol P M) (start : Conn P M)
    : ℕ → Conn P M → Type 0 where
  here : Reach proto start 0 start
  next :
      {done : ℕ} {c d : Conn P M}
      → Reach proto start done c
      → (now : ℕ) (e : Event M) → Allowed c e
      → step proto c (now, e) ≡ some d
      → Reach proto start (count_done done e) d

-- Between two events both invariants hold.
pub record Fine {P M : Type 0} (done : ℕ) (c : Conn P M) : Type 0 where
  pub inv : Inv done c
  pub alive : Alive c

module _ {P M : Type 0} (proto : Protocol P M) (laws : Laws proto) where
  run_first-Fine :
      {done : ℕ} (c : Conn P M) (ks : List (Callback M))
      → Fine done c
      → c.posted ≡ ks
      → Fine done (run_first proto c ks)
  unfolding run_first
  run_first-Fine c [] f e = f
  run_first-Fine c (k ∷ ks) f e = record {
    inv = exec-Inv proto c k ks f.inv e;
    alive = exec-Alive proto c k ks f.inv e;
  }

  both :
      (done : ℕ) (o : Option (Conn P M))
      → Returns (Inv done) o
      → Returns Alive o
      → Returns (Fine done) o
  both done none v a = v
  both done (some c) v a = record { inv = v; alive = a }

  -- Every event is handled, and keeps both invariants.
  pub step-Fine :
      {done : ℕ} (c : Conn P M) (now : ℕ) (e : Event M)
      → Fine done c
      → Allowed c e
      → Returns (Fine (count_done done e)) (step proto c (now, e))
  unfolding step
  step-Fine {done} c now (readable_event rs) f h =
      both done _ (read-Inv proto laws now c rs f.inv h)
        (read-Alive proto laws now c rs f.inv f.alive h)
  step-Fine {done} c now (writable_event rs) f h =
      both done _ (write-Inv now c rs f.inv h) (write-Alive now c rs f.inv f.alive h)
  step-Fine {done} c now (respond in_loop m) f h = record {
    inv = send_response-Inv proto in_loop c m f.inv;
    alive = send_response-Alive proto in_loop c m f.inv f.alive;
  }
  step-Fine {done} c now task_done f h =
      simp h
        (record { inv = on_task_complete-Inv c f.inv h; alive = on_task_complete-Alive c f.inv h })
  step-Fine {done} c now (final_posted in_loop) f h = record {
    inv = post_final-Inv proto in_loop c f.inv;
    alive = post_final-Alive proto in_loop c f.inv f.alive;
  }
  step-Fine {done} c now (check_posted in_loop) f h = record {
    inv = post_check-Inv proto in_loop c f.inv;
    alive = post_check-Alive proto in_loop c f.inv f.alive;
  }
  step-Fine {done} c now (close_called in_loop) f h = record {
    inv = close-Inv proto in_loop c f.inv;
    alive = close-Alive proto in_loop c f.alive;
  }
  step-Fine {done} c now run_posted f h = run_first-Fine c c.posted f refl

  Returns-at : {A : Type 0} (Q : A → Type 0) (o : Option A) (a : A) → Returns Q o → o ≡ some a → Q a
  Returns-at Q o a h e = subst (Returns Q) e h

  pub Reach-Fine :
      {start : Conn P M} {done : ℕ} {c : Conn P M}
      → Fine 0 start
      → Reach proto start done c
      → Fine done c
  Reach-Fine f here = f
  Reach-Fine {c = d} f (next r now e h s) =
      Returns-at _ _ d (step-Fine _ now e (Reach-Fine f r) h) s

  new_conn-Fine : (fd : ℕ) (p : P) (now : ℕ) → Fine 0 (new_conn {M = M} fd p now)
  unfolding new_conn
  new_conn-Fine fd p now = record {
    inv = new_conn-Inv fd p now;
    alive = record { watched = λ e. absurd (ground arith) };
  }

  -- For a protocol that keeps its laws and a connection whose tasks go to workers, from its registration
  -- on and under every interleaving: each event is handled, with no failed assertion of a buffer and no
  -- loop out of fuel, where `readv` and `send` take no more bytes than they were given room or data for,
  -- and a task ends only while one is running.
  pub never_stuck :
      {done : ℕ} (fd : ℕ) (p : P) (start now : ℕ) (c : Conn P M) (e : Event M)
      → Reach proto (new_conn fd p start) done c
      → Allowed c e
      → (d : Conn P M) × (step proto c (now, e) ≡ some d)
  never_stuck {done} fd p start now c e r h =
      found _ (step-Fine c now e (Reach-Fine (new_conn-Fine fd p start) r) h)
    where
      found :
          (o : Option (Conn P M))
          → Returns (Fine (count_done done e)) o
          → (d : Conn P M) × (o ≡ some d)
      found none f = absurd f
      found (some d) f = (d, refl)

  -- In every history of a connection whose protocol keeps its laws and whose tasks go to workers, the
  -- close callbacks that have run, those that wait in the event loop and those that a completion has
  -- claimed but not yet handed to it are together at most one, and none while the connection is connected.
  pub closed_at_most_once :
      {done : ℕ} (fd : ℕ) (p : P) (start : ℕ) (c : Conn P M)
      → Reach proto (new_conn fd p start) done c
      → length c.notices + finals c.posted + c.finals_due ≤ bit (not (is_connected c))
  closed_at_most_once fd p start c r =
      omega (arith, (Reach-Fine (new_conn-Fine fd p start) r).inv.budget)

  -- In every history of a connection whose protocol keeps its laws and whose tasks go to workers, once the
  -- connection is no longer connected, no task is running, and no close callback waits in the event loop
  -- or is claimed by a completion that has not yet handed it over, the close callback has run exactly
  -- once.
  pub closed_once :
      {done : ℕ} (fd : ℕ) (p : P) (start : ℕ) (c : Conn P M)
      → Reach proto (new_conn fd p start) done c
      → is_connected c ≡ false
      → c.task_running ≡ false
      → finals c.posted ≡ 0
      → c.finals_due ≡ 0
      → length c.notices ≡ 1
  closed_once fd p start c r off idle quiet handed =
      let f = Reach-Fine (new_conn-Fine fd p start) r in ground (arith, f.inv)

  -- At most one task of a connection, whose protocol keeps its laws and whose tasks go to workers, is with
  -- the workers at a time:
  -- in every history the tasks handed out are those that have ended, and one more exactly while one
  -- is running; and while none is running, none waits in the connection.
  pub one_task_at_a_time :
      {done : ℕ} (fd : ℕ) (p : P) (start : ℕ) (c : Conn P M)
      → Reach proto (new_conn fd p start) done c
      → (length c.submitted ≡ done + bit c.task_running)
        × ((c.task_running ≡ true) ⊎ (c.pending_tasks ≡ []))
  one_task_at_a_time fd p start c r =
      let inv = (Reach-Fine (new_conn-Fine fd p start) r).inv in
      (inv.flight, elim (Bool-cases c.task_running) [ inl e ↦ inl e | inr e ↦ inr (inv.queue e) ])
