-- ===== src/Net/Connection/Events/Alive.antt =====
-- A connection whose peer has stopped sending is never forgotten: as long as it is connected,
-- something that will look at it again is under way.
use echo_net.Base.{
  ◌-◌, ℕ, suc, ◌+◌, ◌≤◌, ◌<◌, ◌≡◌, refl, inl, inr, List, [], ◌∷◌, ◌++◌, Bool, true, false, ◌&&◌,
  not, Option, some, none, arith, if◌then◌else◌, ◌==◌, Bool-cases, Returns, Returns-bind, ◌>>=◌,
  Holds, Holds-bind, Returns-Holds,
}
use echo_net.Net.Buffer.{Buffer, readable, move_read_ptr}
use echo_net.Net.Connection.State.{
  Protocol, Conn, Callback, send_message, close_request, run_close_callback, finish_check,
  is_connected, hands_over,
}
use echo_net.Net.Connection.Close.{handle_close, maybe_finish, call_close_callback}
use echo_net.Net.Connection.Tasks.{
  complete_section, complete_connected, complete_closing, submit_front, start_front, drop_tasks,
}
use echo_net.Net.Connection.Send.{
  SendResult, write_loop, after_write, write, post, deliver, exec, run_in_loop, send_response,
  close, post_final, post_check, note_todo, on_task_complete,
}
use echo_net.Net.Connection.Read.{ReadResult, take_in, make_room, read_loop, parse_loop, read}
use echo_net.Net.Connection.Events.Inv.{Inv, sends, checks, bit}
use echo_net.Net.Connection.Events.Steps.{flush_send_queue-Inv, sends-append}
use echo_net.Net.Connection.Events.Io.{
  Laws, Chunks, total_sent, write_loop-Inv, read_loop-Inv, parse_loop-Inv,
}

-- What a loop leaves: the invariant, and on its early return a connection that is not connected.
abbrev Left : {P M : Type 0} → ℕ → Bool × Conn P M → Type 0
Left done r = Inv done r.1 × (r.0 ≡ false → is_connected r.1 ≡ false)

-- A running task, a completion or a callback that will look, or bytes that the socket will ask for.
abbrev pub outstanding : {P M : Type 0} → Conn P M → ℕ
outstanding c =
    bit c.task_running + c.checks_due + sends c.posted + checks c.posted + readable c.out_buffer

pub record Alive {P M : Type 0} (c : Conn P M) : Type 0 where
  pub watched : c.peer_read_closed ≡ true → is_connected c ≡ true → 0 < outstanding c

module _ {M : Type 0} where
  checks-append : (ks js : List (Callback M)) → checks (ks ++ js) ≡ checks ks + checks js
  checks-append [] js = omega arith
  checks-append (send_message m ∷ ks) js = checks-append ks js
  checks-append (close_request ∷ ks) js = checks-append ks js
  checks-append (run_close_callback ∷ ks) js = checks-append ks js
  checks-append (finish_check ∷ ks) js = omega (arith, checks-append ks js)

module _ {P M : Type 0} where
  -- A connection that is not connected needs no watching.
  off-Alive : (c : Conn P M) → is_connected c ≡ false → Alive c
  off-Alive c e = ground arith

  -- Closing leaves no connected connection behind, whatever it started from.
  pub handle_close-off : (c : Conn P M) → is_connected (handle_close c) ≡ false
  unfolding handle_close
  handle_close-off c = ground arith

  maybe_finish-Alive : {done : ℕ} (c : Conn P M) → Inv done c → Alive (maybe_finish c)
  unfolding maybe_finish
  maybe_finish-Alive c v = ground (arith, handle_close-off c)

  call_close_callback-off :
      (c : Conn P M) → is_connected c ≡ false → is_connected (call_close_callback c) ≡ false
  unfolding call_close_callback
  call_close_callback-off c e = ground arith

  write_loop-off :
      (now : ℕ) (rs : List SendResult) (c : Conn P M)
      → Holds (λ r. r.0 ≡ false → is_connected r.1 ≡ false) (write_loop now c rs)
  unfolding write_loop
  write_loop-off now [] c = λ e. absurd (ground arith)
  write_loop-off now (SendResult.sent n ∷ rs) c = elim (Bool-cases (readable c.out_buffer == 0)) [
    | inl e ↦ rw e (λ f. absurd (ground arith))
    | inr ne ↦ elim (Bool-cases (n == 0)) [
      | inl e ↦ rw (ne, e) (λ f. handle_close-off c)
      | inr pos ↦
          rw (ne, pos)
            (Holds-bind (λ b. Unit {0}) _ (move_read_ptr c.out_buffer n) _
              (trivial (move_read_ptr c.out_buffer n)) (λ b u. write_loop-off now rs _))
    ]
  ]
    where
      trivial : (o : Option Buffer) → Holds (λ b. Unit {0}) o
      trivial none = tt
      trivial (some b) = tt
  write_loop-off now (SendResult.interrupted ∷ rs) c =
      elim (Bool-cases (readable c.out_buffer == 0)) [
        | inl e ↦ rw e (λ f. absurd (ground arith))
        | inr ne ↦ rw ne (write_loop-off now rs c)
      ]
  write_loop-off now (SendResult.would_block ∷ rs) c = λ e. absurd (ground arith)
  write_loop-off now (SendResult.failed ∷ rs) c = elim (Bool-cases (readable c.out_buffer == 0)) [
    | inl e ↦ rw e (λ f. absurd (ground arith))
    | inr ne ↦ rw ne (λ f. handle_close-off c)
  ]

  after_write-Alive : {done : ℕ} (c : Conn P M) → Inv done c → Alive (after_write c)
  unfolding after_write
  after_write-Alive {done} c v = elim (Bool-cases (readable c.out_buffer == 0)) [
    | inl e ↦ rw e (maybe_finish-Alive {done = done} _ (ground arith))
    | inr ne ↦ rw ne (ground arith)
  ]

  pub write-Alive :
      {done : ℕ} (now : ℕ) (c : Conn P M) (rs : List SendResult)
      → Inv done c
      → Alive c
      → total_sent rs ≤ readable c.out_buffer
      → Returns Alive (write now c rs)
  unfolding write
  write-Alive {done} now c rs v a h = elim (Bool-cases (is_connected c)) [
    | inl on ↦ rw on (
        Returns-bind (Left done) Alive _ _
          (Returns-Holds (λ r. Inv done r.1) (λ r. r.0 ≡ false → is_connected r.1 ≡ false)
            (write_loop now c rs) (write_loop-Inv now rs c v h) (write_loop-off now rs c))
          λ (go, d) w. either go d w.0 w.1)
    | inr off ↦ rw off a
  ]
    where
      either :
          (go : Bool) (d : Conn P M)
          → Inv done d
          → (go ≡ false → is_connected d ≡ false)
          → Alive (if go then after_write d else d)
      either true d w k = after_write-Alive d w
      either false d w k = off-Alive d (k refl)

  read_loop-off :
      (now : ℕ) (rs : List ReadResult) (c : Conn P M)
      → Holds (λ r. r.0 ≡ false → is_connected r.1 ≡ false) (read_loop now c rs)
  unfolding read_loop
  read_loop-off now [] c = λ e. absurd (ground arith)
  read_loop-off now (ReadResult.received [] ∷ rs) c = λ e. absurd (ground arith)
  read_loop-off now (ReadResult.received (x ∷ xs) ∷ rs) c =
      Holds-bind (λ b. Unit {0}) _ (take_in (make_room c.in_buffer) (x ∷ xs)) _
        (trivial (take_in (make_room c.in_buffer) (x ∷ xs))) (λ b u. read_loop-off now rs _)
    where
      trivial : (o : Option Buffer) → Holds (λ b. Unit {0}) o
      trivial none = tt
      trivial (some b) = tt
  read_loop-off now (ReadResult.interrupted ∷ rs) c = read_loop-off now rs _
  read_loop-off now (ReadResult.would_block ∷ rs) c = λ e. absurd (ground arith)
  read_loop-off now (ReadResult.failed ∷ rs) c = λ e. handle_close-off _

module _ {P M : Type 0} {done : ℕ} (proto : Protocol P M) where
  pub read-Alive :
      (laws : Laws proto) (now : ℕ) (c : Conn P M) (rs : List ReadResult)
      → Inv done c
      → Alive c
      → Chunks c.in_buffer rs
      → Returns Alive (read proto now c rs)
  unfolding read
  read-Alive laws now c rs v a h = elim (Bool-cases (is_connected c && not c.peer_read_closed)) [
    | inl on ↦ rw on (
        Returns-bind (Left done) Alive _ _
          (Returns-Holds (λ r. Inv done r.1) (λ r. r.0 ≡ false → is_connected r.1 ≡ false)
            (read_loop now c rs) (read_loop-Inv now rs c v h) (read_loop-off now rs c))
          λ (go, d) w. either go d w.0 w.1)
    | inr off ↦ rw off a
  ]
    where
      either :
          (go : Bool) (d : Conn P M)
          → Inv done d
          → (go ≡ false → is_connected d ≡ false)
          → Returns Alive (
              if go
              then (parse_loop proto (suc (readable d.in_buffer)) d >>= λ e. some (maybe_finish e))
              else some d)
      either true d w k =
          Returns-bind (Inv done) Alive _ _
            (parse_loop-Inv proto laws (suc (readable d.in_buffer)) d w (omega arith))
            λ e x. maybe_finish-Alive e x
      either false d w k = off-Alive d (k refl)

  deliver-Alive :
      (c : Conn P M) (m : M) (n : ℕ)
      → n ≡ suc c.pending_send_callbacks
      → Inv done c
      → Alive (deliver proto (record c { pending_send_callbacks = n }) m)
  unfolding deliver
  deliver-Alive c m n e v = elim (Bool-cases (is_connected c)) [
    | inl on ↦ rw on (maybe_finish-Alive _ (flush_send_queue-Inv {done = done} _ (ground arith) on))
    | inr off ↦ rw off (ground arith)
  ]

  pub exec-Alive :
      (c : Conn P M) (k : Callback M) (ks : List (Callback M))
      → Inv done c
      → c.posted ≡ k ∷ ks
      → Alive (exec proto (record c { posted = ks }) k)
  unfolding exec
  exec-Alive c (send_message m) ks v e =
      deliver-Alive (record c { posted = ks; pending_send_callbacks = sends ks }) m
        c.pending_send_callbacks (ground arith) (ground arith)
  exec-Alive c close_request ks v e = off-Alive _ (handle_close-off _)
  exec-Alive c run_close_callback ks v e = off-Alive _ (call_close_callback-off _ (ground arith))
  exec-Alive c finish_check ks v e = maybe_finish-Alive {done = done} _ (ground arith)

  pub send_response-Alive :
      (in_loop : Bool) (c : Conn P M) (m : M)
      → Inv done c
      → Alive c
      → Alive (send_response proto in_loop c m)
  unfolding send_response post run_in_loop exec
  send_response-Alive true c m v a =
      deliver-Alive c m (c.pending_send_callbacks + 1) (omega arith) v
  send_response-Alive false c m v a = ground (
    arith,
    sends-append c.posted (send_message m ∷ []),
    checks-append c.posted (send_message m ∷ []),
  )

module _ {P M : Type 0} (proto : Protocol P M) where
  pub close-Alive : (in_loop : Bool) (c : Conn P M) → Alive c → Alive (close proto in_loop c)
  unfolding close post run_in_loop exec
  close-Alive true c a = off-Alive _ (handle_close-off c)
  close-Alive false c a = ground (
    arith,
    sends-append c.posted (close_request ∷ []),
    checks-append c.posted (close_request ∷ []),
  )

  pub post_final-Alive :
      {done : ℕ} (in_loop : Bool) (c : Conn P M)
      → Inv done c
      → Alive c
      → Alive (post_final proto in_loop c)
  unfolding post_final run_in_loop exec post
  post_final-Alive in_loop c v a = elim (Bool-cases (c.finals_due == 0)) [
    | inl e ↦ rw e a
    | inr ne ↦ rw ne (handed in_loop (ground (arith, ne)))
  ]
    where
      handed :
          (in_loop : Bool)
          → is_connected c ≡ false
          → Alive (
              if in_loop
              then call_close_callback (record c { finals_due = c.finals_due - 1 })
              else record c {
                finals_due = c.finals_due - 1;
                posted = c.posted ++ run_close_callback ∷ [];
              })
      handed true off = off-Alive _ (call_close_callback-off _ off)
      handed false off = off-Alive _ off

  pub post_check-Alive :
      {done : ℕ} (in_loop : Bool) (c : Conn P M)
      → Inv done c
      → Alive c
      → Alive (post_check proto in_loop c)
  unfolding post_check run_in_loop exec post
  post_check-Alive {done} in_loop c v a = elim (Bool-cases (c.checks_due == 0)) [
    | inl e ↦ rw e a
    | inr ne ↦ rw ne (handed in_loop)
  ]
    where
      handed :
          (in_loop : Bool)
          → Alive (
              if in_loop
              then maybe_finish (record c { checks_due = c.checks_due - 1 })
              else record c {
                checks_due = c.checks_due - 1;
                posted = c.posted ++ finish_check ∷ [];
              })
      handed true = maybe_finish-Alive {done = done} _ (ground arith)
      handed false = ground (arith, checks-append c.posted (finish_check ∷ []))

module _ {P M : Type 0} where
  complete_connected-Alive :
      (c : Conn P M) (ts : List M)
      → hands_over c.work_callback && c.close_callback ≡ true
      → c.task_running ≡ true
      → Alive (note_todo (complete_connected c ts))
  unfolding complete_connected submit_front note_todo start_front
  complete_connected-Alive c [] wired run = ground arith
  complete_connected-Alive c (t ∷ ts) wired run = ground arith

  complete_closing-Alive :
      (c : Conn P M) → is_connected c ≡ false → Alive (note_todo (complete_closing c))
  unfolding complete_closing drop_tasks note_todo
  complete_closing-Alive c off = ground arith

  pub on_task_complete-Alive :
      {done : ℕ} (c : Conn P M) → Inv done c → c.task_running ≡ true → Alive (on_task_complete c)
  unfolding on_task_complete complete_section
  on_task_complete-Alive c v run = elim (Bool-cases (is_connected c)) [
    | inl on ↦ rw on (complete_connected-Alive c c.pending_tasks v.wired run)
    | inr off ↦ rw off (complete_closing-Alive c off)
  ]
