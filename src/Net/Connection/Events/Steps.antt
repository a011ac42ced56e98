-- ===== src/Net/Connection/Events/Steps.antt =====
-- Every event keeps the invariant of a connection.
use echo_net.Base.{
  ◌-◌, ◌<◌, ◌==◌, if◌then◌else◌, ℕ, suc, ◌+◌, ◌≡◌, refl, inl, inr, List, [], ◌∷◌, ◌++◌, Bool, true,
  false, arith, length-append, Bool-cases,
}
use echo_net.Net.Buffer.{Buffer, buffer_append}
use echo_net.Net.Buffer.Bounds.{IsValid, buffer_append-IsValid}
use echo_net.Net.Connection.State.{
  Protocol, Conn, Callback, send_message, close_request, run_close_callback, finish_check,
  is_connected,
}
use echo_net.Net.Connection.Close.{call_close_callback, maybe_finish}
use echo_net.Net.Connection.Tasks.{
  enqueue_task, submit_front, start_front, drop_tasks, complete_section, complete_connected,
  complete_closing,
}
use echo_net.Net.Connection.Send.{
  append_all, after_merge, flush_send_queue, post, deliver, exec, run_in_loop, send_response, close,
  post_final, post_check, note_todo, on_task_complete,
}
use echo_net.Net.Connection.Events.Inv.{
  Inv, sends, finals, handle_close-Inv, maybe_finish-Inv, call_close_callback-Inv,
}

pub append_all-IsValid : (b : Buffer) (ms : List (List ℕ)) → IsValid b → IsValid (append_all b ms)
unfolding append_all
append_all-IsValid b [] v = v
append_all-IsValid b (m ∷ ms) v =
    append_all-IsValid (buffer_append b m) ms (buffer_append-IsValid b m v)

module _ {M : Type 0} where
  pub sends-append : (ks js : List (Callback M)) → sends (ks ++ js) ≡ sends ks + sends js
  sends-append [] js = omega arith
  sends-append (send_message m ∷ ks) js = omega (arith, sends-append ks js)
  sends-append (close_request ∷ ks) js = sends-append ks js
  sends-append (run_close_callback ∷ ks) js = sends-append ks js
  sends-append (finish_check ∷ ks) js = sends-append ks js

  pub finals-append : (ks js : List (Callback M)) → finals (ks ++ js) ≡ finals ks + finals js
  finals-append [] js = omega arith
  finals-append (send_message m ∷ ks) js = finals-append ks js
  finals-append (close_request ∷ ks) js = finals-append ks js
  finals-append (run_close_callback ∷ ks) js = omega (arith, finals-append ks js)
  finals-append (finish_check ∷ ks) js = finals-append ks js

module _ {P M : Type 0} {done : ℕ} where
  after_merge-Inv : (c : Conn P M) → Inv done c → Inv done (after_merge c)
  unfolding after_merge
  after_merge-Inv c v = ground (arith, handle_close-Inv c v)

  pub flush_send_queue-Inv :
      (c : Conn P M)
      → Inv done (record c { send_queue = [] })
      → is_connected c ≡ true
      → Inv done (flush_send_queue c)
  unfolding flush_send_queue
  flush_send_queue-Inv c v e =
      rw e (
        after_merge-Inv _
          (ground (arith, append_all-IsValid c.out_buffer c.send_queue v.out_valid)))

  pub enqueue_task-Inv :
      (c : Conn P M) (t : M) → Inv done c → is_connected c ≡ true → Inv done (enqueue_task c t)
  unfolding enqueue_task submit_front start_front
  enqueue_task-Inv c t v e = ground (arith, length-append c.submitted (t ∷ []))

module _ {P M : Type 0} {done : ℕ} (proto : Protocol P M) where
  deliver-Inv :
      (c : Conn P M) (m : M) (n : ℕ)
      → n ≡ suc c.pending_send_callbacks
      → Inv done c
      → Inv done (deliver proto (record c { pending_send_callbacks = n }) m)
  unfolding deliver
  deliver-Inv c m n e v = elim (Bool-cases (is_connected c)) [
    | inl on ↦ rw on (maybe_finish-Inv _ (flush_send_queue-Inv _ (ground arith) on))
    | inr off ↦ rw off (ground arith)
  ]

  -- The first callback has left the queue, and runs.
  pub exec-Inv :
      (c : Conn P M) (k : Callback M) (ks : List (Callback M))
      → Inv done c
      → c.posted ≡ k ∷ ks
      → Inv done (exec proto (record c { posted = ks }) k)
  unfolding exec
  exec-Inv c (send_message m) ks v e =
      deliver-Inv (record c { posted = ks; pending_send_callbacks = sends ks }) m
        c.pending_send_callbacks (ground arith) (ground arith)
  exec-Inv c close_request ks v e = handle_close-Inv _ (ground arith)
  exec-Inv c run_close_callback ks v e = call_close_callback-Inv c ks v e
  exec-Inv c finish_check ks v e = maybe_finish-Inv _ (ground arith)

  pub send_response-Inv :
      (in_loop : Bool) (c : Conn P M) (m : M)
      → Inv done c
      → Inv done (send_response proto in_loop c m)
  unfolding send_response post run_in_loop exec
  send_response-Inv true c m v = deliver-Inv c m (c.pending_send_callbacks + 1) (omega arith) v
  send_response-Inv false c m v = ground (
    arith,
    sends-append c.posted (send_message m ∷ []),
    finals-append c.posted (send_message m ∷ []),
  )

  pub close-Inv : (in_loop : Bool) (c : Conn P M) → Inv done c → Inv done (close proto in_loop c)
  unfolding close post run_in_loop exec
  close-Inv true c v = handle_close-Inv c v
  close-Inv false c v = ground (
    arith,
    sends-append c.posted (close_request ∷ []),
    finals-append c.posted (close_request ∷ []),
  )

  -- A completion hands over what it still had to do: its close callback, or its check.
  pub post_final-Inv :
      (in_loop : Bool) (c : Conn P M) → Inv done c → Inv done (post_final proto in_loop c)
  unfolding post_final run_in_loop exec post
  post_final-Inv in_loop c v = elim (Bool-cases (c.finals_due == 0)) [
    | inl e ↦ rw e v
    | inr ne ↦ rw ne (handed in_loop (ground (arith, ne)))
  ]
    where
      handed :
          (in_loop : Bool)
          → 0 < c.finals_due
          → Inv done (
              if in_loop
              then call_close_callback (record c { finals_due = c.finals_due - 1 })
              else record c {
                finals_due = c.finals_due - 1;
                posted = c.posted ++ run_close_callback ∷ [];
              })
      handed true h =
          call_close_callback-Inv
            (record c { finals_due = c.finals_due - 1; posted = run_close_callback ∷ c.posted })
            c.posted (ground (arith, h)) refl
      handed false h = ground (
        arith,
        h,
        sends-append c.posted (run_close_callback ∷ []),
        finals-append c.posted (run_close_callback ∷ []),
      )

  pub post_check-Inv :
      (in_loop : Bool) (c : Conn P M) → Inv done c → Inv done (post_check proto in_loop c)
  unfolding post_check run_in_loop exec post
  post_check-Inv in_loop c v = elim (Bool-cases (c.checks_due == 0)) [
    | inl e ↦ rw e v
    | inr ne ↦ rw ne (handed in_loop)
  ]
    where
      handed :
          (in_loop : Bool)
          → Inv done (
              if in_loop
              then maybe_finish (record c { checks_due = c.checks_due - 1 })
              else record c {
                checks_due = c.checks_due - 1;
                posted = c.posted ++ finish_check ∷ [];
              })
      handed true = maybe_finish-Inv _ (ground arith)
      handed false = ground (
        arith,
        sends-append c.posted (finish_check ∷ []),
        finals-append c.posted (finish_check ∷ []),
      )

module _ {P M : Type 0} {done : ℕ} where
  complete_connected-Inv :
      (c : Conn P M) (ts : List M)
      → Inv done c
      → c.task_running ≡ true
      → is_connected c ≡ true
      → c.pending_tasks ≡ ts
      → Inv (suc done) (note_todo (complete_connected c ts))
  unfolding complete_connected submit_front note_todo start_front
  complete_connected-Inv c [] v run on e = ground arith
  complete_connected-Inv c (t ∷ ts) v run on e = ground (arith, length-append c.submitted (t ∷ []))

  complete_closing-Inv :
      (c : Conn P M)
      → Inv done c
      → c.task_running ≡ true
      → is_connected c ≡ false
      → Inv (suc done) (note_todo (complete_closing c))
  unfolding complete_closing drop_tasks note_todo
  complete_closing-Inv c v run off = ground arith

  pub on_task_complete-Inv :
      (c : Conn P M) → Inv done c → c.task_running ≡ true → Inv (suc done) (on_task_complete c)
  unfolding on_task_complete complete_section
  on_task_complete-Inv c v run = elim (Bool-cases (is_connected c)) [
    | inl on ↦ rw on (complete_connected-Inv c c.pending_tasks v run on refl)
    | inr off ↦ rw off (complete_closing-Inv c v run off)
  ]
