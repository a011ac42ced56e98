-- ===== src/Net/Connection/Events/Inv.antt =====
-- The invariant of a connection between two events, and that closing keeps it.
use echo_net.Base.{
  ℕ, suc, ◌+◌, ◌≡◌, List, [], ◌∷◌, Bool, true, false, ◌&&◌, not, arith, length, length-append,
}
use echo_net.Net.Buffer.{Buffer, readable}
use echo_net.Net.Buffer.Bounds.{IsValid, advance-IsValid, new_buffer-IsValid}
use echo_net.Net.Connection.State.{
  Conn, Callback, send_message, run_close_callback, finish_check, is_connected, new_conn,
  hands_over,
}
use echo_net.Net.Connection.Close.{discard_all, call_close_callback, handle_close, maybe_finish}

abbrev pub bit : Bool → ℕ
bit true = 1
bit false = 0

-- How many callbacks of each kind wait.
module _ {M : Type 0} where
  abbrev pub sends : List (Callback M) → ℕ
  sends [] = 0
  sends (send_message m ∷ ks) = suc (sends ks)
  sends (_ ∷ ks) = sends ks

  abbrev pub finals : List (Callback M) → ℕ
  finals [] = 0
  finals (run_close_callback ∷ ks) = suc (finals ks)
  finals (_ ∷ ks) = finals ks

  abbrev pub checks : List (Callback M) → ℕ
  checks [] = 0
  checks (finish_check ∷ ks) = suc (checks ks)
  checks (_ ∷ ks) = checks ks

-- `flight`: of the tasks handed to the workers, `done` have ended and one at most is running.
-- `budget`: while the connection is connected the close callback has not run and is not due; after
-- that it has run, or waits in the event loop, or a completion has claimed it, or it is due when the
-- running task ends: one of the four. `wired`: tasks are handed over to workers.
pub record Inv {P M : Type 0} (done : ℕ) (c : Conn P M) : Type 0 where
  pub in_valid : IsValid c.in_buffer
  pub out_valid : IsValid c.out_buffer
  pub wired : hands_over c.work_callback && c.close_callback ≡ true
  pub queue : c.task_running ≡ false → c.pending_tasks ≡ []
  pub flight : length c.submitted ≡ done + bit c.task_running
  pub counted : c.pending_send_callbacks ≡ sends c.posted
  pub flushed : c.send_queue ≡ []
  pub claimed : c.close_callback_pending ≡ true → c.task_running ≡ true
  pub budget :
      length c.notices + finals c.posted + c.finals_due + bit c.close_callback_pending
      ≡ bit (not (is_connected c))

pub discard_all-IsValid : (b : Buffer) → IsValid b → IsValid (discard_all b)
unfolding discard_all
discard_all-IsValid b v = advance-IsValid b (readable b) v (omega arith)

module _ {P M : Type 0} {done : ℕ} where
  pub handle_close-Inv : (c : Conn P M) → Inv done c → Inv done (handle_close c)
  unfolding handle_close
  handle_close-Inv c v = ground (
    arith,
    discard_all-IsValid c.in_buffer,
    discard_all-IsValid c.out_buffer,
    length-append c.notices (c.afd ∷ []),
  )

  pub maybe_finish-Inv : (c : Conn P M) → Inv done c → Inv done (maybe_finish c)
  unfolding maybe_finish
  maybe_finish-Inv c v = ground (arith, handle_close-Inv c v)

  -- A close callback that has come due is no longer counted by the other two terms.
  pub call_close_callback-Inv :
      (c : Conn P M) (ks : List (Callback M))
      → Inv done c
      → c.posted ≡ run_close_callback ∷ ks
      → Inv done (call_close_callback (record c { posted = ks }))
  unfolding call_close_callback
  call_close_callback-Inv c ks v e = ground (arith, length-append c.notices (c.afd ∷ []))

module _ {P M : Type 0} where
  pub new_conn-Inv : (fd : ℕ) (p : P) (now : ℕ) → Inv 0 (new_conn {M = M} fd p now)
  unfolding new_conn
  new_conn-Inv fd p now = ground (arith, new_buffer-IsValid)
