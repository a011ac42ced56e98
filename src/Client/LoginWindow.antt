-- ===== src/Client/LoginWindow.antt =====
-- `MainWindow` (QT/loginwindow.cpp): the button, the request, and the answer.
use echo_net.Base.{
  ℕ, suc, ◌+◌, ◌%◌, ◌^◌, List, [], ◌∷◌, ◌++◌, Bool, true, false, ◌||◌, Option, none, some, Text,
  length, if◌then◌else◌, ◌==◌, bytes,
}
use echo_net.Protocol.MyProtocol.Message.{MyType, login_resp, error_resp}
use echo_net.Client.Qt.{Qt}
use echo_net.Client.Packet.{login_packet}
use echo_net.Client.Frames.{frame_loop}

-- The boxes that are shown.
pub data Notice (S : Type 0) : Type 0 where
  empty_fields logged_in wrong_password : Notice S
  server_error network_error : S → Notice S

-- `qtimes` numbers the requests. `connecting` counts the calls of `connectToHost`; `chat_window` is
-- the name that the chat window was made with.
pub record LoginWindow (q : Qt) : Type 0 where
  pub account : q.QString
  pub password : q.QString
  pub is_connected : Bool
  pub if_login_empty : Bool
  pub recv_buf : Text
  pub qtimes : ℕ
  pub connecting : ℕ
  pub listening : Bool
  pub visible : Bool
  pub chat_window : Option q.QString
  pub notices : List (Notice q.QString)
  pub written : List Text

module _ (q : Qt) where
  -- An old connection is closed first.
  unfoldable pub close_old : LoginWindow q → LoginWindow q
  close_old w = if w.is_connected then record w { is_connected = false; recv_buf = [] } else w

  -- `slot_loginBtnClicked`
  unfoldable pub slot_login_btn_clicked : LoginWindow q → LoginWindow q
  unfolding close_old
  slot_login_btn_clicked w =
      if q.size (q.trimmed w.account) == 0 || q.size (q.trimmed w.password) == 0
      then record w { notices = w.notices ++ empty_fields ∷ []; if_login_empty = true }
      else let fresh = close_old w in
        record fresh { if_login_empty = false; connecting = fresh.connecting + 1 }

  -- `username|password`, from the boxes as they are when the connection is made.
  unfoldable pub credentials : LoginWindow q → q.QString
  credentials w =
      q.join (q.join (q.trimmed w.account) (q.from_utf8 (bytes "|"))) (q.trimmed w.password)

  -- `slot_connected`
  unfoldable pub slot_connected : LoginWindow q → LoginWindow q
  unfolding login_packet credentials
  slot_connected w = record w {
    is_connected = true;
    written = w.written ++ login_packet q w.qtimes (credentials w) ∷ [];
    qtimes = (w.qtimes + 1) % 2 ^ 32;
  }

  -- The answer `OK` opens the chat window, and this window reads no more; one that is neither `OK`
  -- nor `FAIL` is passed over.
  unfoldable pub on_login : q.QString → LoginWindow q → LoginWindow q
  on_login res w =
      if q.same res (q.from_utf8 (bytes "OK"))
      then record w {
        notices = w.notices ++ logged_in ∷ [];
        listening = false;
        chat_window = some (q.trimmed w.account);
        visible = false;
      }
      else if q.same res (q.from_utf8 (bytes "FAIL"))
      then record w { notices = w.notices ++ wrong_password ∷ [] }
      else w

  unfoldable pub handle_login_frame : Option MyType → Text → LoginWindow q → LoginWindow q
  unfolding on_login
  handle_login_frame (some login_resp) payload w = on_login (q.trimmed (q.from_utf8 payload)) w
  handle_login_frame (some error_resp) payload w = record w {
    notices = w.notices ++ server_error (q.from_utf8 payload) ∷ [];
  }
  handle_login_frame _ payload w = w

  unfoldable pub with_login_rest : Option (Text × LoginWindow q) → Option (LoginWindow q)
  with_login_rest none = none
  with_login_rest (some (rest, w)) = some (record w { recv_buf = rest })

  -- `slot_readyRead` with `parsePacket`.
  unfoldable pub slot_ready_read : Text → LoginWindow q → Option (LoginWindow q)
  unfolding with_login_rest frame_loop handle_login_frame
  slot_ready_read arrived w =
      let recv_buf = w.recv_buf ++ arrived in
      with_login_rest
        (frame_loop (λ ty p. handle_login_frame ty p) (suc (length recv_buf)) recv_buf w)

  -- `slot_error`
  unfoldable pub slot_error : q.QString → LoginWindow q → LoginWindow q
  slot_error text w = record w { notices = w.notices ++ network_error text ∷ [] }
