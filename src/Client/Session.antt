-- ===== src/Client/Session.antt =====
-- A login, from the boxes of the login window through the server's handler to the chat window.
use echo_net.Base.{
  ℕ, suc, ◌+◌, ◌%◌, ◌^◌, ◌<◌, ◌≡◌, refl, sym, ap, ◌∙◌, [], ◌∷◌, ◌++◌, Bool, true, false, some,
  Option, Text, arith, length, bytes, append_assoc, append-nil, same_text, same_text_refl,
  same_text-eq, false_of_ne_true, ◌↔◌,
}
use echo_net.Protocol.MyProtocol.Message.{
  Message, MyType, encode, encode_message, login_req, login_resp, is_valid_msg_type, type_code,
}
use echo_net.Protocol.MyProtocol.Bytes.{bytes_16, bytes_32}
use echo_net.Protocol.MyProtocol.Frames.{spec}
use echo_net.Protocol.MyProtocol.RoundTrip.{Fits, length-encode}
use echo_net.Protocol.MyProtocol.Stream.{encode_all}
use echo_net.Chat.State.{Conn, Chat, Answers, Statement, succeeds}
use echo_net.Chat.Login.{handle_login, is_valid}
use echo_net.Chat.Responses.{responses}
use echo_net.Client.Qt.{Qt, Laws, is_ascii, has_no_blank}
use echo_net.Client.Texts.{has_no_bar, is_ascii-append}
use echo_net.Client.Packet.{login_packet}
use echo_net.Client.Frames.{frame_loop, handle_all, frame_loop-encode_all}
use echo_net.Client.LoginWindow.{
  LoginWindow, logged_in, wrong_password, credentials, slot_connected, on_login, handle_login_frame,
  slot_ready_read, with_login_rest,
}
use echo_net.Client.Rooms.{response}
use echo_net.Client.Answer.{login_request, verdict, login_response}

-- What the window does with the answer.
abbrev pub answered : (q : Qt) → Bool → LoginWindow q → LoginWindow q
answered q true w = record w {
  recv_buf = [];
  notices = w.notices ++ logged_in ∷ [];
  listening = false;
  chat_window = some (q.trimmed w.account);
  visible = false;
}
answered q false w = record w { recv_buf = []; notices = w.notices ++ wrong_password ∷ [] }

-- Every call that the server makes for a statement succeeds.
abbrev pub AllSucceeds : Statement → Type 0
AllSucceeds s =
    (s.connected ≡ true)
    × (s.init ≡ true)
    × (s.prepare ≡ true)
    × (s.bind_param ≡ true)
    × (s.execute ≡ true)

-- The password check of the server is equality with the password that the table holds.
checked :
    (a : Answers) (password stored : Text) (b : Bool)
    → AllSucceeds a.select_user
    → a.bind_result ≡ true
    → a.password ≡ some stored
    → (b ≡ true) ↔ (password ≡ stored)
    → is_valid a password ≡ b
unfolding is_valid succeeds
checked a password stored b (e0, e1, e2, e3, e4) bound held same =
    simp (e0, e1, e2, e3, e4, bound, held) (agree b same)
  where
    agree : (b : Bool) → (b ≡ true) ↔ (password ≡ stored) → same_text password stored ≡ b
    agree true s = ap (same_text password) (sym (s.0 refl)) ∙ same_text_refl password
    agree false s =
        false_of_ne_true (same_text password stored)
          λ e. absurd (ground (arith, s.1 (same_text-eq password stored e)))

module _ (q : Qt) (laws : Laws q) where
  as_frame :
      (id : ℕ) (t : Text)
      → is_ascii t ≡ true
      → login_packet q id (q.from_utf8 t)
        ≡ encode (record { type = login_req; id = id; payload = t })
  unfolding login_packet encode encode_message
  as_frame id t ascii =
      let front = λ (n : ℕ) (u : Text).
        bytes_32 (n % 2 ^ 32) ++ (bytes_16 (type_code login_req) ++ (bytes_32 id ++ u)) in
      ap (λ u. front (q.size (q.from_utf8 t) + 6) u) (laws.to_utf8-from_utf8 t ascii)
      ∙ ap (λ n. front n t) (omega (arith, laws.size-from_utf8 t ascii))

  -- The packet is the frame of the request.
  asks :
      (id : ℕ) (w : LoginWindow q) (account password : Text)
      → is_ascii account ≡ true
      → is_ascii password ≡ true
      → q.trimmed w.account ≡ q.from_utf8 account
      → q.trimmed w.password ≡ q.from_utf8 password
      → login_packet q id (credentials q w) ≡ encode (login_request id account password)
  unfolding login_packet credentials encode encode_message is_ascii
  asks id w account password as_ok ps_ok account_box password_box =
      let front = is_ascii-append account (bytes "|") as_ok refl in
      let text = account ++ bytes "|" ++ password in
      let ascii = is_ascii-append (account ++ bytes "|") password front ps_ok in
      let joined : credentials q w ≡ q.from_utf8 text =
        ap (λ x. q.join (q.join x (q.from_utf8 (bytes "|"))) (q.trimmed w.password)) account_box
        ∙ ap (λ y. q.join (q.join (q.from_utf8 account) (q.from_utf8 (bytes "|"))) y) password_box
        ∙ ap (λ z. q.join z (q.from_utf8 password))
            (laws.join-from_utf8 account (bytes "|") as_ok refl)
        ∙ laws.join-from_utf8 (account ++ bytes "|") password front ps_ok in
      let whole : text ≡ account ++ 124 ∷ password = append_assoc account (bytes "|") password in
      ap (login_packet q id) joined
      ∙ as_frame id text ascii
      ∙ ap (λ t. encode (record { type = login_req; id = id; payload = t })) whole

  same_as :
      (s t : Text)
      → is_ascii s ≡ true
      → is_ascii t ≡ true
      → has_no_blank s ≡ true
      → q.same (q.trimmed (q.from_utf8 s)) (q.from_utf8 t) ≡ same_text s t
  same_as s t h k blank =
      ap (λ r. q.same r (q.from_utf8 t)) (laws.trimmed-from_utf8 s h blank)
      ∙ laws.same-from_utf8 s t h k

  abbrev emptied : LoginWindow q → LoginWindow q
  emptied w = record w { recv_buf = [] }

  on_verdict :
      (w : LoginWindow q) (b : Bool)
      → emptied (on_login q (q.trimmed (q.from_utf8 (verdict b))) w) ≡ answered q b w
  unfolding on_login is_ascii has_no_blank same_text
  on_verdict w true = rw (same_as (bytes "OK") (bytes "OK") refl refl refl) refl
  on_verdict w false =
      rw
        (
          same_as (bytes "FAIL") (bytes "OK") refl refl refl,
          same_as (bytes "FAIL") (bytes "FAIL") refl refl refl,
        )
        refl

  size : (m : Message) → Fits m → length (encode_all (m ∷ []) ++ []) < 2 ^ 32
  size m fits = omega (
    arith,
    fits.small,
    length-encode m,
    ap length (append-nil (encode m)),
    ap length (append-nil (encode m ++ [])),
  )

  verdict-Fits :
      (id : ℕ) (b : Bool)
      → id < 2 ^ 32
      → Fits (record { type = login_resp; id = id; payload = verdict b })
  unfolding is_valid_msg_type type_code
  verdict-Fits id true h = record { small = omega arith; word = h; known = refl }
  verdict-Fits id false h = record { small = omega arith; word = h; known = refl }

  reads_answer :
      (w : LoginWindow q) (id : ℕ) (b : Bool)
      → id < 2 ^ 32
      → w.recv_buf ≡ []
      → slot_ready_read q (encode (record { type = login_resp; id = id; payload = verdict b })) w
        ≡ some (answered q b w)
  unfolding slot_ready_read with_login_rest handle_login_frame handle_all spec
  reads_answer w id b word e =
      let m : Message = record { type = login_resp; id = id; payload = verdict b } in
      let fits = verdict-Fits id b word in
      let handler = λ (ty : Option MyType) (p : Text). handle_login_frame q ty p in
      let stream : w.recv_buf ++ encode m ≡ encode_all (m ∷ []) ++ [] =
        ap (◌++ encode m) e ∙ sym (append-nil (encode m)) ∙ sym (append-nil (encode m ++ [])) in
      ap (λ t. with_login_rest q (frame_loop handler (suc (length t)) t w)) stream
      ∙ ap (with_login_rest q) (
          frame_loop-encode_all handler (m ∷ []) [] (suc (length (encode_all (m ∷ []) ++ []))) w
            (fits, tt) refl (omega arith) (size m fits))
      ∙ ap some (on_verdict w b)

  -- Where the boxes hold, but for blanks around them, an account and a password that are ASCII, the
  -- account has no `|`, every call of the query succeeds and it finds a stored password, the number of
  -- the request is below `2 ^ 32`, and no bytes wait at the window: the window, once connected, writes
  -- the frame of a login request, the server answers it once, with OK exactly where the password given
  -- is the stored one, and the window that reads the answer opens the chat window under the name of the
  -- account, or shows that the password is wrong.
  pub login_answered :
      (w : LoginWindow q) (account password stored : Text) (a : Answers) (conn : Conn) (c : Chat)
      (b : Bool)
      → is_ascii account ≡ true
      → is_ascii password ≡ true
      → has_no_bar account ≡ true
      → q.trimmed w.account ≡ q.from_utf8 account
      → q.trimmed w.password ≡ q.from_utf8 password
      → w.qtimes < 2 ^ 32
      → w.recv_buf ≡ []
      → AllSucceeds a.select_user
      → a.bind_result ≡ true
      → a.password ≡ some stored
      → (b ≡ true) ↔ (password ≡ stored)
      → let asked = slot_connected q w in
        let msg = login_request w.qtimes account password in
        let answer = response msg login_resp (verdict b) in
        (asked.written ≡ w.written ++ encode msg ∷ [])
        × (responses (handle_login a conn msg c).effects ≡ (conn, answer) ∷ [])
        × (slot_ready_read q (encode answer) asked ≡ some (answered q b asked))
  unfolding slot_connected
  login_answered w account password stored a conn c b as_ok ps_ok bar account_box password_box word
        e up bound held same =
      (
        ap (λ p. w.written ++ p ∷ [])
            (asks w.qtimes w account password as_ok ps_ok account_box password_box),
        login_response a conn w.qtimes c account password b bar up.0
            (checked a password stored b up bound held same),
        reads_answer (slot_connected q w) w.qtimes b word e,
      )
