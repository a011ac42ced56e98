-- ===== src/Client/Answer.antt =====
-- What the server answers to the login request of the client.
use echo_net.Base.{
  ℕ, suc, ◌+◌, ◌≡◌, refl, ap, ◌∙◌, [], ◌∷◌, ◌++◌, Bool, true, false, some, Text, arith, length,
  take, drop, bytes, find_byte, if◌then◌else◌, ◌==◌, not, Bool-cases, inl, inr,
}
use echo_net.Protocol.MyProtocol.Message.{Message, login_req, login_resp}
use echo_net.Chat.State.{Conn, Chat, Answers, reply, on_redis, redis_set_online}
use echo_net.Chat.Login.{handle_login, login_at, add_session, is_valid}
use echo_net.Chat.Responses.{responses, responses-reply, on_redis-IsSilent, is_push}
use echo_net.Client.Texts.{has_no_bar}
use echo_net.Client.Rooms.{response}

find_bar : (s t : Text) → has_no_bar s ≡ true → find_byte 124 (s ++ 124 ∷ t) ≡ some (length s)
unfolding find_byte has_no_bar
find_bar [] t h = refl
find_bar (c ∷ s) t h = elim (Bool-cases (c == 124)) [
  | inl e ↦ absurd (ground (arith, e, h))
  | inr e ↦ rw (e, find_bar s t (ground (arith, h))) (ap some (omega arith))
]

drop_bar : (s t : Text) → drop (length s + 1) (s ++ 124 ∷ t) ≡ t
drop_bar [] t = refl
drop_bar (c ∷ s) t = ap (λ k. drop k (c ∷ s ++ 124 ∷ t)) (shift (length s)) ∙ drop_bar s t
  where
    shift : (n : ℕ) → suc n + 1 ≡ suc (n + 1)
    shift n = omega arith

-- The request of the window with account and password.
abbrev pub login_request : ℕ → Text → Text → Message
login_request id account password = record {
  type = login_req;
  id = id;
  payload = account ++ 124 ∷ password;
}

-- What the server answers, by whether the password is that of the account.
abbrev pub verdict : Bool → Text
verdict b = if b then bytes "OK" else bytes "FAIL"

answered_by :
    (a : Answers) (conn : Conn) (msg : Message) (name : Text) (c : Chat) (u v b : Bool)
    → u ≡ true
    → v ≡ b
    → responses
        (if not u
          then record {
            chat = c;
            effects = reply conn msg login_resp (bytes "sql conecction fail") ∷ [];
          }
          else if v
          then add_session a conn msg name c
          else record { chat = c; effects = reply conn msg login_resp (bytes "FAIL") ∷ [] }).effects
      ≡ (conn, response msg login_resp (verdict b)) ∷ []
unfolding add_session reply responses is_push
answered_by a conn msg name c u v true up e =
    rw (up, e)
      (responses-reply (on_redis a.redis (redis_set_online c.next_session_id)) conn msg login_resp
        (bytes "OK") (on_redis-IsSilent a.redis (redis_set_online c.next_session_id) refl) refl)
answered_by a conn msg name c u v false up e = rw (up, e) refl

answered_at :
    (a : Answers) (conn : Conn) (msg : Message) (c : Chat) (pos : ℕ) (b : Bool)
    → a.select_user.connected ≡ true
    → is_valid a (drop (pos + 1) msg.payload) ≡ b
    → responses (login_at a conn msg c (some pos)).effects
      ≡ (conn, response msg login_resp (verdict b)) ∷ []
unfolding login_at
answered_at a conn msg c pos b up valid =
    answered_by a conn msg (take pos msg.payload) c a.select_user.connected
      (is_valid a (drop (pos + 1) msg.payload)) b up valid

pub login_response :
    (a : Answers) (conn : Conn) (id : ℕ) (c : Chat) (account password : Text) (b : Bool)
    → has_no_bar account ≡ true
    → a.select_user.connected ≡ true
    → is_valid a password ≡ b
    → responses (handle_login a conn (login_request id account password) c).effects
      ≡ (conn, response (login_request id account password) login_resp (verdict b)) ∷ []
unfolding handle_login
login_response a conn id c account password b bar up valid =
    let msg = login_request id account password in
    ap (λ o. responses (login_at a conn msg c o).effects) (find_bar account password bar)
    ∙ answered_at a conn msg c (length account) b up
        (ap (is_valid a) (drop_bar account password) ∙ valid)
