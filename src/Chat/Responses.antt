-- ===== src/Chat/Responses.antt =====
-- The responses to a message among all that is sent while it is handled.
use echo_net.Base.{
  ℕ, ◌≡◌, refl, ap, ◌∙◌, List, [], ◌∷◌, ◌++◌, Bool, true, false, Option, none, some, Text,
  if◌then◌else◌, ◌⊎◌, inl, inr, map, get_elem?, Bool-cases,
}
use echo_net.Base.Maps.{find}
use echo_net.Room.{Room, broadcast}
use echo_net.Protocol.MyProtocol.Message.{
  Message, MyType, login_req, create_room_req, join_room_req, leave_room_req, send_msg_req,
  heartbeat_req, error_resp, login_resp, create_room_resp, join_room_resp, leave_room_resp,
  send_msg_resp, broadcast_msg, heartbeat_resp, member_count_update,
}
use echo_net.Chat.State.{
  Conn, Session, Chat, Answers, Effect, sent, redis_set_online, redis_del_online, redis_sadd,
  redis_srem, room_inserted, room_deleted, key_removed, Outcome, reply, send_to, send_all, on_redis,
  succeeds, get_room_by_id,
}
use echo_net.Chat.Rooms.{
  broadcast_member_count, check_and_remove_empty_room, count_effects, count_message, is_empty_room,
}

-- What the server sends on its own.
unfoldable pub is_push : MyType → Bool
is_push broadcast_msg = true
is_push member_count_update = true
is_push _ = false

unfoldable pub response_type : MyType → MyType
response_type login_req = login_resp
response_type create_room_req = create_room_resp
response_type join_room_req = join_room_resp
response_type leave_room_req = leave_room_resp
response_type send_msg_req = send_msg_resp
response_type heartbeat_req = heartbeat_resp
response_type _ = error_resp

-- The messages that are not pushed, and to whom they go.
unfoldable pub responses : List Effect → List (Conn × Message)
unfolding is_push
responses [] = []
responses (sent conn m ∷ es) =
    let rest = responses es in if is_push m.type then rest else (conn, m) ∷ rest
responses (redis_set_online u ∷ es) = responses es
responses (redis_del_online u ∷ es) = responses es
responses (redis_sadd r u ∷ es) = responses es
responses (redis_srem r u ∷ es) = responses es
responses (room_inserted r n ∷ es) = responses es
responses (room_deleted r ∷ es) = responses es
responses (key_removed k ∷ es) = responses es

-- All but the counters is as it was.
pub record Kept (c d : Chat) : Type 0 where
  pub sessions : d.sessions ≡ c.sessions
  pub objects : d.objects ≡ c.objects
  pub rooms : d.rooms ≡ c.rooms
  pub next_session_id : d.next_session_id ≡ c.next_session_id
  pub next_room_id : d.next_room_id ≡ c.next_room_id
  pub writer : d.writer ≡ c.writer
  pub active_connections : d.active_connections ≡ c.active_connections

-- There is one response, to the sender, with the id of the request: of the type that belongs to the
-- request, or an error that keeps the state.
pub record IsAnswered (c : Chat) (conn : Conn) (msg : Message) (out : Outcome) : Type 0 where
  pub response : Message
  pub only : responses out.effects ≡ (conn, response) ∷ []
  pub same_id : response.id ≡ msg.id
  pub right_type :
      (response.type ≡ response_type msg.type) ⊎ ((response.type ≡ error_resp) × Kept c out.chat)

responses-append : (es fs : List Effect) → responses (es ++ fs) ≡ responses es ++ responses fs
unfolding responses
responses-append [] fs = refl
responses-append (sent conn m ∷ es) fs = elim (Bool-cases (is_push m.type)) [
  | inl e ↦ rw e (responses-append es fs)
  | inr e ↦ rw e (ap (◌∷◌ (conn, m)) (responses-append es fs))
]
responses-append (redis_set_online u ∷ es) fs = responses-append es fs
responses-append (redis_del_online u ∷ es) fs = responses-append es fs
responses-append (redis_sadd r u ∷ es) fs = responses-append es fs
responses-append (redis_srem r u ∷ es) fs = responses-append es fs
responses-append (room_inserted r n ∷ es) fs = responses-append es fs
responses-append (room_deleted r ∷ es) fs = responses-append es fs
responses-append (key_removed k ∷ es) fs = responses-append es fs

responses-send_to :
    (m : Message) (s : Option Session) → is_push m.type ≡ true → responses (send_to m s) ≡ []
unfolding responses send_to
responses-send_to m none e = refl
responses-send_to m (some s) e = rw e refl

-- A broadcast is no response.
pub responses-send_all :
    (objects : List Session) (ms : List ℕ) (m : Message)
    → is_push m.type ≡ true
    → responses (send_all objects (map (λ o. (o, m)) ms)) ≡ []
unfolding responses send_all
responses-send_all objects [] m e = refl
responses-send_all objects (o ∷ ms) m e =
    responses-append (send_to m (get_elem? objects o)) (send_all objects (map (λ k. (k, m)) ms))
    ∙ rw (responses-send_to m (get_elem? objects o) e) (responses-send_all objects ms m e)

-- Effects that hold no response.
abbrev pub IsSilent : List Effect → Type 0
IsSilent es = responses es ≡ []

-- Silent effects before the response leave it the only one.
pub responses-silent : (es fs : List Effect) → IsSilent es → responses (es ++ fs) ≡ responses fs
responses-silent es fs h = responses-append es fs ∙ ap (◌++ responses fs) h

pub count_effects-IsSilent :
    (objects : List Session) (id : ℕ) (r : Option Room) → IsSilent (count_effects objects id r)
unfolding count_effects broadcast count_message responses
count_effects-IsSilent objects id none = refl
count_effects-IsSilent objects id (some r) =
    responses-send_all objects r.members (count_message id r) refl

pub broadcast_member_count-IsSilent : (c : Chat) (id : ℕ) → IsSilent (broadcast_member_count c id)
unfolding broadcast_member_count
broadcast_member_count-IsSilent c id = count_effects-IsSilent c.objects id (get_room_by_id c id)

pub check_and_remove-IsSilent :
    (a : Answers) (c : Chat) (id : ℕ) → IsSilent (check_and_remove_empty_room a c id).effects
unfolding check_and_remove_empty_room responses
check_and_remove-IsSilent a c id = elim (Bool-cases (is_empty_room (find id c.rooms))) [
  | inl e ↦
      rw e (elim (Bool-cases (succeeds a.delete_room)) [ inl k ↦ rw k refl | inr k ↦ rw k refl ])
  | inr e ↦ rw e refl
]

pub on_redis-IsSilent : (b : Bool) (e : Effect) → IsSilent (e ∷ []) → IsSilent (on_redis b e)
unfolding responses
on_redis-IsSilent true e h = h
on_redis-IsSilent false e h = refl

-- One response after silent effects.
pub responses-reply :
    (es : List Effect) (conn : Conn) (msg : Message) (ty : MyType) (text : Text)
    → IsSilent es
    → is_push ty ≡ false
    → responses (es ++ reply conn msg ty text ∷ [])
      ≡ (conn, record { type = ty; id = msg.id; payload = text }) ∷ []
unfolding responses reply
responses-reply es conn msg ty text h k =
    responses-silent es (reply conn msg ty text ∷ []) h ∙ rw k refl

pub IsSilent-append : (es fs : List Effect) → IsSilent es → IsSilent fs → IsSilent (es ++ fs)
IsSilent-append es fs h k = responses-silent es fs h ∙ k
