-- ===== src/Chat/Delivery.antt =====
-- A message in a room reaches everybody who is in it.
use echo_net.Base.{
  mem-append-left, mem-append-right, ℕ, ◌+◌, ◌^◌, ◌<◌, ◌≡◌, refl, sym, ap, subst, ◌∙◌, List, [],
  ◌∷◌, true, false, Option, none, some, arith, length, Bool-cases, inl, inr, ◌==◌, ==_iff, map,
  get_elem?,
}
use mathlib.Core.List.{Memᴰ}
use mathlib.Core.List.Memᴰ.{head}
use echo_net.Base.Maps.{find}
use echo_net.Room.{Room, has_member, broadcast}
use echo_net.Protocol.MyProtocol.Message.{Message, MyType, send_msg_req}
use echo_net.Chat.State.{
  Conn, Session, Chat, Answers, sent, Outcome, get_session_by_fd, get_session_by_conn,
  get_room_by_id, send_to, send_all, next_64,
}
use echo_net.Chat.Login.{with_session}
use echo_net.Chat.Talk.{talk_message, talk_in, send_message, handle_send_message}
use echo_net.Chat.Service.{handle_message, dispatch, is_limited, new_chat}
use echo_net.Chat.Consistent.{is_in_room}
use echo_net.Chat.History.{Event, run, run-IsSound, new_chat-IsSound}

send_all-mem :
    (objects : List Session) (m : Message) (ms : List ℕ) (o : ℕ) (s : Session)
    → has_member ms o ≡ true
    → get_elem? objects o ≡ some s
    → Memᴰ (sent s.connection m) (send_all objects (map (λ k. (k, m)) ms))
unfolding has_member send_all send_to
send_all-mem objects m [] o s h e = absurd (ground arith)
send_all-mem objects m (k ∷ ms) o s h e = elim (Bool-cases (k == o)) [
  | inl same ↦ rw (ap (get_elem? objects) ((==_iff k o).0 same) ∙ e) (head refl)
  | inr differ ↦
      mem-append-right _ (send_to m (get_elem? objects k)) _
        (send_all-mem objects m ms o s (ground (arith, h, differ)) e)
]

talk_in-reaches :
    (conn : Conn) (msg : Message) (c : Chat) (s t : Session) (o : ℕ) (r : Option Room)
    → is_in_room o r ≡ true
    → get_elem? c.objects o ≡ some t
    → Memᴰ (sent t.connection (talk_message s msg.payload)) (talk_in conn msg c s r).effects
unfolding talk_in broadcast
talk_in-reaches conn msg c s t o none h e = absurd (ground arith)
talk_in-reaches conn msg c s t o (some r) h e =
    mem-append-left _ _ _ (send_all-mem c.objects (talk_message s msg.payload) r.members o t h e)

talks :
    (conn : Conn) (msg : Message) (c : Chat) (s t : Session) (o p : ℕ)
    → get_session_by_conn c conn ≡ some (o, s)
    → (s.room_id == 0) ≡ false
    → is_in_room p (find s.room_id c.rooms) ≡ true
    → get_elem? c.objects p ≡ some t
    → Memᴰ (sent t.connection (talk_message s msg.payload)) (handle_send_message conn msg c).effects
unfolding handle_send_message send_message with_session get_room_by_id
talks conn msg c s t o p here in_room inside object =
    rw (here, in_room) (talk_in-reaches conn msg c s t p (find s.room_id c.rooms) inside object)

dispatch-send :
    (a : Answers) (conn : Conn) (msg : Message) (c : Chat) (ty : MyType)
    → ty ≡ send_msg_req
    → dispatch a conn msg c ty ≡ handle_send_message conn msg c
unfolding dispatch
dispatch-send a conn msg c ty e = rw e refl

handle_message-send :
    (a : Answers) (conn : Conn) (msg : Message) (c : Chat)
    → is_limited a conn msg c ≡ false
    → msg.type ≡ send_msg_req
    → handle_message a conn msg c
      ≡ handle_send_message conn msg (record c { total_requests = next_64 c.total_requests })
unfolding handle_message
handle_message-send a conn msg c free ty =
    rw free (
      dispatch-send a conn msg (record c { total_requests = next_64 c.total_requests }) msg.type ty)

-- In any history of a new service in which the ids of the rooms do not wrap around, a message that
-- no limit stops and that comes from a session in a room is sent to the connection of every session
-- of the table that is in this room.
pub message_reaches_room :
    (first : ℕ) (es : List Event) (a : Answers) (conn : Conn) (msg : Message) (o fd p : ℕ)
    (s t : Session)
    → 0 < first
    → first + length es < 2 ^ 32
    → msg.type ≡ send_msg_req
    → is_limited a conn msg (run (record new_chat { next_room_id = first }) es) ≡ false
    → get_session_by_conn (run (record new_chat { next_room_id = first }) es) conn ≡ some (o, s)
    → (s.room_id == 0) ≡ false
    → find fd (run (record new_chat { next_room_id = first }) es).sessions ≡ some p
    → get_elem? (run (record new_chat { next_room_id = first }) es).objects p ≡ some t
    → t.room_id ≡ s.room_id
    → Memᴰ
        (sent t.connection (talk_message s msg.payload))
        (handle_message a conn msg (run (record new_chat { next_room_id = first }) es)).effects
unfolding get_session_by_conn get_session_by_fd
message_reaches_room first es a conn msg o fd p s t pos small ty free here in_room live object
      same =
    let c = run (record new_chat { next_room_id = first }) es in
    let sound =
      run-IsSound (record new_chat { next_room_id = first }) es small
        (new_chat-IsSound first pos) in
    let counted : Chat = record c { total_requests = next_64 c.total_requests } in
    let inside =
      subst (λ id. is_in_room p (find id c.rooms) ≡ true) same
        (sound.inside fd p t live object (ap (λ id. id == 0) same ∙ in_room)) in
    subst (λ (out : Outcome). Memᴰ (sent t.connection (talk_message s msg.payload)) out.effects)
      (sym (handle_message-send a conn msg c free ty))
      (talks conn msg counted s t o p here in_room inside object)
