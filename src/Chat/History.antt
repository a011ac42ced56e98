-- ===== src/Chat/History.antt =====
-- Any sequence of messages, closed connections and steps of the writer, and what it keeps.
use echo_net.Base.{ℕ, ◌+◌, ◌^◌, ◌≤◌, ◌<◌, ◌≡◌, refl, List, [], ◌∷◌, true, arith, length, inl, inr}
use echo_net.Base.Maps.{find}
use echo_net.Protocol.MyProtocol.Message.{Message}
use echo_net.Chat.Writer.{take_batch}
use echo_net.Chat.State.{Conn, Chat, Answers, next_64}
use echo_net.Chat.Login.{add_session}
use echo_net.Chat.Service.{handle_message, on_connection_closed, new_chat}
use echo_net.Chat.Consistent.{IsSound}
use echo_net.Chat.Consistent.Handlers.{
  moved-IsConsistent, added-IsConsistent, closed-IsConsistent, counted-IsConsistent,
  created-IsConsistent,
}
use echo_net.Chat.Changes.{Change, kept, added, numbered, created, moved, talked, refused, closed}
use echo_net.Chat.Changes.Handlers.{handle_message-Change}
use echo_net.Chat.Changes.Closing.{on_connection_closed-Change}

-- `locked` is the part of a round of the writer that takes a batch, `stopping` the destructor.
pub data Event : Type 0 where
  received : Answers → Conn → Message → Event
  ended : Answers → ℕ → Event
  locked stopping : Event

unfoldable pub step : Chat → Event → Chat
unfolding handle_message on_connection_closed take_batch
step c (received a conn msg) = (handle_message a conn msg c).chat
step c (ended a fd) = (on_connection_closed a fd c).chat
step c locked = record c { writer = (take_batch c.writer []).writer }
step c stopping = record c { writer = record c.writer { db_writer_stop = true } }

unfoldable pub run : Chat → List Event → Chat
unfolding step
run c [] = c
run c (e ∷ es) = run (step c e) es

-- From `P` before an event to `Q` after it, where a change leads from one to the other.
module _ (P Q : Chat → Type 0) where
  pub step-case :
      (c : Chat) (e : Event)
      → ((x y : Chat) → x.next_room_id ≡ c.next_room_id → Change x y → P x → Q y)
      → (P c → P (record c { total_requests = next_64 c.total_requests }))
      → (P c → Q (record c { writer = (take_batch c.writer []).writer }))
      → (P c → Q (record c { writer = record c.writer { db_writer_stop = true } }))
      → P c
      → Q (step c e)
  unfolding step
  step-case c (received a conn msg) h count lock stop p =
      elim (handle_message-Change a conn msg c) [
        | inl k ↦ h c _ refl k p
        | inr k ↦ h (record c { total_requests = next_64 c.total_requests }) _ refl k (count p)
      ]
  step-case c (ended a fd) h count lock stop p = h c _ refl (on_connection_closed-Change a fd c) p
  step-case c locked h count lock stop p = lock p
  step-case c stopping h count lock stop p = stop p

Change-IsSound : {c d : Chat} → Change c d → c.next_room_id + 1 < 2 ^ 32 → IsSound c → IsSound d
unfolding add_session
Change-IsSound {c} kept l h = h
Change-IsSound {c} (added a conn msg name) l h =
    added-IsConsistent c.sessions c.objects c.rooms c.next_room_id conn.fd
      (record { connection = conn; user_id = c.next_session_id; user_name = name; room_id = 0 })
      refl h
Change-IsSound {c} numbered l h =
    counted-IsConsistent c.sessions c.objects c.rooms c.next_room_id l h
Change-IsSound {c} (created o s name) l h =
    created-IsConsistent c.sessions c.objects c.rooms c.next_room_id o s name l h
Change-IsSound {c} (moved o r s rooms k e) l h =
    moved-IsConsistent c.sessions c.objects c.rooms c.next_room_id rooms o r s h k e
Change-IsSound {c} (talked m) l h = h
Change-IsSound {c} refused l h = h
Change-IsSound {c} (closed fd o rooms e k) l h =
    closed-IsConsistent c.sessions c.objects c.rooms c.next_room_id rooms fd o e h k

Change-next : {c d : Chat} → Change c d → d.next_room_id ≤ c.next_room_id + 1
unfolding add_session
Change-next {c} kept = omega arith
Change-next {c} (added a conn msg name) = omega arith
Change-next {c} numbered = omega arith
Change-next {c} (created o s name) = omega arith
Change-next {c} (moved o r s rooms k e) = omega arith
Change-next {c} (talked m) = omega arith
Change-next {c} refused = omega arith
Change-next {c} (closed fd o rooms e k) = omega arith

step-next : (c : Chat) (e : Event) → (step c e).next_room_id ≤ c.next_room_id + 1
unfolding step
step-next c (received a conn msg) = elim (handle_message-Change a conn msg c) [
  | inl k ↦ Change-next k
  | inr k ↦ Change-next k
]
step-next c (ended a fd) = Change-next (on_connection_closed-Change a fd c)
step-next c locked = omega arith
step-next c stopping = omega arith

pub run-IsSound :
    (c : Chat) (es : List Event)
    → c.next_room_id + length es < 2 ^ 32
    → IsSound c
    → IsSound (run c es)
unfolding run
run-IsSound c [] l h = h
run-IsSound c (e ∷ es) l h = run-IsSound (step c e) es (omega (arith, step-next c e)) (
    step-case IsSound IsSound c e (λ x y is k p. Change-IsSound k (omega (arith, is)) p) (λ p. p)
      (λ p. p) (λ p. p) h)

-- A new service whose first id is not 0 is sound.
pub new_chat-IsSound : (first : ℕ) → 0 < first → IsSound (record new_chat { next_room_id = first })
unfolding new_chat find
new_chat-IsSound first h = record {
  valid = λ fd o e. absurd (ground arith);
  owners = λ fd g o e. absurd (ground arith);
  inside = λ fd o s e. absurd (ground arith);
  below = λ id e. absurd (ground arith);
  positive = h;
}
