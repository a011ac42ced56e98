-- ===== src/Reactor/EventLoop/Outlives.antt =====
-- A connection is not destroyed in the round in which it is removed.
use echo_net.Base.{
  mem-append-left, mem-append-right, ℕ, ◌≡◌, refl, sym, ap, ◌∙◌, ◌⊎◌, inl, inr, List, [], ◌∷◌, Bool,
  true, false, Option, none, some, arith, ◌==◌, ==_iff, Bool-cases,
}
use Prim.{Unit}
use mathlib.Core.List.{Memᴰ}
use mathlib.Core.List.Memᴰ.{head}
use mathlib.Core.Option.{some-injective}
use echo_net.Base.Maps.{find, find-put, find-remove}
use echo_net.Reactor.EventLoop.{
  EventLoop, update_channel, remove_channel, update_connection, take_connection, remove_connection,
  end_round,
}

-- What the callbacks of a round may do to the tables.
pub data Op : Type 0 where
  channel_updated : Bool → ℕ → ℕ → Op
  channel_removed : ℕ → Op
  connection_updated : ℕ → ℕ → Op
  connection_removed : ℕ → Op

unfoldable pub apply : EventLoop → Op → EventLoop
unfolding update_channel remove_channel update_connection remove_connection
apply l (channel_updated added fd ch) = update_channel added fd ch l
apply l (channel_removed fd) = remove_channel fd l
apply l (connection_updated fd conn) = update_connection fd conn l
apply l (connection_removed fd) = (remove_connection fd l).0

unfoldable pub apply_all : EventLoop → List Op → EventLoop
unfolding apply
apply_all l [] = l
apply_all l (o ∷ os) = apply_all (apply l o) os

-- A new connection has a descriptor that is not in the table.
abbrev pub IsFresh : EventLoop → Op → Type 0
IsFresh l (connection_updated fd conn) = find fd l.connections ≡ none
IsFresh l (channel_updated added fd ch) = Unit {0}
IsFresh l (channel_removed fd) = Unit {0}
IsFresh l (connection_removed fd) = Unit {0}

abbrev pub AllFresh : EventLoop → List Op → Type 0
AllFresh l [] = Unit {0}
AllFresh l (o ∷ os) = IsFresh l o × AllFresh (apply l o) os

-- A pointer keeps the connection alive.
abbrev pub IsHeld : ℕ → EventLoop → Type 0
IsHeld conn l = ((fd : ℕ) × (find fd l.connections ≡ some conn)) ⊎ Memᴰ conn l.pending_connections

put-IsHeld :
    (conn fd new : ℕ) (l : EventLoop)
    → find fd l.connections ≡ none
    → IsHeld conn l
    → IsHeld conn (update_connection fd new l)
unfolding update_connection
put-IsHeld conn fd new l e (inr m) = inr m
put-IsHeld conn fd new l e (inl (k, f)) = elim (Bool-cases (fd == k)) [
  | inl same ↦ absurd (ground (arith, e, f, ap (λ i. find i l.connections) ((==_iff fd k).0 same)))
  | inr differ ↦ inl (k, find-put fd k new l.connections ∙ rw differ f)
]

take-IsHeld :
    (conn fd : ℕ) (l : EventLoop) (found : Option ℕ)
    → find fd l.connections ≡ found
    → IsHeld conn l
    → IsHeld conn (take_connection fd l found)
unfolding take_connection
take-IsHeld conn fd l none e h = h
take-IsHeld conn fd l (some c) e (inr m) =
    inr (mem-append-left conn l.pending_connections (c ∷ []) m)
take-IsHeld conn fd l (some c) e (inl (k, f)) = elim (Bool-cases (fd == k)) [
  | inl same ↦ inr (
      mem-append-right conn l.pending_connections (c ∷ []) (
        head (
          some-injective conn c
            (sym f ∙ ap (λ i. find i l.connections) (sym ((==_iff fd k).0 same)) ∙ e))))
  | inr differ ↦ inl (k, find-remove fd k l.connections ∙ rw differ f)
]

update_channel-IsHeld :
    (conn fd ch : ℕ) (added : Bool) (l : EventLoop)
    → IsHeld conn l
    → IsHeld conn (update_channel added fd ch l)
unfolding update_channel
update_channel-IsHeld conn fd ch true l h = h
update_channel-IsHeld conn fd ch false l h = h

apply-IsHeld :
    (conn : ℕ) (l : EventLoop) (o : Op) → IsFresh l o → IsHeld conn l → IsHeld conn (apply l o)
unfolding apply remove_connection remove_channel
apply-IsHeld conn l (channel_updated added fd ch) f h = update_channel-IsHeld conn fd ch added l h
apply-IsHeld conn l (channel_removed fd) f h = h
apply-IsHeld conn l (connection_updated fd new) f h = put-IsHeld conn fd new l f h
apply-IsHeld conn l (connection_removed fd) f h =
    take-IsHeld conn fd (remove_channel fd l) (find fd l.connections) refl h

apply_all-IsHeld :
    (conn : ℕ) (l : EventLoop) (os : List Op)
    → AllFresh l os
    → IsHeld conn l
    → IsHeld conn (apply_all l os)
unfolding apply_all
apply_all-IsHeld conn l [] f h = h
apply_all-IsHeld conn l (o ∷ os) (f, fs) h =
    apply_all-IsHeld conn (apply l o) os fs (apply-IsHeld conn l o f h)

-- A connection that is in the table when the callbacks of a round run is held up to the end of the
-- round, whatever they remove, where a new connection has a descriptor that is not in the table; and
-- after it, it is in the table or among those that the next round destroys.
pub connection_outlives_round :
    (conn fd : ℕ) (l : EventLoop) (os : List Op)
    → find fd l.connections ≡ some conn
    → AllFresh l os
    → IsHeld conn (apply_all l os)
      × (((k : ℕ) × (find k (end_round (apply_all l os)).connections ≡ some conn))
          ⊎ Memᴰ conn (end_round (apply_all l os)).garbage)
unfolding end_round
connection_outlives_round conn fd l os e f =
    let held = apply_all-IsHeld conn l os f (inl (fd, e)) in (held, held)
