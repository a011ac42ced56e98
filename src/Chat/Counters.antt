-- ===== src/Chat/Counters.antt =====
-- The metric of the connections against the table of the sessions.
use echo_net.Base.{ℕ, suc, ◌+◌, ◌^◌, ◌≤◌, ◌<◌, ◌≡◌, subst, List, [], ◌∷◌, arith, length}
use echo_net.Base.Maps.{length-put-le, length-remove-lt}
use echo_net.Chat.State.{Chat}
use echo_net.Chat.Login.{add_session}
use echo_net.Chat.Service.{new_chat}
use echo_net.Chat.Changes.{Change, kept, added, numbered, created, moved, talked, refused, closed}
use echo_net.Chat.History.{Event, run, step, step-case}

-- What `n` events can have counted.
pub record IsCounted (n : ℕ) (c : Chat) : Type 0 where
  pub enough : length c.sessions ≤ c.active_connections
  pub few : c.active_connections ≤ n

Change-IsCounted :
    {c d : Chat} (n : ℕ) → Change c d → n + 1 < 2 ^ 64 → IsCounted n c → IsCounted (n + 1) d
unfolding add_session
Change-IsCounted {c} n kept l h = record { enough = h.enough; few = omega (arith, h.few) }
Change-IsCounted {c} n (added a conn msg name) l h = record {
  enough = omega (arith, h.few, h.enough, length-put-le conn.fd (length c.objects) c.sessions);
  few = omega (arith, h.few);
}
Change-IsCounted {c} n numbered l h = record { enough = h.enough; few = omega (arith, h.few) }
Change-IsCounted {c} n (created o s name) l h = record {
  enough = h.enough;
  few = omega (arith, h.few);
}
Change-IsCounted {c} n (moved o r s rooms k e) l h = record {
  enough = h.enough;
  few = omega (arith, h.few);
}
Change-IsCounted {c} n (talked m) l h = record { enough = h.enough; few = omega (arith, h.few) }
Change-IsCounted {c} n refused l h = record { enough = h.enough; few = omega (arith, h.few) }
Change-IsCounted {c} n (closed fd o rooms e k) l h = record {
  enough = omega (arith, h.few, h.enough, length-remove-lt fd o c.sessions e);
  few = omega (arith, h.few, h.enough, length-remove-lt fd o c.sessions e);
}

step-IsCounted :
    (n : ℕ) (c : Chat) (e : Event) → n + 1 < 2 ^ 64 → IsCounted n c → IsCounted (n + 1) (step c e)
step-IsCounted n c e l h =
    step-case (IsCounted n) (IsCounted (n + 1)) c e (λ x y is k p. Change-IsCounted n k l p)
      (λ p. record { enough = p.enough; few = p.few })
      (λ p. record { enough = p.enough; few = omega (arith, p.few) })
      (λ p. record { enough = p.enough; few = omega (arith, p.few) }) h

run-IsCounted :
    (n : ℕ) (c : Chat) (es : List Event)
    → n + length es < 2 ^ 64
    → IsCounted n c
    → IsCounted (n + length es) (run c es)
unfolding run
run-IsCounted n c [] l h = record { enough = h.enough; few = omega (arith, h.few) }
run-IsCounted n c (e ∷ es) l h =
    subst (λ k. IsCounted k (run (step c e) es)) (shift n es)
      (run-IsCounted (n + 1) (step c e) es (omega arith) (step-IsCounted n c e (omega arith) h))
  where
    shift : (n : ℕ) (es : List Event) → n + 1 + length es ≡ n + suc (length es)
    shift n es = omega arith

-- In any history of fewer than `2 ^ 64` events from a new service, `active_connections` counts at
-- least the sessions that are in the table.
pub sessions_counted :
    (first : ℕ) (es : List Event)
    → length es < 2 ^ 64
    → length (run (record new_chat { next_room_id = first }) es).sessions
      ≤ (run (record new_chat { next_room_id = first }) es).active_connections
unfolding new_chat
sessions_counted first es l =
    (run-IsCounted 0 (record new_chat { next_room_id = first }) es (omega arith)
      (record { enough = omega arith; few = omega arith })).enough
