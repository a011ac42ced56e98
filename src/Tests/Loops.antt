-- ===== src/Tests/Loops.antt =====
-- The theorems on an event loop at concrete inputs.
use echo_net.Base.{ℕ, ◌≡◌, refl, ◌⊎◌, List, [], ◌∷◌, ◌++◌, some, arith}
use Prim.{tt}
use mathlib.Core.List.{Memᴰ}
use mathlib.Core.List.Memᴰ.{head, tail}
use echo_net.Base.Maps.{find, remove}
use echo_net.Reactor.Callbacks.{
  Event, posted, signalled, checked, polled, swapped, ran, new_loop, run, advance,
}
use echo_net.Reactor.Callbacks.Order.{all_posts, barrier}
use echo_net.Reactor.Callbacks.Progress.{posted_are_run}
use echo_net.Reactor.EventLoop.{EventLoop, new_event_loop, end_round}
use echo_net.Reactor.EventLoop.Outlives.{
  Op, connection_removed, connection_updated, apply, apply_all, IsHeld, connection_outlives_round,
}

-- One callback arrives while the loop polls in vain.
abbrev late : List (Event ℕ)
late = checked ∷ posted 7 ∷ polled ∷ signalled ∷ posted 9 ∷ signalled ∷ []

posted_are_run_example : (advance 9 (run new_loop late)).executed ≡ 7 ∷ 9 ∷ []
unfolding new_loop run all_posts
posted_are_run_example = posted_are_run late 9 refl refl refl (omega arith)

abbrev after_barrier : List (Event ℕ)
after_barrier = signalled ∷ checked ∷ polled ∷ swapped ∷ ran ∷ ran ∷ []

-- The one callback of the list is not the barrier.
not_before : Memᴰ {A = ℕ} 8 (all_posts (posted 7 ∷ [])) → ⊥
unfolding all_posts
not_before (head e) = absurd (omega arith)
not_before (tail m) = elim m [ ]

barrier_example :
    (more : List ℕ) × ((run new_loop ((posted 7 ∷ []) ++ posted 8 ∷ after_barrier)).executed
      ≡ all_posts (posted 7 ∷ []) ++ more)
unfolding new_loop run
barrier_example = barrier (posted 7 ∷ []) after_barrier 8 (tail (head refl)) not_before

abbrev one_connection : EventLoop
one_connection = record new_event_loop { connections = (5, 1) ∷ [] }

abbrev reused : List Op
reused = connection_removed 5 ∷ connection_updated 5 2 ∷ []

connection_outlives_round_example :
    IsHeld 1 (apply_all one_connection reused)
    × (((k : ℕ) × (find k (end_round (apply_all one_connection reused)).connections ≡ some 1))
        ⊎ Memᴰ 1 (end_round (apply_all one_connection reused)).garbage)
unfolding find apply remove new_event_loop
connection_outlives_round_example =
    connection_outlives_round 1 5 one_connection reused refl (tt, (refl, tt))
