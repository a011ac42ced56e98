-- ===== src/ThreadPool/Counts.antt =====
-- How often a task stands in a list, and what holds of each thread.
use echo_net.Base.{
  ℕ, zero, suc, ◌+◌, ◌≡◌, refl, sym, ap, ◌∙◌, List, [], ◌∷◌, ◌++◌, true, false, some, subst, arith,
  get_elem?, set,
}
use echo_net.ThreadPool.TaskQueue.{Task, TaskQueue, stop}
use echo_net.ThreadPool.Workers.{Worker, waiting, busy, ended, Event, submits, works, stops}
use echo_net.Base.Counts.{one}
use mathlib.Core.Option.{some-injective}
use Prim.{Unit, tt}

abbrev pub held : ℕ → Worker → ℕ
held k (busy t) = one k t.id
held k _ = 0

unfoldable pub in_queue : ℕ → List Task → ℕ
in_queue k [] = 0
in_queue k (t ∷ ts) = one k t.id + in_queue k ts

unfoldable pub in_hands : ℕ → List Worker → ℕ
in_hands k [] = 0
in_hands k (w ∷ ws) = held k w + in_hands k ws

-- Every task of the history has both of its functions.
abbrev pub Whole : List Event → Type 0
Whole [] = Unit {0}
Whole (submits t ∷ es) = (t.has_run ≡ true) × (t.has_complete ≡ true) × Whole es
Whole (works i ∷ es) = Whole es
Whole (stops ∷ es) = Whole es

-- The numbers of the tasks that a history submits.
abbrev pub submitted : List Event → List ℕ
submitted [] = []
submitted (submits t ∷ es) = t.id ∷ submitted es
submitted (works i ∷ es) = submitted es
submitted (stops ∷ es) = submitted es

abbrev pub AllWhole : List Task → Type 0
AllWhole [] = Unit {0}
AllWhole (t ∷ ts) = (t.has_run ≡ true) × (t.has_complete ≡ true) × AllWhole ts

-- What a thread must satisfy: its task is whole, and it has only ended once the queue is shut and empty.
abbrev pub Fits : TaskQueue → Worker → Type 0
Fits q waiting = Unit {0}
Fits q (busy t) = t.has_complete ≡ true
Fits q ended = (q.queue ≡ []) × (q.stopped ≡ true)

abbrev pub AllFit : TaskQueue → List Worker → Type 0
AllFit q [] = Unit {0}
AllFit q (w ∷ ws) = Fits q w × AllFit q ws

pub in_queue-append :
    (k : ℕ) (ts : List Task) (t : Task) → in_queue k (ts ++ t ∷ []) ≡ in_queue k ts + one k t.id
unfolding in_queue
in_queue-append k [] t = omega arith
in_queue-append k (x ∷ ts) t = omega (arith, in_queue-append k ts t)

pub swap : (a b c : ℕ) → a + b + c ≡ c + b + a
swap a b c = omega arith

pub in_hands-set :
    (k : ℕ) (ws : List Worker) (i : ℕ) (w v : Worker)
    → get_elem? ws i ≡ some w
    → in_hands k (set ws i v) + held k w ≡ in_hands k ws + held k v
unfolding in_hands
in_hands-set k [] i w v e = absurd (ground arith)
in_hands-set k (u ∷ ws) zero w v e =
    ap (λ x. held k v + in_hands k ws + held k x) (sym (some-injective u w e))
    ∙ swap (held k v) (in_hands k ws) (held k u)
in_hands-set k (u ∷ ws) (suc i) w v e = omega (arith, in_hands-set k ws i w v e)

-- With the queue open, no thread has ended, and the threads suit any queue.
pub AllFit-open :
    (q r : TaskQueue) (ws : List Worker) → q.stopped ≡ false → AllFit q ws → AllFit r ws
AllFit-open q r [] o f = tt
AllFit-open q r (waiting ∷ ws) o f = (tt, AllFit-open q r ws o f.1)
AllFit-open q r (busy t ∷ ws) o f = (f.0, AllFit-open q r ws o f.1)
AllFit-open q r (ended ∷ ws) o f = absurd (ground (arith, f.0))

pub AllFit-full :
    (q r : TaskQueue) (t : Task) (ts : List Task) (ws : List Worker)
    → q.queue ≡ t ∷ ts
    → AllFit q ws
    → AllFit r ws
AllFit-full q r t ts [] o f = tt
AllFit-full q r t ts (waiting ∷ ws) o f = (tt, AllFit-full q r t ts ws o f.1)
AllFit-full q r t ts (busy u ∷ ws) o f = (f.0, AllFit-full q r t ts ws o f.1)
AllFit-full q r t ts (ended ∷ ws) o f = absurd (ground (arith, f.0))

pub AllFit-stop : (q : TaskQueue) (ws : List Worker) → AllFit q ws → AllFit (stop q) ws
unfolding stop
AllFit-stop q [] f = tt
AllFit-stop q (waiting ∷ ws) f = (tt, AllFit-stop q ws f.1)
AllFit-stop q (busy t ∷ ws) f = (f.0, AllFit-stop q ws f.1)
AllFit-stop q (ended ∷ ws) f = ((f.0.0, refl), AllFit-stop q ws f.1)

pub AllFit-set :
    (q : TaskQueue) (ws : List Worker) (i : ℕ) (v : Worker)
    → Fits q v
    → AllFit q ws
    → AllFit q (set ws i v)
AllFit-set q [] i v g f = tt
AllFit-set q (w ∷ ws) zero v g f = (g, f.1)
AllFit-set q (w ∷ ws) (suc i) v g f = (f.0, AllFit-set q ws i v g f.1)

pub AllFit-get :
    (q : TaskQueue) (ws : List Worker) (i : ℕ) (w : Worker)
    → get_elem? ws i ≡ some w
    → AllFit q ws
    → Fits q w
AllFit-get q [] i w e f = absurd (ground arith)
AllFit-get q (u ∷ ws) zero w e f = subst (Fits q) (some-injective u w e) f.0
AllFit-get q (u ∷ ws) (suc i) w e f = AllFit-get q ws i w e f.1

pub AllWhole-append :
    (ts : List Task) (t : Task)
    → t.has_run ≡ true
    → t.has_complete ≡ true
    → AllWhole ts
    → AllWhole (ts ++ t ∷ [])
AllWhole-append [] t r c a = (r, c, tt)
AllWhole-append (u ∷ ts) t r c a = (a.0, a.1, AllWhole-append ts t r c a.2)
