-- ===== src/ThreadPool/Conserve.antt =====
-- No task is lost and none is executed twice, whatever the threads do and whenever the pool stops.
use echo_net.Base.{
  ℕ, zero, suc, ◌+◌, ◌≡◌, refl, ap, inl, inr, List, [], ◌∷◌, Bool, true, false, Option, some, none,
  subst, arith, if◌then◌else◌, ◌==◌, get_elem?, replicate, Bool-cases,
}
use echo_net.ThreadPool.TaskQueue.{Task, TaskQueue, new_queue, try_push, pop, pop_from, stop}
use echo_net.ThreadPool.Workers.{
  Worker, waiting, busy, ended, WorkThreadPool, new_pool, submit, after_pop, work, stop_pool, Event,
  submits, works, stops, step, run,
}
use echo_net.Base.Counts.{count, one, count-append}
use Prim.{tt}
use echo_net.ThreadPool.Counts.{
  in_queue, in_hands, Whole, submitted, AllWhole, AllFit, in_queue-append, in_hands-set,
  AllFit-open, AllFit-full, AllFit-stop, AllFit-set, AllFit-get, AllWhole-append,
}

-- Where the tasks are, for `n k` submissions of each number `k`.
record Sound (n : ℕ → ℕ) (p : WorkThreadPool) : Type 0 where
  placed :
      (k : ℕ)
      → in_queue k p.tasks.queue + in_hands k p.workers + count k p.ran + count k p.refused ≡ n k
  completes : (k : ℕ) → count k p.completed ≡ count k p.ran + count k p.refused
  whole : AllWhole p.tasks.queue
  fit : AllFit p.tasks p.workers

Sound-submit :
    (n : ℕ → ℕ) (p : WorkThreadPool) (t : Task)
    → t.has_run ≡ true
    → t.has_complete ≡ true
    → Sound n p
    → Sound (λ k. n k + one k t.id) (submit p t)
unfolding submit try_push
Sound-submit n p t r c s = elim (Bool-cases p.tasks.stopped) [
  | inl shut ↦
      simp (shut, c)
        record {
          placed = λ k. omega (arith, s.placed k, count-append k p.refused t.id);
          completes = λ k. omega (
            arith,
            s.completes k,
            count-append k p.refused t.id,
            count-append k p.completed t.id,
          );
          whole = s.whole;
          fit = s.fit;
        }
  | inr runs ↦ simp runs record {
    placed = λ k. omega (arith, s.placed k, in_queue-append k p.tasks.queue t);
    completes = s.completes;
    whole = AllWhole-append p.tasks.queue t r c s.whole;
    fit = AllFit-open p.tasks _ p.workers runs s.fit;
  }
]

Sound-pop :
    (n : ℕ → ℕ) (p : WorkThreadPool) (i : ℕ) (shut : Bool) (ts : List Task)
    → get_elem? p.workers i ≡ some waiting
    → p.tasks.queue ≡ ts
    → p.tasks.stopped ≡ shut
    → Sound n p
    → Sound n (after_pop p i (pop_from shut ts))
unfolding after_pop pop_from in_queue
Sound-pop n p i true [] at q o s = record {
  placed = λ k. omega (arith, s.placed k, in_hands-set k p.workers i waiting ended at);
  completes = s.completes;
  whole = s.whole;
  fit = AllFit-set p.tasks p.workers i ended (q, o) s.fit;
}
Sound-pop n p i false [] at q o s = s
Sound-pop n p i shut (t ∷ ts) at q o s =
    let all = subst AllWhole q s.whole in
    simp (all.0) record {
      placed = λ k.
          omega
            (arith, s.placed k, ap (in_queue k) q, in_hands-set k p.workers i waiting (busy t) at);
      completes = s.completes;
      whole = all.2;
      fit = AllFit-set _ p.workers i (busy t) all.1 (AllFit-full p.tasks _ t ts p.workers q s.fit);
    }

Sound-work :
    (n : ℕ → ℕ) (p : WorkThreadPool) (i : ℕ) (o : Option Worker)
    → get_elem? p.workers i ≡ o
    → Sound n p
    → Sound n (work p i o)
unfolding work pop
Sound-work n p i none at s = s
Sound-work n p i (some waiting) at s = Sound-pop n p i p.tasks.stopped p.tasks.queue at refl refl s
Sound-work n p i (some ended) at s = s
Sound-work n p i (some (busy t)) at s =
    let c : t.has_complete ≡ true = AllFit-get p.tasks p.workers i (busy t) at s.fit in
    simp c record {
      placed = λ k. omega (
        arith,
        s.placed k,
        count-append k p.ran t.id,
        in_hands-set k p.workers i (busy t) waiting at,
      );
      completes = λ k.
          omega (arith, s.completes k, count-append k p.ran t.id, count-append k p.completed t.id);
      whole = s.whole;
      fit = AllFit-set p.tasks p.workers i waiting tt s.fit;
    }

Sound-run :
    (n : ℕ → ℕ) (p : WorkThreadPool) (es : List Event)
    → Whole es
    → Sound n p
    → Sound (λ k. n k + count k (submitted es)) (run p es)
unfolding run step stop_pool stop count
Sound-run n p [] w s = record {
  placed = λ k. omega (arith, s.placed k);
  completes = s.completes;
  whole = s.whole;
  fit = s.fit;
}
Sound-run n p (submits t ∷ es) w s =
    let r = Sound-run (λ k. n k + one k t.id) (submit p t) es w.2 (Sound-submit n p t w.0 w.1 s) in
    record {
      placed = λ k. omega (arith, r.placed k);
      completes = r.completes;
      whole = r.whole;
      fit = r.fit;
    }
Sound-run n p (works i ∷ es) w s =
    Sound-run n (work p i (get_elem? p.workers i)) es w
      (Sound-work n p i (get_elem? p.workers i) refl s)
Sound-run n p (stops ∷ es) w s = Sound-run n (stop_pool p) es w record {
  placed = s.placed;
  completes = s.completes;
  whole = s.whole;
  fit = AllFit-stop p.tasks p.workers s.fit;
}

replicate-idle :
    (q : TaskQueue) (num k : ℕ)
    → AllFit q (replicate num waiting) × (in_hands k (replicate num waiting) ≡ 0)
unfolding in_hands
replicate-idle q zero k = (tt, refl)
replicate-idle q (suc num) k =
    let rest = replicate-idle q num k in ((tt, rest.0), omega (arith, rest.1))

new_pool-Sound : (num : ℕ) → Sound (λ k. 0) (new_pool num)
unfolding new_pool new_queue in_queue count
new_pool-Sound num = record {
  placed = λ k. omega (arith, (replicate-idle new_queue (if num == 0 then 4 else num) k).1);
  completes = λ k. omega arith;
  whole = tt;
  fit = (replicate-idle new_queue (if num == 0 then 4 else num) 0).0;
}

-- For tasks that have both functions, submitted to a new pool in any interleaving with the threads
-- and with `stop`: each submission is in the queue, in the hands of a thread, executed or refused,
-- exactly one of these; and `onComplete_` has been called once for each one executed or refused.
pub tasks_conserved :
    (num : ℕ) (es : List Event) (k : ℕ)
    → Whole es
    → let p = run (new_pool num) es in
      (in_queue k p.tasks.queue + in_hands k p.workers + count k p.ran + count k p.refused
        ≡ count k (submitted es))
      × (count k p.completed ≡ count k p.ran + count k p.refused)
tasks_conserved num es k w =
    let s = Sound-run (λ k. 0) (new_pool num) es w (new_pool-Sound num) in
    (omega (arith, s.placed k), s.completes k)

abbrev pub all_ended : List Worker → Bool
all_ended [] = true
all_ended (ended ∷ ws) = all_ended ws
all_ended (_ ∷ ws) = false

no_hands : (k : ℕ) (ws : List Worker) → all_ended ws ≡ true → in_hands k ws ≡ 0
unfolding in_hands
no_hands k [] e = refl
no_hands k (waiting ∷ ws) e = absurd (ground arith)
no_hands k (busy t ∷ ws) e = absurd (ground arith)
no_hands k (ended ∷ ws) e = omega (arith, no_hands k ws e)

-- For tasks that have both functions, submitted to a new pool in any interleaving with the threads
-- and with `stop`: once every thread has ended, one at least, the pool was stopped, no task is left
-- in the queue, each submission was executed or refused, exactly one of the two, and completed once.
pub drained :
    (num : ℕ) (es : List Event) (k i : ℕ)
    → Whole es
    → all_ended (run (new_pool num) es).workers ≡ true
    → get_elem? (run (new_pool num) es).workers i ≡ some ended
    → let p = run (new_pool num) es in
      (p.tasks.stopped ≡ true)
      × (p.tasks.queue ≡ [])
      × (count k p.ran + count k p.refused ≡ count k (submitted es))
      × (count k p.completed ≡ count k (submitted es))
unfolding in_queue
drained num es k i w all at =
    let p = run (new_pool num) es in
    let s = Sound-run (λ k. 0) (new_pool num) es w (new_pool-Sound num) in
    let f = AllFit-get p.tasks p.workers i ended at s.fit in
    let e = ap (in_queue k) f.0 in
    let gone = no_hands k p.workers all in
    (
      f.1,
      f.0,
      omega (arith, s.placed k, e, gone),
      omega (arith, s.placed k, s.completes k, e, gone),
    )
