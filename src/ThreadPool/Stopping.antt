-- ===== src/ThreadPool/Stopping.antt =====
-- Net/ThreadPool.cpp: what `stop` does to the workers.
use ioloop.Prelude.{
  ℕ, suc, zero, ◌≡◌, refl, sym, ◌∙◌, subst, List, [], ◌∷◌, none, some, Bool, true, false,
  if◌then◌else◌, arith,
}
use ioloop.ThreadPool.{
  Pool, Worker, testing, taking, waiting, finished, aborted, busy, is_testing, is_taking,
  is_waiting, is_busy, holds_at, set_at, when, post, resume, take_task, wake, stop, Act, post_act,
  resume_act, stop_act, test_act, take_act, wake_act, end_act, step, Run, here, next,
}

-- The pool has stopped with nothing to do, and worker `i` waits for a task.
pub record Lost (i : ℕ) (p : Pool) : Type 0 where
  pub stopped : p.running ≡ false
  pub empty : p.queue ≡ []
  pub unblocked : p.blocked ≡ []
  pub waits : holds_at is_waiting i p.workers ≡ true

-- A worker in another state is another worker.
other_worker :
    (f : Worker → Bool) (i j : ℕ) (v : Worker) (ws : List Worker)
    → ((w : Worker) → is_waiting w ≡ true → f w ≡ false)
    → holds_at is_waiting i ws ≡ true
    → holds_at f j ws ≡ true
    → holds_at is_waiting i (set_at j v ws) ≡ true
other_worker f i j v [] d h k = absurd (ground (arith, h))
other_worker f zero zero v (w ∷ ws) d h k = absurd (ground (arith, k, d w h))
other_worker f zero (suc j) v (w ∷ ws) d h k = h
other_worker f (suc i) zero v (w ∷ ws) d h k = h
other_worker f (suc i) (suc j) v (w ∷ ws) d h k = other_worker f i j v ws d h k

-- A waiting worker is in none of the other states.
abbrev Excludes : (Worker → Bool) → Type 0
Excludes f = (w : Worker) → is_waiting w ≡ true → f w ≡ false

not_testing : Excludes is_testing
not_testing waiting h = refl
not_testing testing h = absurd (ground (arith, h))
not_testing taking h = refl
not_testing finished h = refl
not_testing aborted h = refl
not_testing (busy t) h = refl

not_taking : Excludes is_taking
not_taking waiting h = refl
not_taking taking h = absurd (ground (arith, h))
not_taking testing h = refl
not_taking finished h = refl
not_taking aborted h = refl
not_taking (busy t) h = refl

not_busy : Excludes is_busy
not_busy waiting h = refl
not_busy (busy t) h = absurd (ground (arith, h))
not_busy testing h = refl
not_busy taking h = refl
not_busy finished h = refl
not_busy aborted h = refl

Lost-when : (i : ℕ) (b : Bool) (p q r : Pool) → when b q ≡ some r → (b ≡ true → Lost i q) → Lost i r
Lost-when i true p q r e k = subst (Lost i) (ground (arith, e)) (k refl)
Lost-when i false p q r e k = absurd (ground (arith, e))

Lost-workers :
    (f : Worker → Bool) (i j : ℕ) (v : Worker) (p : Pool)
    → Excludes f
    → Lost i p
    → holds_at f j p.workers ≡ true
    → Lost i (record p { workers = set_at j v p.workers })
Lost-workers f i j v p d l k = record {
  stopped = l.stopped;
  empty = l.empty;
  unblocked = l.unblocked;
  waits = other_worker f i j v p.workers d l.waits k;
}

take_stopped :
    (j : ℕ) (p : Pool)
    → p.running ≡ false
    → p.queue ≡ []
    → take_task j p.queue p ≡ record p { workers = set_at j aborted p.workers }
unfolding take_task
take_stopped j p r e = ground (arith, r, e)

wake_empty : (j : ℕ) (p : Pool) → p.queue ≡ [] → wake j p.queue p ≡ none
unfolding wake
wake_empty j p e = ground (arith, e)

post_stopped : (t : ℕ) (p : Pool) → p.running ≡ false → post t p ≡ p
unfolding post
post_stopped t p r = ground (arith, r)

step-Lost : (a : Act) (i : ℕ) (p q : Pool) → Lost i p → step a p ≡ some q → Lost i q
unfolding step stop resume
step-Lost (post_act t) i p q l e =
    subst (Lost i) (sym (post_stopped t p l.stopped) ∙ ground (arith, e)) l
step-Lost resume_act i p q l e = absurd (ground (arith, e, l.unblocked))
step-Lost stop_act i p q l e = absurd (ground (arith, e, l.stopped))
step-Lost (test_act j) i p q l e =
    let v = if p.running then taking else finished in
    Lost-when i (holds_at is_testing j p.workers) p (record p { workers = set_at j v p.workers }) q
      e (Lost-workers is_testing i j v p not_testing l)
step-Lost (take_act j) i p q l e =
    Lost-when i (holds_at is_taking j p.workers) p (take_task j p.queue p) q e (λ k.
      subst (Lost i) (sym (take_stopped j p l.stopped l.empty))
        (Lost-workers is_taking i j aborted p not_taking l k))
step-Lost (wake_act j) i p q l e = absurd (ground (arith, e, wake_empty j p l.empty))
step-Lost (end_act j) i p q l e =
    Lost-when i (holds_at is_busy j p.workers) p (record p { workers = set_at j testing p.workers })
      q e (Lost-workers is_busy i j testing p not_busy l)

-- When a pool is stopped while a worker waits for a task and none is left, that worker waits for
-- ever, whatever the others do: `stop` wakes the worker, but the predicate that it waits for asks
-- for a task only.
pub Run-Lost : {p q : Pool} (i : ℕ) → Run p q → Lost i p → Lost i q
Run-Lost i here l = l
Run-Lost i (next {q} {r} a run e) l = step-Lost a i q r (Run-Lost i run l) e

-- A worker that has tested `runing_` before the pool is stopped, and finds no task after, takes the
-- empty task, whose call throws, and the program is aborted.
pub stop_aborts :
    (i : ℕ) (p : Pool)
    → p.running ≡ true
    → p.queue ≡ []
    → holds_at is_taking i p.workers ≡ true
    → (q : Pool) × (r : Pool) × (step stop_act p ≡ some q)
      × (step (take_act i) q ≡ some r)
      × (r.workers ≡ set_at i aborted p.workers)
unfolding step stop take_task
stop_aborts i p r e k = (
  record p { running = false },
  record p { running = false; workers = set_at i aborted p.workers },
  ground (arith, r),
  ground (arith, k, e),
  refl,
)
