-- ===== src/ThreadPool/Tasks.antt =====
-- Net/ThreadPool.cpp: the order of the tasks and the bound of the queue.
use ioloop.Prelude.{
  ℕ, ◌≤◌, ◌<◌, ◌≡◌, refl, ap, ◌∙◌, subst, List, [], ◌∷◌, ◌++◌, append-nil, append_assoc, none, some,
  Bool, true, false, if◌then◌else◌, length, length-append, arith,
}
use ioloop.ThreadPool.{
  Pool, testing, taking, finished, is_testing, is_taking, is_waiting, is_busy, holds_at, set_at,
  when, is_full, post, resume, take_task, wake, stop, Act, post_act, resume_act, stop_act, test_act,
  take_act, wake_act, end_act, step, Run, here, next,
}

abbrev pub first : List ℕ → List ℕ
first [] = []
first (t ∷ ts) = t ∷ []

-- The tasks that a step puts into the queue.
abbrev pub added : Act → Pool → List ℕ
added (post_act t) p = if p.running then (if is_full p then [] else t ∷ []) else []
added resume_act p = first p.blocked
added _ p = []

-- The tasks that a run puts there.
abbrev pub all_added : {p q : Pool} → Run p q → List ℕ
all_added here = []
all_added (next {q} a run e) = all_added run ++ added a q

-- A step takes tasks from the front and puts them at the end, within the bound.
pub record Kept (p : Pool) (ts : List ℕ) (q : Pool) : Type 0 where
  pub order : q.taken ++ q.queue ≡ (p.taken ++ p.queue) ++ ts
  pub same_bound : q.max_queue_size ≡ p.max_queue_size
  pub bounded :
      0 < p.max_queue_size → length p.queue ≤ p.max_queue_size → length q.queue ≤ q.max_queue_size

Kept-same :
    (p q : Pool)
    → q.queue ≡ p.queue
    → q.taken ≡ p.taken
    → q.max_queue_size ≡ p.max_queue_size
    → Kept p [] q
Kept-same p q a b c = record {
  order = ground (arith, a, b, append-nil (p.taken ++ p.queue));
  same_bound = c;
  bounded = λ h k. ground (arith, a, c, k);
}

Kept-push :
    (p q : Pool) (t : ℕ)
    → q.queue ≡ p.queue ++ t ∷ []
    → q.taken ≡ p.taken
    → q.max_queue_size ≡ p.max_queue_size
    → (0 < p.max_queue_size → length p.queue ≤ p.max_queue_size → length p.queue < p.max_queue_size)
    → Kept p (t ∷ []) q
Kept-push p q t a b c room = record {
  order = ground (arith, a, b, append_assoc p.taken p.queue (t ∷ []));
  same_bound = c;
  bounded = λ h k. omega (arith, room h k, ap length a, length-append p.queue (t ∷ []), c);
}

Kept-pop :
    (p q : Pool) (t : ℕ)
    → p.queue ≡ t ∷ q.queue
    → q.taken ≡ p.taken ++ t ∷ []
    → q.max_queue_size ≡ p.max_queue_size
    → Kept p [] q
Kept-pop p q t a b c = record {
  order =
      ground (arith, a, b, append_assoc p.taken (t ∷ []) q.queue, append-nil (p.taken ++ p.queue));
  same_bound = c;
  bounded = λ h k. omega (arith, k, ap length a, c);
}

Kept-post : (t : ℕ) (p : Pool) → Kept p (added (post_act t) p) (post t p)
unfolding post
Kept-post t p = go p.running (is_full p) refl refl
  where
    go : (r f : Bool) → p.running ≡ r → is_full p ≡ f → Kept p (added (post_act t) p) (post t p)
    go true false er ef =
        subst (λ l. Kept p l (post t p)) (ground (arith, er, ef))
          (Kept-push p (post t p) t (ground (arith, er, ef)) (ground (arith, er, ef))
            (ground (arith, er, ef)) (λ h k. ground (arith, ef)))
    go true true er ef =
        subst (λ l. Kept p l (post t p)) (ground (arith, er, ef))
          (Kept-same p (post t p) (ground (arith, er, ef)) (ground (arith, er, ef))
            (ground (arith, er, ef)))
    go false f er ef =
        subst (λ l. Kept p l (post t p)) (ground (arith, er))
          (Kept-same p (post t p) (ground (arith, er)) (ground (arith, er)) (ground (arith, er)))

Kept-resume : (b : List ℕ) (p q : Pool) → resume b p ≡ some q → Kept p (first b) q
unfolding resume
Kept-resume [] p q e = absurd (ground (arith, e))
Kept-resume (t ∷ b) p q e =
    Kept-push p q t (ground (arith, e)) (ground (arith, e)) (ground (arith, e))
      (λ h k. ground (arith, e))

Kept-take : (i : ℕ) (ts : List ℕ) (p : Pool) → p.queue ≡ ts → Kept p [] (take_task i ts p)
unfolding take_task
Kept-take i [] p e = go p.running refl
  where
    go : (r : Bool) → p.running ≡ r → Kept p [] (take_task i [] p)
    go true er =
        Kept-same p (take_task i [] p) (ground (arith, er)) (ground (arith, er))
          (ground (arith, er))
    go false er =
        Kept-same p (take_task i [] p) (ground (arith, er)) (ground (arith, er))
          (ground (arith, er))
Kept-take i (t ∷ ts) p e = Kept-pop p (take_task i (t ∷ ts) p) t e refl refl

when-some : (b : Bool) (p q : Pool) → when b p ≡ some q → p ≡ q
when-some true p q e = ground (arith, e)
when-some false p q e = absurd (ground (arith, e))

Kept-wake : (i : ℕ) (ts : List ℕ) (p q : Pool) → p.queue ≡ ts → wake i ts p ≡ some q → Kept p [] q
unfolding wake
Kept-wake i [] p q e r = absurd (ground (arith, r))
Kept-wake i (t ∷ ts) p q e r =
    subst (Kept p []) (when-some true (take_task i (t ∷ ts) p) q r) (Kept-take i (t ∷ ts) p e)

Kept-wake_step :
    (b : Bool) (i : ℕ) (p q : Pool) → (if b then wake i p.queue p else none) ≡ some q → Kept p [] q
Kept-wake_step true i p q r = Kept-wake i p.queue p q refl r
Kept-wake_step false i p q r = absurd (ground (arith, r))

step-Kept : (a : Act) (p q : Pool) → step a p ≡ some q → Kept p (added a p) q
unfolding step stop
step-Kept (post_act t) p q e =
    subst (Kept p (added (post_act t) p)) (when-some true (post t p) q e) (Kept-post t p)
step-Kept resume_act p q e = Kept-resume p.blocked p q e
step-Kept stop_act p q e =
    let p' : Pool = record p { running = false } in
    subst (Kept p []) (when-some p.running p' q e) (Kept-same p p' refl refl refl)
step-Kept (test_act i) p q e =
    let p' : Pool = record p {
      workers = set_at i (if p.running then taking else finished) p.workers;
    } in
    subst (Kept p []) (when-some (holds_at is_testing i p.workers) p' q e)
      (Kept-same p p' refl refl refl)
step-Kept (take_act i) p q e =
    subst (Kept p []) (when-some (holds_at is_taking i p.workers) (take_task i p.queue p) q e)
      (Kept-take i p.queue p refl)
step-Kept (wake_act i) p q e = Kept-wake_step (holds_at is_waiting i p.workers) i p q e
step-Kept (end_act i) p q e =
    let p' : Pool = record p { workers = set_at i testing p.workers } in
    subst (Kept p []) (when-some (holds_at is_busy i p.workers) p' q e)
      (Kept-same p p' refl refl refl)

-- However the steps of callers and workers follow each other, the workers take the tasks in the
-- order in which they were put into the queue, each once: what was taken followed by what waits
-- grows at its end only. Where the queue has a bound and was within it, it stays within it.
pub Run-Kept : {p q : Pool} (run : Run p q) → Kept p (all_added run) q
Run-Kept {p} here = Kept-same p p refl refl refl
Run-Kept {p} (next {q} {r} a run e) =
    let k = Run-Kept run in
    let s = step-Kept a q r e in
    record {
      order =
          s.order
          ∙ ap (λ l. l ++ added a q) k.order
          ∙ append_assoc (p.taken ++ p.queue) (all_added run) (added a q);
      same_bound = s.same_bound ∙ k.same_bound;
      bounded = λ h b. s.bounded (omega (arith, h, k.same_bound)) (k.bounded h b);
    }
