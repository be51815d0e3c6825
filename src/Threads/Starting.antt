-- ===== src/Threads/Starting.antt =====
-- Net/Thread.cpp: what `start` relies on when it returns.
use ioloop.Prelude.{
  ℕ, ◌+◌, ◌≡◌, refl, ap, ◌∙◌, subst, List, [], ◌∷◌, some, ok, bind-ok, ok_same, Bool, true, false,
  not, ◌&&◌, if◌then◌else◌, arith, length, assert, branches, Bool-cases, inl, inr, ◌>>◌, ◌<◌,
}
use ioloop.Latch
use ioloop.Latch.{Latch, new_latch, wait, go_on, count_down}
use ioloop.Latch.Waits.{Waits, wait-Waits, wake-Waits, go_on-Waits, count_down-Waits, run-Waits}
use ioloop.Threads.{
  Thread, new_thread, start, resume, store_tid, count_latch, join, check_tid, is_known, Act,
  start_act, tid_act, count_act, wake_act, resume_act, join_act, step, run,
}

-- How often the latch was counted down.
abbrev pub counts : Bool → ℕ
counts b = if b then 1 else 0

pub record Known (t : Thread) : Type 0 where
  pub waiters : ℕ
  pub waits : Waits 1 (counts t.counted) waiters t.latch
  pub known : is_known t.tid ≡ t.begun
  pub later : (t.counted && not t.begun) ≡ false

store_tid-Known : (id : ℕ) (t : Thread) → Known t → Known (store_tid id t)
unfolding store_tid
store_tid-Known id t h =
    branches Known (t.started && not t.begun) (record t { begun = true; tid = some id }) t
      (λ e. record { waiters = h.waiters; waits = h.waits; known = refl; later = ground arith })
      (λ e. h)

count_latch-Known : (t : Thread) → Known t → Known (count_latch t)
unfolding count_latch
count_latch-Known t h =
    branches Known (t.begun && not t.counted)
      (record t { counted = true; latch = count_down t.latch }) t
      (λ e.
        let first : t.counted ≡ false = ground (arith, e) in
        record {
          waiters = h.waiters;
          waits =
              count_down-Waits 1 0 h.waiters t.latch
                (subst (λ b. Waits 1 (counts b) h.waiters t.latch) first h.waits);
          known = h.known;
          later = ground (arith, e);
        })
      (λ e. h)

step-Known : (a : Act) (t t' : Thread) → step a t ≡ ok t' → Known t → Known t'
unfolding step start resume join
step-Known (start_act caller) t t' e h =
    let (u, fresh, e') = bind-ok (assert (not t.started)) _ t' e in
    subst Known (ok_same _ t' e') record {
      waiters = 1 + h.waiters;
      waits = wait-Waits 1 (counts t.counted) h.waiters caller t.latch h.waits;
      known = h.known;
      later = h.later;
    }
step-Known (tid_act id) t t' e h =
    subst Known (ok_same (store_tid id t) t' e) (store_tid-Known id t h)
step-Known count_act t t' e h = subst Known (ok_same (count_latch t) t' e) (count_latch-Known t h)
step-Known (wake_act k) t t' e h = subst Known (ok_same _ t' e) record {
  waiters = h.waiters;
  waits = wake-Waits 1 (counts t.counted) h.waiters k t.latch h.waits;
  known = h.known;
  later = h.later;
}
step-Known resume_act t t' e h = subst Known (ok_same _ t' e) record {
  waiters = h.waiters;
  waits = go_on-Waits 1 (counts t.counted) h.waiters t.latch t.latch.woken refl h.waits;
  known = h.known;
  later = h.later;
}
step-Known join_act t t' e h =
    let (u, there, e1) = bind-ok (assert t.started) _ t' e in
    let (v, first, e2) = bind-ok (assert (not t.joined)) _ t' e1 in
    subst Known (ok_same _ t' e2)
      record { waiters = h.waiters; waits = h.waits; known = h.known; later = h.later }

run-Known : (acts : List Act) (t t' : Thread) → run acts t ≡ ok t' → Known t → Known t'
unfolding run
run-Known [] t t' e h = subst Known (ok_same t t' e) h
run-Known (a ∷ acts) t t' e h =
    let (t1, e1, e2) = bind-ok (step a t) _ t' e in run-Known acts t1 t' e2 (step-Known a t t1 e1 h)

start_Known : Known new_thread
unfolding Latch.run
start_Known = record { waiters = 0; waits = run-Waits 1 []; known = refl; later = refl }

-- In any run of a new thread, with spurious wake-ups: once the wait in `start` has returned, the
-- thread's number is known, so that the assertion at the end of `start` holds, and nobody sleeps at
-- the latch.
pub run-check_tid :
    (acts : List Act) (t : Thread)
    → run acts new_thread ≡ ok t
    → 0 < length t.latch.returned
    → (check_tid t ≡ ok t) × (t.latch.sleeping ≡ [])
unfolding check_tid
run-check_tid acts t e r =
    let h = run-Known acts new_thread t e start_Known in
    let counted : t.counted ≡ true = elim (Bool-cases t.counted) [
      | inl p ↦ p
      | inr p ↦ absurd (omega (arith, r, ap (length {A = ℕ}) (h.waits.closed (ground (arith, p)))))
    ] in
    let begun : t.begun ≡ true = ground (arith, h.later, counted) in
    (ap (λ b. assert b >> ok t) (h.known ∙ begun), h.waits.opened (ground (arith, counted)))
