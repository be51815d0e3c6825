-- ===== src/Timers/Running.antt =====
-- Net/TimerQueue.cpp: while expired timers run, their callbacks add and cancel timers.
use ioloop.Prelude.{
  ℕ, ◌+◌, ◌≡◌, refl, sym, subst, List, [], ◌∷◌, ok, arith, Bool, false, Bool-cases, inl, inr,
}
use ioloop.Timers.{
  is_earliest, Timer, TimerId, id_of, Queue, add_entry, reset_timer, update, add_timer,
  add_timer_in_this_thread, new_timer, Call, add_call, cancel_call, run_call, run_calls, run_all,
}
use ioloop.Timers.Order.{add_entry-Agree, has_address, Agree, insert-Agree, has_address-add_entry}
use ioloop.Timers.Cancel.{cancel_in_this_thread-Agree}

-- No timer of the first list is at an address of the second.
abbrev pub Apart : List Timer → List Timer → Type 0
Apart [] ts = Unit {0}
Apart (u ∷ us) ts = (has_address u.address ts ≡ false) × Apart us ts

-- `new` gives an address that no live timer has.
abbrev pub CallFresh : List Timer → Call → Queue → Type 0
CallFresh running (add_call address callback when interval repeat now) q =
    (has_address address q.timers ≡ false) × (has_address address running ≡ false)
CallFresh running (cancel_call i) q = Unit {0}

abbrev pub CallsFresh : List Timer → List Call → Queue → Type 0
CallsFresh running [] q = Unit {0}
CallsFresh running (c ∷ cs) q =
    CallFresh running c q × ((q' : Queue) → run_call c q ≡ ok q' → CallsFresh running cs q')

abbrev pub AllFresh : (ℕ → List Call) → List Timer → List Timer → Queue → Type 0
AllFresh callbacks running [] q = Unit {0}
AllFresh callbacks running (t ∷ ts) q =
    CallsFresh running (callbacks t.callback) q
    × ((q' : Queue) → run_calls (callbacks t.callback) q ≡ ok q' → AllFresh callbacks running ts q')

-- What holds between two calls while expired timers run.
pub record Running (running : List Timer) (q : Queue) : Type 0 where
  pub agree : Agree q.timers q.active
  pub apart : Apart running q.timers

pub Apart-add_entry :
    (us : List Timer) (t : Timer) (ts : List Timer)
    → Apart us ts
    → has_address t.address us ≡ false
    → Apart us (add_entry t ts)
Apart-add_entry [] t ts a n = tt
Apart-add_entry (u ∷ us) t ts a n = (
  ground (arith, has_address-add_entry u.address t ts, a.0, n),
  Apart-add_entry us t ts a.1 (ground (arith, n)),
)

Apart-fewer :
    (us ts ts' : List Timer)
    → Apart us ts
    → ((a : ℕ) → has_address a ts ≡ false → has_address a ts' ≡ false)
    → Apart us ts'
Apart-fewer [] ts ts' a h = tt
Apart-fewer (u ∷ us) ts ts' a h = (h u.address a.0, Apart-fewer us ts ts' a.1 h)

pub reset_timer_keeps :
    (when now : ℕ) (q : Queue)
    → ((reset_timer when now q).timers ≡ q.timers)
      × ((reset_timer when now q).active ≡ q.active)
      × ((reset_timer when now q).canceling ≡ q.canceling)
unfolding reset_timer update
reset_timer_keeps when now q = (refl, refl, refl)

add_timer_in_this_thread_lem :
    (t : Timer) (now : ℕ) (q : Queue)
    → Agree q.timers q.active
    → has_address t.address q.timers ≡ false
    → (q' : Queue) × (add_timer_in_this_thread t now q ≡ ok q')
      × (q'.timers ≡ add_entry t q.timers)
      × (q'.active ≡ id_of t ∷ q.active)
unfolding add_timer_in_this_thread
add_timer_in_this_thread_lem t now q w n =
    let (e, _) = insert-Agree t {q = q} w n in
    let after : Queue = record q { timers = add_entry t q.timers; active = id_of t ∷ q.active } in
    let (k, l, _) = reset_timer_keeps t.expiration now after in
    elim (Bool-cases (is_earliest t.expiration q.timers)) [
      | inl p ↦ (reset_timer t.expiration now after, ground (arith, e, p), k, l)
      | inr p ↦ (after, ground (arith, e, p), refl, refl)
    ]

add_timer-Running :
    (running : List Timer) (address callback when interval : ℕ) (repeat : Bool) (now : ℕ)
    (q : Queue)
    → Running running q
    → has_address address q.timers ≡ false
    → has_address address running ≡ false
    → (i : TimerId) × (q' : Queue) × (add_timer address callback when interval repeat now q
        ≡ ok (i, q'))
      × Running running q'
unfolding add_timer
add_timer-Running running address callback when interval repeat now q r n m =
    let t = new_timer address callback when interval repeat (1 + q.created) in
    let (q', e, ts, is) =
      add_timer_in_this_thread_lem t now (record q { created = 1 + q.created }) r.agree n in
    (
      id_of t,
      q',
      ground (arith, e),
      record {
        agree =
            subst (λ x. Agree x q'.active) (sym ts)
              (subst (Agree (add_entry t q.timers)) (sym is) (add_entry-Agree t r.agree n));
        apart = subst (Apart running) (sym ts) (Apart-add_entry running t q.timers r.apart m);
      },
    )

run_call-Running :
    (running : List Timer) (c : Call) (q : Queue)
    → Running running q
    → CallFresh running c q
    → (q' : Queue) × (run_call c q ≡ ok q') × Running running q'
unfolding run_call
run_call-Running running (add_call address callback when interval repeat now) q r f =
    let (i, q', e, r') =
      add_timer-Running running address callback when interval repeat now q r f.0 f.1 in
    (q', ground (arith, e), r')
run_call-Running running (cancel_call i) q r f =
    let (q', e, w, _, _, k) = cancel_in_this_thread-Agree i q r.agree in
    (q', e, record { agree = w; apart = Apart-fewer running q.timers q'.timers r.apart k })

run_calls-Running :
    (running : List Timer) (cs : List Call) (q : Queue)
    → Running running q
    → CallsFresh running cs q
    → (q' : Queue) × (run_calls cs q ≡ ok q') × Running running q'
unfolding run_calls
run_calls-Running running [] q r f = (q, refl, r)
run_calls-Running running (c ∷ cs) q r f =
    let (q₁, e₁, r₁) = run_call-Running running c q r f.0 in
    let (q₂, e₂, r₂) = run_calls-Running running cs q₁ r₁ (f.1 q₁ e₁) in
    (q₂, ground (arith, e₁, e₂), r₂)

pub run_all-Running :
    (callbacks : ℕ → List Call) (running ts : List Timer) (q : Queue)
    → Running running q
    → AllFresh callbacks running ts q
    → (q' : Queue) × (run_all callbacks ts q ≡ ok q') × Running running q'
unfolding run_all
run_all-Running callbacks running [] q r f = (q, refl, r)
run_all-Running callbacks running (t ∷ ts) q r f =
    let (q₁, e₁, r₁) = run_calls-Running running (callbacks t.callback) q r f.0 in
    let (q₂, e₂, r₂) = run_all-Running callbacks running ts q₁ r₁ (f.1 q₁ e₁) in
    (q₂, ground (arith, e₁, e₂), r₂)
