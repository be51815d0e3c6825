-- ===== src/LoopThread/Handshake.antt =====
-- Net/IOLoopThread.cpp: what `start` returns, and that it does.
use ioloop.Prelude.{
  ℕ, ◌<◌, ◌≤◌, ◌≡◌, refl, sym, ap, ◌∙◌, subst, List, [], ◌∷◌, ◌++◌, Option, some, Bool, false, ◌||◌,
  ◌==◌, arith,
}
use ioloop.LoopThread.{
  looping, holding, LoopThread, new_loop_thread, Act, start_act, test_act, wake_act, stop_act,
  join_act, publish_act, finish_act, run,
}
use ioloop.LoopThread.Stages.{
  Stage, fresh, begun, slept, running, held, asked, ended, done, state, after, step-stage,
}

abbrev pub stages : List Act → Stage → Stage
stages [] s = s
stages (a ∷ acts) s = stages acts (after s a)

abbrev pub rank : Stage → ℕ
rank fresh = 0
rank begun = 1
rank slept = 1
rank running = 2
rank held = 3
rank asked = 4
rank ended = 5
rank done = 6

-- The acts in the order of the protocol.
abbrev pub number : Act → ℕ
number start_act = 0
number publish_act = 1
number test_act = 2
number wake_act = 7
number stop_act = 3
number finish_act = 4
number join_act = 5

run-stages :
    (l : ℕ) (acts : List Act) (s : Stage) → run l acts (state l s) ≡ state l (stages acts s)
unfolding run
run-stages l [] s = refl
run-stages l (a ∷ acts) s = ap (run l acts) (step-stage l s a) ∙ run-stages l acts (after s a)

-- The loop that the owner holds is the one that the thread runs.
pub record Runs (l : ℕ) (h : Option ℕ) (t : LoopThread) : Type 0 where
  pub returned : h ≡ some l
  pub published : t.loop ≡ some l
  pub running : t.phase ≡ looping
  pub unasked : t.quits ≡ false

state_held :
    (l : ℕ) (s : Stage) (h : Option ℕ) → (state l s).owner ≡ holding h → Runs l h (state l s)
state_held l fresh h e = absurd (ground (arith, e))
state_held l begun h e = absurd (ground (arith, e))
state_held l slept h e = absurd (ground (arith, e))
state_held l running h e = absurd (ground (arith, e))
state_held l held h e = record {
  returned = ground (arith, e);
  published = refl;
  running = refl;
  unasked = refl;
}
state_held l asked h e = absurd (ground (arith, e))
state_held l ended h e = absurd (ground (arith, e))
state_held l done h e = absurd (ground (arith, e))

-- Whatever the order of the steps, what `start` has returned is the address of the loop of the
-- thread, never a null pointer, and that loop is running and is not asked to quit as long as the
-- owner has not called `stop`.
pub run-Runs :
    (l : ℕ) (acts : List Act) (h : Option ℕ)
    → (run l acts new_loop_thread).owner ≡ holding h
    → Runs l h (run l acts new_loop_thread)
run-Runs l acts h e =
    let at = run-stages l acts fresh in
    subst (Runs l h) (sym at)
      (state_held l (stages acts fresh) h (sym (ap (λ (t : LoopThread). t.owner) at) ∙ e))

next_on : (s : Stage) (a : Act) → rank s ≤ rank (after s a)
next_on fresh a = ground arith
next_on begun a = ground arith
next_on slept a = ground arith
next_on running a = ground arith
next_on held a = ground arith
next_on asked a = ground arith
next_on ended a = ground arith
next_on done a = ground arith

next_reaches : (s : Stage) (a : Act) → number a ≤ rank s → number a < rank (after s a)
next_reaches fresh a h = ground (arith, h)
next_reaches begun a h = ground (arith, h)
next_reaches slept a h = ground (arith, h)
next_reaches running a h = ground (arith, h)
next_reaches held a h = ground (arith, h)
next_reaches asked a h = ground (arith, h)
next_reaches ended a h = ground (arith, h)
next_reaches done a h = ground (arith, h)

stages_on : (acts : List Act) (s : Stage) → rank s ≤ rank (stages acts s)
stages_on [] s = omega arith
stages_on (a ∷ acts) s = omega (arith, next_on s a, stages_on acts (after s a))

stages-append : (xs ys : List Act) (s : Stage) → stages (xs ++ ys) s ≡ stages ys (stages xs s)
stages-append [] ys s = refl
stages-append (a ∷ xs) ys s = stages-append xs ys (after s a)

-- `start`, `publish` and the owner's test one after the other, with any other acts between them.
reaches_held :
    (a b c d : List Act)
    → 3 ≤ rank (stages (a ++ start_act ∷ (b ++ publish_act ∷ (c ++ test_act ∷ d))) fresh)
reaches_held a b c d =
    let s₁ = stages a fresh in
    let s₂ = stages b (after s₁ start_act) in
    let s₃ = stages c (after s₂ publish_act) in
    let e =
      stages-append a (start_act ∷ (b ++ publish_act ∷ (c ++ test_act ∷ d))) fresh
      ∙ stages-append b (publish_act ∷ (c ++ test_act ∷ d)) (after s₁ start_act)
      ∙ stages-append c (test_act ∷ d) (after s₂ publish_act) in
    let r₁ = next_reaches s₁ start_act (omega arith) in
    let r₂ = next_reaches s₂ publish_act (omega (arith, r₁, stages_on b (after s₁ start_act))) in
    let r₃ = next_reaches s₃ test_act (omega (arith, r₂, stages_on c (after s₂ publish_act))) in
    let r = stages_on d (after s₃ test_act) in omega (arith, r₃, r, ap rank e)

abbrev pub has_stop : List Act → Bool
has_stop [] = false
has_stop (a ∷ acts) = number a == 3 || has_stop acts

next_held : (s : Stage) (a : Act) → (number a == 3) ≡ false → rank s ≤ 3 → rank (after s a) ≤ 3
next_held fresh a h r = ground (arith, h)
next_held begun a h r = ground (arith, h)
next_held slept a h r = ground (arith, h)
next_held running a h r = ground (arith, h)
next_held held a h r = ground (arith, h)
next_held asked a h r = absurd (omega (arith, r))
next_held ended a h r = absurd (omega (arith, r))
next_held done a h r = absurd (omega (arith, r))

stages_held :
    (acts : List Act) (s : Stage) → has_stop acts ≡ false → rank s ≤ 3 → rank (stages acts s) ≤ 3
stages_held [] s h r = r
stages_held (a ∷ acts) s h r =
    stages_held acts (after s a) (ground (arith, h)) (next_held s a (ground (arith, h)) r)

is_held : (s : Stage) → rank s ≡ 3 → s ≡ held
is_held fresh r = absurd (omega (arith, r))
is_held begun r = absurd (omega (arith, r))
is_held slept r = absurd (omega (arith, r))
is_held running r = absurd (omega (arith, r))
is_held held r = refl
is_held asked r = absurd (omega (arith, r))
is_held ended r = absurd (omega (arith, r))
is_held done r = absurd (omega (arith, r))

-- `start` returns: once the owner has called it, the thread has set `loop_` and notified, and the
-- owner has had its turn to test after that, it holds the address of the loop, as long as it has not
-- called `stop`; whatever wake-ups and other steps come before, between and behind, and although the
-- owner may have gone to sleep, in which state it cannot test, before it was notified.
pub start_returns :
    (l : ℕ) (a b c d : List Act)
    → has_stop (a ++ start_act ∷ (b ++ publish_act ∷ (c ++ test_act ∷ d))) ≡ false
    → (run l (a ++ start_act ∷ (b ++ publish_act ∷ (c ++ test_act ∷ d))) new_loop_thread).owner
      ≡ holding (some l)
start_returns l a b c d h =
    let acts = a ++ start_act ∷ (b ++ publish_act ∷ (c ++ test_act ∷ d)) in
    let low = reaches_held a b c d in
    let high = stages_held acts fresh h (omega arith) in
    let at = is_held (stages acts fresh) (omega (arith, low, high)) in
    ap (λ (t : LoopThread). t.owner) (run-stages l acts fresh ∙ ap (state l) at)
