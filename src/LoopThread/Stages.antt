-- ===== src/LoopThread/Stages.antt =====
-- Net/IOLoopThread.cpp: the states that the two threads go through, and what the owner relies on.
use ioloop.Prelude.{ℕ, ◌≡◌, none, some, true, false, arith}
use ioloop.LoopThread.{
  making, looping, over, awake, asleep, holding, joining, stopped, LoopThread, new_loop_thread,
  start, test, wake, stop, join, publish, finish, Act, start_act, test_act, wake_act, stop_act,
  join_act, publish_act, finish_act, step, or_same,
}

-- The protocol: nothing is started, the thread makes its loop
-- and the owner is about to test or sleeps, the loop runs and `start` has not
-- seen it, `start` has returned, `stop` has asked the loop to quit, the loop has ended, and `stop`
-- has returned.
pub data Stage : Type 0 where
  fresh begun slept running held asked ended done : Stage

abbrev pub state : ℕ → Stage → LoopThread
state l fresh = new_loop_thread
state l begun = record { started = true; loop = none; phase = making; owner = awake; quits = false }
state l slept = record {
  started = true;
  loop = none;
  phase = making;
  owner = asleep;
  quits = false;
}
state l running = record {
  started = true;
  loop = some l;
  phase = looping;
  owner = awake;
  quits = false;
}
state l held = record {
  started = true;
  loop = some l;
  phase = looping;
  owner = holding (some l);
  quits = false;
}
state l asked = record {
  started = false;
  loop = some l;
  phase = looping;
  owner = joining;
  quits = true;
}
state l ended = record { started = false; loop = none; phase = over; owner = joining; quits = true }
state l done = record { started = false; loop = none; phase = over; owner = stopped; quits = true }

-- Where an act leads from a stage.
abbrev pub after : Stage → Act → Stage
after fresh start_act = begun
after begun test_act = slept
after begun publish_act = running
after slept wake_act = begun
after slept publish_act = running
after running test_act = held
after held stop_act = asked
after asked finish_act = ended
after ended join_act = done
after s _ = s

pub step-stage :
    (l : ℕ) (s : Stage) (a : Act) → or_same (state l s) (step l a (state l s)) ≡ state l (after s a)
unfolding step start test wake stop join publish finish
step-stage l fresh a = ground arith
step-stage l begun a = ground arith
step-stage l slept a = ground arith
step-stage l running a = ground arith
step-stage l held a = ground arith
step-stage l asked a = ground arith
step-stage l ended a = ground arith
step-stage l done a = ground arith
