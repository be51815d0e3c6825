-- ===== src/Timers/Tests.antt =====
-- Net/TimerQueue.cpp: the theorems on a queue of two timers.
use ioloop.Prelude.{ℕ, List, [], ◌∷◌, some, true, false}
use ioloop.Timers.{Timer, Queue, new_timer, Call, cancel_call}

abbrev ticking : Timer
ticking = new_timer 100 7 10 5 true 1

abbrev single : Timer
single = new_timer 200 8 20 0 false 2

abbrev queue : Queue
queue = record {
  timers = ticking ∷ single ∷ [];
  active = (200, 2) ∷ (100, 1) ∷ [];
  calling_expired = false;
  canceling = [];
  created = 2;
  armed = some 0;
}

-- Every callback cancels the first timer.
abbrev calls : ℕ → List Call
calls callback = cancel_call (100, 1) ∷ []

abbrev third : Timer
third = new_timer 300 9 5 0 false 3
