-- ===== src/Loop/Tests.antt =====
-- Net/IOLoop.cpp: the theorem at a loop with three posted functions, of which the last runs first.
use ioloop.Prelude.{[], ◌∷◌, true, false}
use ioloop.Timers.{new_queue}
use ioloop.Loop.{Loop, func_task, quit_task, in_turn}

abbrev waiting : Loop
waiting = record {
  thread = 1;
  quits = true;
  has_work = true;
  stopped = false;
  posted = func_task 5 ∷ quit_task ∷ func_task 5 ∷ [];
  ran = [];
  timers = new_queue;
}

abbrev ended : Loop
ended = record waiting {
  has_work = false;
  stopped = true;
  posted = func_task 5 ∷ [];
  ran = in_turn 5 ∷ [];
}
