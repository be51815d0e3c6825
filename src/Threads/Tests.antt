-- ===== src/Threads/Tests.antt =====
-- Net/Thread.cpp: the theorem at a concrete run, in which the caller is woken too early.
use ioloop.Prelude.{◌≡◌, refl, List, [], ◌∷◌, ok, some, true, false, arith}
use ioloop.Prelude.Int.{pos}
use ioloop.Latch
use ioloop.Threads.{
  Thread, new_thread, Act, start_act, tid_act, count_act, wake_act, resume_act, check_tid, run,
  step, start, resume, store_tid, count_latch,
}
use ioloop.Threads.Starting.{run-check_tid}

abbrev acts : List Act
acts = start_act 1 ∷ wake_act 0 ∷ resume_act ∷ tid_act 7 ∷ resume_act ∷ count_act ∷ resume_act ∷ []

abbrev started : Thread
started = record {
  started = true;
  joined = false;
  detached = false;
  begun = true;
  counted = true;
  tid = some 7;
  latch = record { count = pos 0; sleeping = []; woken = []; returned = 1 ∷ [] };
}

runs : run acts new_thread ≡ ok started
unfolding run step start resume store_tid count_latch Latch.wait Latch.go_on Latch.wake
    Latch.count_down
runs = refl

run-check_tid_example : (check_tid started ≡ ok started) × (started.latch.sleeping ≡ [])
run-check_tid_example = run-check_tid acts started runs (omega arith)
