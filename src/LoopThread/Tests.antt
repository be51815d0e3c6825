-- ===== src/LoopThread/Tests.antt =====
-- Net/IOLoopThread.cpp: the theorems at a concrete run, with a wake-up that comes too early.
use ioloop.Prelude.{◌≡◌, refl, List, [], ◌∷◌, ◌++◌, some}
use ioloop.LoopThread.{
  new_loop_thread, holding, Act, start_act, test_act, wake_act, publish_act, start, test, wake,
  publish, step, run,
}
use ioloop.LoopThread.Handshake.{Runs, run-Runs, start_returns}

abbrev early : List Act
early = start_act ∷ test_act ∷ wake_act ∷ test_act ∷ publish_act ∷ test_act ∷ []

run-Runs_example : Runs 77 (some 77) (run 77 early new_loop_thread)
unfolding run step start test wake publish
run-Runs_example = run-Runs 77 early (some 77) refl

start_returns_example :
    (run 77
      ([] ++ start_act ∷ ((test_act ∷ []) ++ publish_act ∷ ([] ++ test_act ∷ [])))
      new_loop_thread).owner
    ≡ holding (some 77)
start_returns_example = start_returns 77 [] (test_act ∷ []) [] [] refl
