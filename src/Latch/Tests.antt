-- ===== src/Latch/Tests.antt =====
-- Net/CountDownLatch.h: the theorems at a concrete run: two threads wait for two calls, and one of
-- them is woken too early.
use ioloop.Prelude.{◌≡◌, List, [], ◌∷◌, length, arith}
use ioloop.Prelude.Int.{pos}
use ioloop.Latch.{new_latch, Act, wait_act, wake_act, go_on_act, count_down_act, run}
use ioloop.Latch.Waits.{go_all, run-opens}

abbrev acts : List Act
acts = wait_act 1 ∷ wait_act 2 ∷ wake_act 0 ∷ count_down_act ∷ go_on_act ∷ count_down_act ∷ []

run-opens_example :
    length
      (run (go_all (run acts (new_latch (pos 2))).woken) (run acts (new_latch (pos 2)))).returned
    ≡ 2
run-opens_example = run-opens 2 acts (omega arith)
