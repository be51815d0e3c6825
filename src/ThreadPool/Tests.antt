-- ===== src/ThreadPool/Tests.antt =====
-- Net/ThreadPool.cpp: the theorems on small pools.
use ioloop.Prelude.{◌≡◌, refl, [], ◌∷◌, some, true, false}
use ioloop.ThreadPool.{
  Pool, taking, waiting, aborted, busy, Run, here, next, post_act, take_act, step, post, take_task,
}
use ioloop.ThreadPool.Tasks.{Kept, all_added, Run-Kept}
use ioloop.ThreadPool.Stopping.{Lost, Run-Lost}

abbrev idle : Pool
idle = record {
  max_queue_size = 2;
  queue = [];
  running = true;
  workers = taking ∷ waiting ∷ [];
  blocked = [];
  taken = [];
}

abbrev loaded : Pool
loaded = record idle { queue = 5 ∷ [] }

abbrev working : Pool
working = record idle { workers = busy 5 ∷ waiting ∷ []; taken = 5 ∷ [] }

posts : step (post_act 5) idle ≡ some loaded
unfolding step post
posts = refl

takes : step (take_act 0) loaded ≡ some working
unfolding step take_task
takes = refl

two_steps : Run idle working
two_steps = next (take_act 0) (next (post_act 5) here posts) takes

Run-Kept_example : Kept idle (all_added two_steps) working
Run-Kept_example = Run-Kept two_steps

abbrev stopped : Pool
stopped = record idle { running = false }

abbrev left : Pool
left = record stopped { workers = aborted ∷ waiting ∷ [] }

leaves : step (take_act 0) stopped ≡ some left
unfolding step take_task
leaves = refl

Run-Lost_example : Lost 1 left
Run-Lost_example =
    Run-Lost 1 (next (take_act 0) here leaves)
      (record { stopped = refl; empty = refl; unblocked = refl; waits = refl })
