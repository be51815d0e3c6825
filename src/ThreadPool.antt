-- ===== src/ThreadPool.antt =====
-- Net/ThreadPool.h and Net/ThreadPool.cpp: a queue of tasks that worker threads run. Every step is
-- what one thread does while it holds the mutex, or one test of `runing_`; the order of the steps
-- is any. A task is a number.
pub mod Tasks
pub mod Stopping
mod Tests
use ioloop.Prelude.Int.{ℤ, pos, negsuc, pos_part}
use ioloop.Prelude.{
  Result, ok, err, assert, ◌>>=◌, ◌>>◌, ◌≡◌, ℕ, suc, zero, ◌+◌, List, [], ◌∷◌, ◌++◌, Option, none,
  some, Bool, true, false, ◌&&◌, not, ltb, ◌==◌, if◌then◌else◌, length,
}

-- What a worker does next: test `runing_`, enter `take`, wait in it for a task, end the task that
-- it runs, nothing more, or abort the program, since the empty task that it took throws.
pub data Worker : Type 0 where
  testing taking waiting finished aborted : Worker
  busy : ℕ → Worker

pub record Pool : Type 0 where
  pub max_queue_size : ℕ
  pub queue : List ℕ
  pub running : Bool
  pub workers : List Worker
  -- The tasks of the callers that wait in `post`.
  pub blocked : List ℕ
  -- The tasks that workers have taken.
  pub taken : List ℕ

unfoldable pub new_pool : Pool
new_pool = record {
  max_queue_size = 0;
  queue = [];
  running = false;
  workers = [];
  blocked = [];
  taken = [];
}

-- `setmaxQueueSize`; a limit below 1 is none, as 0 is.
unfoldable pub set_max_queue_size : ℤ → Pool → Pool
set_max_queue_size max p = record p { max_queue_size = pos_part max }

abbrev pub is_testing : Worker → Bool
is_testing testing = true
is_testing _ = false

abbrev pub is_taking : Worker → Bool
is_taking taking = true
is_taking _ = false

abbrev pub is_waiting : Worker → Bool
is_waiting waiting = true
is_waiting _ = false

abbrev pub is_busy : Worker → Bool
is_busy (busy t) = true
is_busy _ = false

-- Whether worker `i` is in such a state.
abbrev pub holds_at : (Worker → Bool) → ℕ → List Worker → Bool
holds_at f i [] = false
holds_at f zero (w ∷ ws) = f w
holds_at f (suc i) (w ∷ ws) = holds_at f i ws

abbrev pub set_at : ℕ → Worker → List Worker → List Worker
set_at i v [] = []
set_at zero v (w ∷ ws) = v ∷ ws
set_at (suc i) v (w ∷ ws) = w ∷ set_at i v ws

abbrev pub when : Bool → Pool → Option Pool
when true p = some p
when false p = none

abbrev pub is_full : Pool → Bool
is_full p = ltb 0 p.max_queue_size && p.max_queue_size == length p.queue

-- `start`: so many workers, or as many as the machine has cores.
abbrev pub worker_count : ℤ → ℕ → ℕ
worker_count (pos zero) cores = cores
worker_count (pos (suc n)) cores = suc n
worker_count (negsuc n) cores = cores

abbrev pub new_workers : ℕ → List Worker
new_workers zero = []
new_workers (suc n) = testing ∷ new_workers n

abbrev is_empty : List Worker → Bool
is_empty [] = true
is_empty (w ∷ ws) = false

pub start : ℤ → ℕ → Pool → Result Pool
start thread_num cores p = do
  assert (is_empty p.workers)
  ok (record p { running = true; workers = new_workers (worker_count thread_num cores) })

-- `post` throws when the pool has stopped, and waits while the queue is full.
pub post : ℕ → Pool → Pool
post task p =
    if p.running
    then if is_full p
      then record p { blocked = p.blocked ++ task ∷ [] }
      else record p { queue = p.queue ++ task ∷ [] }
    else p

-- A caller that waits in `post` goes on once there is room.
pub resume : List ℕ → Pool → Option Pool
resume [] p = none
resume (task ∷ blocked) p =
    when (ltb (length p.queue) p.max_queue_size)
      (record p { queue = p.queue ++ task ∷ []; blocked = blocked })

-- The rest of `take`, from the test of its loop on.
pub take_task : ℕ → List ℕ → Pool → Pool
take_task i [] p =
    if p.running
    then record p { workers = set_at i waiting p.workers }
    else record p { workers = set_at i aborted p.workers }
take_task i (task ∷ queue) p = record p {
  queue = queue;
  taken = p.taken ++ task ∷ [];
  workers = set_at i (busy task) p.workers;
}

-- `notEmpty_.wait` returns when its predicate holds: the queue is not empty.
pub wake : ℕ → List ℕ → Pool → Option Pool
unfolding take_task
wake i [] p = none
wake i (task ∷ queue) p = some (take_task i (task ∷ queue) p)

pub stop : Pool → Option Pool
stop p = when p.running (record p { running = false })

-- The destructor.
unfoldable pub destroy : Pool → Option Pool
unfolding stop
destroy p = if p.running then stop p else some p

pub data Act : Type 0 where
  post_act : ℕ → Act
  resume_act stop_act : Act
  test_act take_act wake_act end_act : ℕ → Act

pub step : Act → Pool → Option Pool
unfolding post resume take_task wake stop
step (post_act task) p = some (post task p)
step resume_act p = resume p.blocked p
step stop_act p = stop p
step (test_act i) p =
    when (holds_at is_testing i p.workers)
      (record p { workers = set_at i (if p.running then taking else finished) p.workers })
step (take_act i) p = when (holds_at is_taking i p.workers) (take_task i p.queue p)
step (wake_act i) p = if holds_at is_waiting i p.workers then wake i p.queue p else none
step (end_act i) p =
    when (holds_at is_busy i p.workers) (record p { workers = set_at i testing p.workers })

pub data Run (p : Pool) : Pool → Type 0 where
  here : Run p p
  next : {q : Pool} {r : Pool} (a : Act) → Run p q → step a q ≡ some r → Run p r
