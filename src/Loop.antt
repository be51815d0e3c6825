-- ===== src/Loop.antt =====
-- Net/IOLoop.h and Net/IOLoop.cpp: one loop, with its timers. A function is its number; those that
-- were posted to the io_context and wait are in `posted`, and those that ran in `ran`. A thread is its
-- number too, and the clock and the addresses of timers are arguments, as in Timers.
use ioloop.Prelude.{
  suc, take, drop, get_elem?, ℕ, ◌+◌, List, [], ◌∷◌, ◌++◌, Option, none, some, Result, ok, err,
  assertion, ◌>>=◌, ◌>>◌, Bool, true, false, ltb, ◌==◌, if◌then◌else◌,
}
use ioloop.Timers
use ioloop.Timers.{
  Timer, TimerId, id_of, new_timer, new_queue, add_time, add_timer_in_this_thread,
  cancel_in_this_thread,
}
pub mod Kept
mod Tests

pub data Task : Type 0 where
  func_task : ℕ → Task
  add_timer_task : Timer → Task
  cancel_task : TimerId → Task
  quit_task : Task

-- A function that ran: at once, in a `dispatch` on the loop's thread, or in its turn.
pub data Run : Type 0 where
  at_once in_turn : ℕ → Run

-- `has_work` is the work guard, and `stopped` says that the io_context was stopped.
pub record Loop : Type 0 where
  pub thread : ℕ
  pub quits : Bool
  pub has_work : Bool
  pub stopped : Bool
  pub posted : List Task
  pub ran : List Run
  pub timers : Timers.Queue

-- The constructor, on a thread that may have another loop already: LOG(FATAL) ends the program.
unfoldable pub new_loop : ℕ → Bool → Result Loop
new_loop tid has_loop =
    if has_loop
    then err assertion
    else ok (record {
      thread = tid;
      quits = false;
      has_work = true;
      stopped = false;
      posted = [];
      ran = [];
      timers = new_queue;
    })

abbrev pub is_in_loop_thread : ℕ → Loop → Bool
is_in_loop_thread tid l = tid == l.thread

-- `assertInLoopThread`, which ends the program by LOG(FATAL).
abbrev pub assert_in_loop_thread : ℕ → Loop → Result (Unit {0})
assert_in_loop_thread tid l = if is_in_loop_thread tid l then ok tt else err assertion

unfoldable pub post : Task → Loop → Loop
post task l = record l { posted = l.posted ++ task ∷ [] }

unfoldable pub quit : Loop → Loop
unfolding post
quit l = post quit_task (record l { quits = true })

unfoldable pub quit_in_this_thread : ℕ → Loop → Result Loop
quit_in_this_thread tid l = do
  assert_in_loop_thread tid l
  ok (record l { has_work = false; stopped = true })

-- What a posted function does on the loop's thread.
unfoldable pub run_task : ℕ → Task → Loop → Result Loop
run_task now (func_task cb) l = ok (record l { ran = l.ran ++ in_turn cb ∷ [] })
run_task now (add_timer_task t) l = do
  timers ← add_timer_in_this_thread t now l.timers
  ok (record l { timers = timers })
run_task now (cancel_task id) l = do
  timers ← cancel_in_this_thread id l.timers
  ok (record l { timers = timers })
run_task now quit_task l = quit_in_this_thread l.thread l

-- The function of a `dispatch` on the loop's thread.
unfoldable pub run_at_once : ℕ → Task → Loop → Result Loop
unfolding run_task
run_at_once now (func_task cb) l = ok (record l { ran = l.ran ++ at_once cb ∷ [] })
run_at_once now (add_timer_task t) l = run_task now (add_timer_task t) l
run_at_once now (cancel_task id) l = run_task now (cancel_task id) l
run_at_once now quit_task l = run_task now quit_task l

unfoldable pub dispatch : ℕ → ℕ → Task → Loop → Result Loop
unfolding post
dispatch tid now task l =
    if is_in_loop_thread tid l then run_at_once now task l else ok (post task l)

-- `TimerQueue::addTimer`, from any thread.
unfoldable pub add_timer : ℕ → ℕ → ℕ → ℕ → ℕ → ℕ → Loop → Result (TimerId × Loop)
add_timer tid address cb when interval now l = do
  let t = new_timer address cb when interval (ltb 0 interval) (1 + l.timers.created)
  l' ←
      dispatch tid now (add_timer_task t)
        (record l { timers = record l.timers { created = 1 + l.timers.created } })
  ok (id_of t, l')

unfoldable pub run_at : ℕ → ℕ → ℕ → ℕ → ℕ → Loop → Result (TimerId × Loop)
run_at tid address when cb now l = add_timer tid address cb when 0 now l

unfoldable pub run_after : ℕ → ℕ → ℕ → ℕ → ℕ → Loop → Result (TimerId × Loop)
run_after tid address delay cb now l = run_at tid address (add_time now delay) cb now l

unfoldable pub run_every : ℕ → ℕ → ℕ → ℕ → ℕ → Loop → Result (TimerId × Loop)
run_every tid address interval cb now l =
    add_timer tid address cb (add_time now interval) interval now l

unfoldable pub cancel : ℕ → ℕ → TimerId → Loop → Result Loop
cancel tid now id l = dispatch tid now (cancel_task id) l

-- The functions of `ioContext_.run()`, in an order that the io_context chooses: `picks` are the places
-- of those that run next among those that wait then. It ends once the io_context is stopped; with
-- none left it waits for more.
abbrev pub without : ℕ → List Task → List Task
without k tasks = take k tasks ++ drop (suc k) tasks

abbrev pub run_picked : ℕ → Option Task → Loop → Result Loop
run_picked now none l = ok l
run_picked now (some task) l = run_task now task l

unfoldable pub run_all : ℕ → List ℕ → Loop → Result Loop
run_all now [] l = ok l
run_all now (k ∷ picks) l = if l.stopped then ok l else (do
  l' ← run_picked now (get_elem? l.posted k) (record l { posted = without k l.posted })
  run_all now picks l')

unfoldable pub loop : ℕ → ℕ → List ℕ → Loop → Result Loop
loop tid now picks l = do assert_in_loop_thread tid l; run_all now picks l

-- The destructor.
unfoldable pub destroy : Loop → Loop
destroy l = if l.quits then l else quit l
