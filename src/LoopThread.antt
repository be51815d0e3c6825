-- ===== src/LoopThread.antt =====
-- Net/IOLoopThread.h and Net/IOLoopThread.cpp: the thread of a loop, and the thread that starts and
-- stops it. A step is what one of the two does under the mutex, or between two waits; `address` is
-- that of the IOLoop, which lives on the stack of `threadFunc`.
use ioloop.Prelude.{
  ℕ, zero, suc, ◌+◌, ◌<◌, ◌≤◌, ◌≡◌, ◌⊎◌, inl, inr, refl, sym, ap, ◌∙◌, subst, List, [], ◌∷◌, Option,
  none, some, Bool, true, false, not, ◌&&◌, if◌then◌else◌, arith,
}
pub mod Stages
pub mod Handshake
mod Tests

-- Where `threadFunc` stands: its thread is not started, it makes its loop, it runs it, it is over.
pub data Phase : Type 0 where
  unborn making looping over : Phase

-- Where the owner stands: it has not called `start`, is about to test `loop_` in it, sleeps in the
-- wait, has what it returned, joins the thread in `stop`, or has returned from `stop`.
pub data Owner : Type 0 where
  outside awake asleep : Owner
  holding : Option ℕ → Owner
  joining stopped : Owner

pub record LoopThread : Type 0 where
  pub started : Bool
  pub loop : Option ℕ
  pub phase : Phase
  pub owner : Owner
  -- Whether `quit` of the loop was called.
  pub quits : Bool

abbrev pub new_loop_thread : LoopThread
new_loop_thread = record {
  started = false;
  loop = none;
  phase = unborn;
  owner = outside;
  quits = false;
}

-- `start` up to the test of its loop. Its assertions hold where no step is refused.
unfoldable pub start : Owner → Phase → LoopThread → Option LoopThread
start outside unborn t =
    if t.started then none else some (record t { started = true; phase = making; owner = awake })
start _ _ t = none

-- `while (!loop_)`, where the owner goes to sleep or leaves the loop.
unfoldable pub test : Owner → Option ℕ → LoopThread → Option LoopThread
test awake (some l) t = some (record t { owner = holding (some l) })
test awake none t = some (record t { owner = asleep })
test _ _ t = none

-- A wake-up without a notification.
unfoldable pub wake : Owner → LoopThread → Option LoopThread
wake asleep t = some (record t { owner = awake })
wake _ t = none

-- `condition_.notify_one()`
abbrev pub notify_one : Owner → Owner
notify_one asleep = awake
notify_one o = o

-- `stop` up to its join.
unfoldable pub stop : Owner → Option ℕ → LoopThread → Option LoopThread
stop (holding h) (some l) t = some (record t { started = false; owner = joining; quits = true })
stop (holding h) none t = some (record t { started = false; owner = stopped })
stop _ _ t = none

-- The join in `stop` returns.
unfoldable pub join : Owner → Phase → LoopThread → Option LoopThread
join joining over t = some (record t { owner = stopped })
join _ _ t = none

-- The destructor, up to the join in its `stop`.
unfoldable pub destroy : LoopThread → Option LoopThread
unfolding stop
destroy t = if t.started then stop t.owner t.loop t else some t

-- `threadFunc` sets `loop_` and notifies.
unfoldable pub publish : ℕ → Phase → LoopThread → Option LoopThread
publish address making t =
    some (record t { loop = some address; phase = looping; owner = notify_one t.owner })
publish address _ t = none

-- The loop has ended, and so does `threadFunc`.
unfoldable pub finish : Phase → LoopThread → Option LoopThread
finish looping t = if t.quits then some (record t { loop = none; phase = over }) else none
finish _ t = none

pub data Act : Type 0 where
  start_act test_act wake_act stop_act join_act publish_act finish_act : Act

unfoldable pub step : ℕ → Act → LoopThread → Option LoopThread
step address start_act t = start t.owner t.phase t
step address test_act t = test t.owner t.loop t
step address wake_act t = wake t.owner t
step address stop_act t = stop t.owner t.loop t
step address join_act t = join t.owner t.phase t
step address publish_act t = publish address t.phase t
step address finish_act t = finish t.phase t

-- An act that cannot happen is passed over.
abbrev pub or_same : LoopThread → Option LoopThread → LoopThread
or_same t none = t
or_same t (some t') = t'

unfoldable pub run : ℕ → List Act → LoopThread → LoopThread
run address [] t = t
run address (a ∷ acts) t = run address acts (or_same t (step address a t))
