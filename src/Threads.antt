-- ===== src/Threads.antt =====
-- Net/Thread.h and Net/Thread.cpp: a thread and the thread that starts it, which waits for its number
-- at the latch. `begun` says that the new thread has stored its number, and `counted` that it has
-- counted the latch down after that.
use ioloop.Prelude.{
  ℕ, List, [], ◌∷◌, Option, none, some, Result, ok, assert, ◌>>=◌, ◌>>◌, Bool, true, false, not,
  ◌&&◌, if◌then◌else◌,
}
use ioloop.Prelude.Int.{pos}
use ioloop.Latch
use ioloop.Latch.{Latch, new_latch, wait, go_on, count_down}
pub mod Starting
mod Tests

pub record Thread : Type 0 where
  pub started : Bool
  pub joined : Bool
  pub detached : Bool
  pub begun : Bool
  pub counted : Bool
  pub tid : Option ℕ
  pub latch : Latch

abbrev pub new_thread : Thread
new_thread = record {
  started = false;
  joined = false;
  detached = false;
  begun = false;
  counted = false;
  tid = none;
  latch = new_latch (pos 1);
}

abbrev pub is_known : Option ℕ → Bool
is_known none = false
is_known (some id) = true

-- `start` up to its wait at the latch, on thread `caller`.
unfoldable pub start : ℕ → Thread → Result Thread
start caller t = do
  assert (not t.started)
  ok (record t { started = true; latch = wait caller t.latch })

-- The caller, woken, tests the latch again.
unfoldable pub resume : Thread → Thread
resume t = record t { latch = go_on t.latch.woken t.latch }

-- The assertion at the end of `start`.
unfoldable pub check_tid : Thread → Result Thread
check_tid t = do assert (is_known t.tid); ok t

-- `*tid_ = CurrentThread::tid()` of `runInThread`, on a thread with number `id`.
unfoldable pub store_tid : ℕ → Thread → Thread
store_tid id t = if t.started && not t.begun then record t { begun = true; tid = some id } else t

-- `latch_->countDown()` of `runInThread`, which comes next.
unfoldable pub count_latch : Thread → Thread
count_latch t =
    if t.begun && not t.counted then record t { counted = true; latch = count_down t.latch } else t

unfoldable pub join : Thread → Result Thread
join t = do assert t.started; assert (not t.joined); ok (record t { joined = true })

-- The destructor.
unfoldable pub destroy : Thread → Thread
destroy t = if t.started && not t.joined then record t { detached = true } else t

pub data Act : Type 0 where
  start_act tid_act wake_act : ℕ → Act
  count_act resume_act join_act : Act

unfoldable pub step : Act → Thread → Result Thread
unfolding start resume store_tid count_latch join
step (start_act caller) t = start caller t
step (tid_act id) t = ok (store_tid id t)
step count_act t = ok (count_latch t)
step (wake_act k) t = ok (record t { latch = Latch.wake k t.latch })
step resume_act t = ok (resume t)
step join_act t = join t

unfoldable pub run : List Act → Thread → Result Thread
run [] t = ok t
run (a ∷ acts) t = do t' ← step a t; run acts t'
