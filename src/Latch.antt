-- ===== src/Latch.antt =====
-- Net/CountDownLatch.h: a count and the threads that wait until it is zero. A step is what one thread
-- does under the mutex. A thread is its number; the count is an int, which stays in its range for
-- fewer than 2^31 calls of countDown.
use ioloop.Prelude.{
  ℕ, suc, ◌+◌, List, [], ◌∷◌, ◌++◌, Bool, true, false, ◌==◌, if◌then◌else◌, take, drop,
}
use ioloop.Prelude.Int.{ℤ, pos, ◌-ℤ◌, ltb_ℤ}
pub mod Waits
mod Tests

-- The threads in `condition_.wait`, those that it has woken, and those that returned from `wait`.
pub record Latch : Type 0 where
  pub count : ℤ
  pub sleeping : List ℕ
  pub woken : List ℕ
  pub returned : List ℕ

abbrev pub new_latch : ℤ → Latch
new_latch count = record { count = count; sleeping = []; woken = []; returned = [] }

-- The test of the loop in `wait`.
unfoldable pub wait : ℕ → Latch → Latch
wait thread l =
    if ltb_ℤ (pos 0) l.count
    then record l { sleeping = l.sleeping ++ thread ∷ [] }
    else record l { returned = l.returned ++ thread ∷ [] }

-- A thread that was woken tests again.
unfoldable pub go_on : List ℕ → Latch → Latch
unfolding wait
go_on [] l = l
go_on (thread ∷ woken) l = wait thread (record l { woken = woken })

-- A wake-up without a notification, of the thread at place `k`.
unfoldable pub wake : ℕ → Latch → Latch
wake k l = record l {
  sleeping = take k l.sleeping ++ drop (suc k) l.sleeping;
  woken = l.woken ++ take 1 (drop k l.sleeping);
}

abbrev pub is_zero : ℤ → Bool
is_zero (pos n) = n == 0
is_zero _ = false

abbrev pub notify_all : Latch → Latch
notify_all l = record l { sleeping = []; woken = l.woken ++ l.sleeping }

unfoldable pub count_down : Latch → Latch
count_down l =
    let l' = record l { count = l.count -ℤ pos 1 } in if is_zero l'.count then notify_all l' else l'

unfoldable pub get_count : Latch → ℤ
get_count l = l.count

pub data Act : Type 0 where
  wait_act wake_act : ℕ → Act
  go_on_act count_down_act : Act

unfoldable pub step : Act → Latch → Latch
unfolding wait go_on wake count_down
step (wait_act thread) l = wait thread l
step (wake_act k) l = wake k l
step go_on_act l = go_on l.woken l
step count_down_act l = count_down l

unfoldable pub run : List Act → Latch → Latch
run [] l = l
run (a ∷ acts) l = run acts (step a l)
