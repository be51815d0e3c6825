-- ===== src/Timers.antt =====
-- Net/Timer.h, Net/Timer.cpp, Net/Timestamp.h, Net/Timestamp.cpp, Net/TimerQueue.h and
-- Net/TimerQueue.cpp: the timers of a loop. Times are microseconds since the epoch; every reading
-- of the clock is an argument, and so is the address at which `new` puts a timer.
pub mod Order
pub mod Cancel
pub mod Expiry
pub mod Running
pub mod Firing
mod Tests
use ioloop.Prelude.{
  out_of_range, ℕ, ◌+◌, ◌-◌, ◌*◌, ◌/◌, ◌^◌, ◌≡◌, List, [], ◌∷◌, ◌++◌, Option, none, some, Result,
  ok, err, assert, ◌>>=◌, ◌>>◌, Bool, true, false, ◌&&◌, ◌||◌, not, ltb, leb, ◌==◌, if◌then◌else◌,
  length,
}

-- `interval` is in microseconds, as `addTime` takes it, and `repeat` says that it was above zero.
pub record Timer : Type 0 where
  pub address : ℕ
  pub expiration : ℕ
  pub interval : ℕ
  pub repeat : Bool
  pub callback : ℕ
  pub sequence : ℕ

-- `Timestamp::invalid()`, and what `Timestamp()` makes.
abbrev pub invalid : ℕ
invalid = 0

abbrev pub is_valid : ℕ → Bool
is_valid t = ltb 0 t

abbrev pub micro_seconds_per_second : ℕ
micro_seconds_per_second = 1000 * 1000

pub add_time : ℕ → ℕ → ℕ
add_time t delta = t + delta

pub restart : ℕ → Timer → Timer
unfolding add_time
restart now t =
    if t.repeat
    then record t { expiration = add_time now t.interval }
    else record t { expiration = invalid }

-- A timer's address and sequence number: `ActiveTimer`, and what a `TimerId` holds.
abbrev pub TimerId : Type 0
TimerId = ℕ × ℕ

abbrev pub id_of : Timer → TimerId
id_of t = (t.address, t.sequence)

abbrev pub same_id : TimerId → TimerId → Bool
same_id (a, s) (b, u) = a == b && s == u

abbrev pub contains : TimerId → List TimerId → Bool
contains i [] = false
contains i (j ∷ js) = same_id i j || contains i js

abbrev pub remove_id : TimerId → List TimerId → List TimerId
remove_id i [] = []
remove_id i (j ∷ js) = if same_id i j then js else j ∷ remove_id i js

-- The order of `std::pair<Timestamp, Timer *>`.
abbrev pub before : ℕ → ℕ → ℕ → ℕ → Bool
before t a u b = ltb t u || (t == u && ltb a b)

abbrev pub add_entry : Timer → List Timer → List Timer
add_entry t [] = t ∷ []
add_entry t (u ∷ us) =
    let rest = add_entry t us in
    if before t.expiration t.address u.expiration u.address then t ∷ u ∷ us else u ∷ rest

abbrev pub is_entry : ℕ → ℕ → Timer → Bool
is_entry time address t = t.expiration == time && t.address == address

abbrev pub has_entry : ℕ → ℕ → List Timer → Bool
has_entry time address [] = false
has_entry time address (t ∷ ts) = is_entry time address t || has_entry time address ts

abbrev pub remove_entry : ℕ → ℕ → List Timer → List Timer
remove_entry time address [] = []
remove_entry time address (t ∷ ts) =
    if is_entry time address t then ts else t ∷ remove_entry time address ts

-- The timer behind an address.
abbrev pub timer_at : ℕ → List Timer → Option Timer
timer_at address [] = none
timer_at address (t ∷ ts) = if t.address == address then some t else timer_at address ts

pub record Queue : Type 0 where
  pub timers : List Timer
  pub active : List TimerId
  pub calling_expired : Bool
  pub canceling : List TimerId
  -- `Timer::s_numCreated_`
  pub created : ℕ
  -- The seconds that `steadyTimer_` was last set to.
  pub armed : Option ℕ

abbrev pub new_queue : Queue
new_queue = record {
  timers = [];
  active = [];
  calling_expired = false;
  canceling = [];
  created = 0;
  armed = none;
}

abbrev pub is_consistent : Queue → Bool
is_consistent q = length q.timers == length q.active

pub is_earliest : ℕ → List Timer → Bool
is_earliest time [] = true
is_earliest time (t ∷ ts) = ltb time t.expiration

pub insert : Timer → Queue → Result (Bool × Queue)
unfolding is_earliest
insert t q = do
  assert (is_consistent q)
  let earliest_changed = is_earliest t.expiration q.timers
  assert (not (has_entry t.expiration t.address q.timers))
  assert (not (contains (id_of t) q.active))
  let q' = record q { timers = add_entry t q.timers; active = id_of t ∷ q.active }
  assert (is_consistent q')
  ok (earliest_changed, q')

pub update : ℕ → Queue → Queue
update sec q = record q { armed = some sec }

pub reset_timer : ℕ → ℕ → Queue → Queue
unfolding update
reset_timer when now q =
    let micro_seconds = if ltb when (now + 100) then 100 else when - now in
    update (micro_seconds / micro_seconds_per_second) q

unfoldable pub add_timer_in_this_thread : Timer → ℕ → Queue → Result Queue
unfolding insert reset_timer
add_timer_in_this_thread t now q = do
  (earliest_changed, q') ← insert t q
  ok (if earliest_changed then reset_timer t.expiration now q' else q')

-- The constructor of `Timer`.
abbrev pub new_timer : ℕ → ℕ → ℕ → ℕ → Bool → ℕ → Timer
new_timer address callback when interval repeat sequence = record {
  address = address;
  expiration = when;
  interval = interval;
  repeat = repeat;
  callback = callback;
  sequence = sequence;
}

-- `addTimer`, called on the loop's thread, where `dispatch` runs at once.
pub add_timer : ℕ → ℕ → ℕ → ℕ → Bool → ℕ → Queue → Result (TimerId × Queue)
unfolding add_timer_in_this_thread
add_timer address callback when interval repeat now q = do
  let t = new_timer address callback when interval repeat (1 + q.created)
  q' ← add_timer_in_this_thread t now (record q { created = 1 + q.created })
  ok (id_of t, q')

-- The branch of `cancelInThisThread` for an active timer. Its expiration is read from the timer.
erase_timer : TimerId → Option Timer → Queue → Result Queue
erase_timer i none q = err out_of_range
erase_timer i (some t) q = do
  assert (has_entry t.expiration t.address q.timers)
  ok (record q {
    timers = remove_entry t.expiration t.address q.timers;
    active = remove_id i q.active;
  })

-- `cancelingTimers_.emplace`
abbrev pub add_id : TimerId → List TimerId → List TimerId
add_id i js = if contains i js then js else i ∷ js

unfoldable pub cancel_in_this_thread : TimerId → Queue → Result Queue
unfolding erase_timer
cancel_in_this_thread i q = do
  assert (is_consistent q)
  q' ←
      if contains i q.active
      then erase_timer i (timer_at i.0 q.timers) q
      else ok (if q.calling_expired then record q { canceling = add_id i q.canceling } else q)
  assert (is_consistent q')
  ok q'

-- The greatest address.
abbrev pub uintptr_max : ℕ
uintptr_max = 2 ^ 64 - 1

-- The timers before the lower bound of a moment, and those from there on.
abbrev pub split_at_bound : ℕ → List Timer → List Timer × List Timer
split_at_bound now [] = ([], [])
split_at_bound now (t ∷ ts) =
    let rest = split_at_bound now ts in
    if before t.expiration t.address now uintptr_max then (t ∷ rest.0, rest.1) else ([], t ∷ ts)

abbrev pub erase_active : List Timer → List TimerId → Result (List TimerId)
erase_active [] active = ok active
erase_active (t ∷ ts) active = do
  assert (contains (id_of t) active)
  erase_active ts (remove_id (id_of t) active)

pub is_after : ℕ → List Timer → Bool
is_after now [] = true
is_after now (t ∷ ts) = ltb now t.expiration

pub get_expired : ℕ → Queue → Result (List Timer × Queue)
unfolding is_after
get_expired now q = do
  assert (is_consistent q)
  let (expired, left) = split_at_bound now q.timers
  assert (is_after now left)
  active ← erase_active expired q.active
  let q' = record q { timers = left; active = active }
  assert (is_consistent q')
  ok (expired, q')

reset_each : List Timer → ℕ → Queue → Result Queue
unfolding restart insert
reset_each [] now q = ok q
reset_each (t ∷ ts) now q = do
  q' ←
      if t.repeat && not (contains (id_of t) q.canceling)
      then (do (_, q') ← insert (restart now t) q; ok q')
      else ok q
  reset_each ts now q'

abbrev pub next_expire : List Timer → ℕ
next_expire [] = invalid
next_expire (t ∷ ts) = t.expiration

-- `clock` is what `Timestamp::now()` says in `resetTimer`.
pub reset : List Timer → ℕ → ℕ → Queue → Result Queue
unfolding reset_each reset_timer
reset expired now clock q = do
  q' ← reset_each expired now q
  let next = next_expire q'.timers
  ok (if is_valid next then reset_timer next clock q' else q')

-- What a callback may do with the timers of its loop.
pub data Call : Type 0 where
  add_call : ℕ → ℕ → ℕ → ℕ → Bool → ℕ → Call
  cancel_call : TimerId → Call

pub run_call : Call → Queue → Result Queue
unfolding add_timer cancel_in_this_thread
run_call (add_call address callback when interval repeat now) q = do
  (_, q') ← add_timer address callback when interval repeat now q
  ok q'
run_call (cancel_call i) q = cancel_in_this_thread i q

pub run_calls : List Call → Queue → Result Queue
unfolding run_call
run_calls [] q = ok q
run_calls (c ∷ cs) q = do q' ← run_call c q; run_calls cs q'

-- `callbacks` says what each callback calls.
pub run_all : (ℕ → List Call) → List Timer → Queue → Result Queue
unfolding run_calls
run_all callbacks [] q = ok q
run_all callbacks (t ∷ ts) q = do q' ← run_calls (callbacks t.callback) q; run_all callbacks ts q'

-- The completion of the wait that `update` starts; the timers that it runs come first.
pub on_timer : (ℕ → List Call) → ℕ → ℕ → Queue → Result (List Timer × Queue)
unfolding get_expired run_all reset
on_timer callbacks now clock q = do
  (expired, q₁) ← get_expired now q
  q₂ ← run_all callbacks expired (record q₁ { canceling = []; calling_expired = true })
  q₃ ← reset expired now clock (record q₂ { calling_expired = false })
  ok (expired, q₃)
