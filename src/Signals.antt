-- ===== src/Signals.antt =====
-- Signal/Signal.h and Signal/Signal.cpp: the table of signal handlers. A handler is its number; the
-- kernel's answers are arguments.
use ioloop.Prelude.{
  ℕ, zero, suc, ◌+◌, List, [], ◌∷◌, ◌++◌, Option, none, some, Result, ok, err, out_of_range,
  out_of_fuel, ◌>>=◌, Bool, true, false, ltb, leb, ◌==◌, if◌then◌else◌, get_elem?, set,
}
pub mod Table
mod Tests

abbrev pub signo_max : ℕ
signo_max = 128

-- A `SignalHandler`: NULL, -1, a user's function, or `signalAsyncHandler`.
pub data Handler : Type 0 where
  null minus_one : Handler
  function : ℕ → Handler
  async_handler : Handler

pub record SignalData : Type 0 where
  pub callback : Handler
  pub signo : ℕ
  pub activated : Bool

-- What the kernel does with a signal.
pub data Disposition : Type 0 where
  ignored default : Disposition
  handled : Handler → Disposition

-- The static members, what was told to the kernel, and the calls of users' functions.
pub record Signals : Type 0 where
  pub signals : List SignalData
  pub lock : Bool
  pub actions : List (ℕ × Disposition)
  pub called : List (ℕ × ℕ)

-- The constructor reserves room, which leaves the table empty.
unfoldable pub new_signals : Signals
new_signals = record { signals = []; lock = false; actions = []; called = [] }

abbrev pub disposition : Handler → Disposition
disposition null = ignored
disposition minus_one = default
disposition h = handled h

-- `signalSet` with a mask; `fails` is the answer of `sigaction`.
unfoldable pub set_action : ℕ → Handler → Bool → Signals → Signals
set_action signo h fails s =
    if fails then s else record s { actions = s.actions ++ (signo, disposition h) ∷ [] }

-- `signals_[signo]`
abbrev pub entry : Option SignalData → Result SignalData
entry none = err out_of_range
entry (some d) = ok d

-- `signalSet` without a mask.
unfoldable pub signal_set : ℕ → Handler → Bool → Signals → Result Signals
signal_set signo h fails s = do
  d ← entry (get_elem? s.signals signo)
  let d' : SignalData = record d { callback = h; activated = true; signo = signo }
  ok (set_action signo async_handler fails (record s { signals = set s.signals signo d' }))

unfoldable pub signal_get_handler : ℕ → Signals → Result Handler
signal_get_handler signo s =
    if ltb signo_max signo
    then ok null
    else (do d ← entry (get_elem? s.signals signo); ok d.callback)

-- The loop of `signalClear`, with so many entries to go.
unfoldable pub clear_from : ℕ → ℕ → Bool → Signals → Result Signals
clear_from zero i fails s = ok s
clear_from (suc n) i fails s = do
  d ← entry (get_elem? s.signals i)
  clear_from n (suc i) fails (if d.activated then set_action d.signo minus_one fails s else s)

unfoldable pub signal_clear : Bool → Signals → Result Signals
signal_clear fails s = do s' ← clear_from signo_max 0 fails s; ok (record s' { signals = [] })

-- `callback(_signo)`
abbrev pub call : ℕ → Handler → Signals → Signals
call signo null s = s
call signo (function f) s = record s { called = s.called ++ (signo, f) ∷ [] }
call signo minus_one s = s
call signo async_handler s = s

unfoldable pub signal_callback : ℕ → Signals → Result Signals
signal_callback signo s =
    if leb signo_max signo
    then ok s
    else (do d ← entry (get_elem? s.signals signo); ok (call signo d.callback s))

-- Signals that come while a handler runs find the lock.
unfoldable pub discard : List ℕ → Signals → Result Signals
discard [] s = ok s
discard (signo ∷ rest) s = if s.lock then discard rest s else (do
  s' ← signal_callback signo (record s { lock = true })
  discard rest (record s' { lock = false }))

-- `signalAsyncHandler`, with the signals that come while the callback runs.
unfoldable pub signal_async_handler : ℕ → List ℕ → Signals → Result Signals
signal_async_handler signo nested s = if s.lock then ok s else (do
  s' ← signal_callback signo (record s { lock = true })
  s'' ← discard nested s'
  ok (record s'' { lock = false }))

-- `kill`, which calls itself; a process number that is not positive is 0 here.
unfoldable pub kill : ℕ → ℕ → ℕ → Result Bool
kill zero pid sig = err out_of_fuel
kill (suc fuel) pid sig = let rest = kill fuel pid sig in if pid == 0 then ok false else rest
