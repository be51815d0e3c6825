-- ===== src/Signals/Tests.antt =====
-- Signal/Signal.cpp: the theorems at concrete signals.
use ioloop.Prelude.{◌≡◌, refl, List, [], ◌∷◌, err, out_of_range, true, false}
use ioloop.Signals.{
  signal_callback, discard, null, function, Signals, new_signals, signal_set, signal_clear,
  signal_async_handler, set_action,
}
use ioloop.Signals.Table.{action_op, signal_op, Op, run, run-empty}

abbrev before : List Op
before = action_op 2 null false ∷ signal_op 200 (1 ∷ []) ∷ []

abbrev after : Signals
after = set_action 2 null false new_signals

run-empty_example :
    (signal_set 1 (function 7) false after ≡ err out_of_range)
    × (signal_clear false after ≡ err out_of_range)
unfolding run signal_async_handler signal_callback discard set_action new_signals
run-empty_example = run-empty before after 1 (function 7) false refl

abbrev filled : Signals
filled = record new_signals {
  signals = record { callback = function 7; signo = 0; activated = true } ∷ [];
}
