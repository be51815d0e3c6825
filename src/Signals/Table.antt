-- ===== src/Signals/Table.antt =====
-- Signal/Signal.cpp: the table is never filled, handlers do not interrupt each other, and `kill`.
use ioloop.Prelude.{
  ℕ, zero, suc, ◌<◌, ◌≡◌, refl, sym, ap, ◌∙◌, List, [], ◌∷◌, ◌++◌, some, Result, ok, err,
  out_of_range, out_of_fuel, ◌>>=◌, bind-ok, ok_same, Bool, true, false, get_elem?, arith,
  Bool-cases, inl, inr,
}
use ioloop.Signals.{
  signo_max, Handler, function, SignalData, Signals, new_signals, set_action, entry, signal_set,
  clear_from, signal_clear, call, signal_callback, discard, signal_async_handler, kill,
}

-- The operations that change the table or the kernel's actions.
pub data Op : Type 0 where
  set_op : ℕ → Handler → Bool → Op
  action_op : ℕ → Handler → Bool → Op
  clear_op : Bool → Op
  signal_op : ℕ → List ℕ → Op

unfoldable pub run : List Op → Signals → Result Signals
run [] s = ok s
run (set_op signo h fails ∷ os) s = signal_set signo h fails s >>= λ s'. run os s'
run (action_op signo h fails ∷ os) s = run os (set_action signo h fails s)
run (clear_op fails ∷ os) s = signal_clear fails s >>= λ s'. run os s'
run (signal_op signo nested ∷ os) s = signal_async_handler signo nested s >>= λ s'. run os s'

no_entry : (i : ℕ) (s : Signals) → s.signals ≡ [] → entry (get_elem? s.signals i) ≡ err out_of_range
no_entry i s e = ap (λ (l : List SignalData). entry (get_elem? l i)) e

pub set_faults :
    (signo : ℕ) (h : Handler) (fails : Bool) (s : Signals)
    → s.signals ≡ []
    → signal_set signo h fails s ≡ err out_of_range
unfolding signal_set
set_faults signo h fails s e = ground (arith, no_entry signo s e)

clear_from_faults :
    (n i : ℕ) (fails : Bool) (s : Signals)
    → s.signals ≡ []
    → clear_from (suc n) i fails s ≡ err out_of_range
unfolding clear_from
clear_from_faults n i fails s e = ground (arith, no_entry i s e)

clear_faults :
    (fails : Bool) (s : Signals) → s.signals ≡ [] → signal_clear fails s ≡ err out_of_range
unfolding signal_clear
clear_faults fails s e =
    ap (λ (o : Result Signals). o >>= λ s'. ok (record s' { signals = [] }))
      (clear_from_faults 127 0 fails s e)

callback_keeps :
    (signo : ℕ) (s s' : Signals)
    → s.signals ≡ []
    → signal_callback signo s ≡ ok s'
    → s'.signals ≡ []
unfolding signal_callback
callback_keeps signo s s' e r = ground (arith, r, e, no_entry signo s e)

discard_keeps :
    (nested : List ℕ) (s s' : Signals) → s.signals ≡ [] → discard nested s ≡ ok s' → s'.signals ≡ []
unfolding discard
discard_keeps [] s s' e r = ground (arith, r, e)
discard_keeps (n ∷ ns) s s' e r = elim (Bool-cases s.lock) [
  | inl p ↦ discard_keeps ns s s' e (ground (arith, r, p))
  | inr p ↦
      let rest : (signal_callback n (record s { lock = true }) >>= λ t.
      discard ns (record t { lock = false }))
          ≡ ok s' =
        ground (arith, r, p) in
      let (t, c, d) = bind-ok (signal_callback n (record s { lock = true })) _ s' rest in
      discard_keeps ns (record t { lock = false }) s'
        (callback_keeps n (record s { lock = true }) t e c) d
]

signal_keeps :
    (signo : ℕ) (nested : List ℕ) (s s' : Signals)
    → s.signals ≡ []
    → signal_async_handler signo nested s ≡ ok s'
    → s'.signals ≡ []
unfolding signal_async_handler
signal_keeps signo nested s s' e r = elim (Bool-cases s.lock) [
  | inl p ↦ ap (λ (t : Signals). t.signals) (sym (ok_same s s' (ground (arith, r, p)))) ∙ e
  | inr p ↦
      let rest : (signal_callback signo (record s { lock = true }) >>= λ t.
      discard nested t >>= λ u. ok (record u { lock = false }))
          ≡ ok s' =
        ground (arith, r, p) in
      let (t, c, d) = bind-ok (signal_callback signo (record s { lock = true })) _ s' rest in
      let (u, f, g) = bind-ok (discard nested t) _ s' d in
      ap (λ (v : Signals). v.signals) (sym (ok_same _ s' g))
      ∙ discard_keeps nested t u (callback_keeps signo (record s { lock = true }) t e c) f
]

run_keeps : (os : List Op) (s s' : Signals) → s.signals ≡ [] → run os s ≡ ok s' → s'.signals ≡ []
unfolding run set_action
run_keeps [] s s' e r = ground (arith, r, e)
run_keeps (set_op signo h fails ∷ os) s s' e r =
    absurd (ground (arith, r, set_faults signo h fails s e))
run_keeps (action_op signo h fails ∷ os) s s' e r =
    run_keeps os (set_action signo h fails s) s' (ground (arith, e)) r
run_keeps (clear_op fails ∷ os) s s' e r = absurd (ground (arith, r, clear_faults fails s e))
run_keeps (signal_op signo nested ∷ os) s s' e r =
    let (t, c, d) = bind-ok (signal_async_handler signo nested s) _ s' r in
    run_keeps os t s' (signal_keeps signo nested s t e c) d

-- No operation puts an entry into the table: whatever was called before, and whatever signals came,
-- `signalSet` of any signal and `signalClear` index the empty table.
pub run-empty :
    (os : List Op) (s : Signals) (signo : ℕ) (h : Handler) (fails : Bool)
    → run os new_signals ≡ ok s
    → (signal_set signo h fails s ≡ err out_of_range) × (signal_clear fails s ≡ err out_of_range)
unfolding new_signals
run-empty os s signo h fails r =
    let e = run_keeps os new_signals s refl r in
    (set_faults signo h fails s e, clear_faults fails s e)

discard_locked : (nested : List ℕ) (s : Signals) → s.lock ≡ true → discard nested s ≡ ok s
unfolding discard
discard_locked [] s p = refl
discard_locked (n ∷ ns) s p = ground (arith, p, discard_locked ns s p)

-- With a table that has an entry with a function for the signal, the function is called once, and
-- the signals that come while it runs are discarded; after it the next signal is handled again.
pub signal_async_handler_once :
    (signo f : ℕ) (nested : List ℕ) (d : SignalData) (s : Signals)
    → s.lock ≡ false
    → signo < signo_max
    → get_elem? s.signals signo ≡ some d
    → d.callback ≡ function f
    → signal_async_handler signo nested s
      ≡ ok (record s { lock = false; called = s.called ++ (signo, f) ∷ [] })
unfolding signal_async_handler signal_callback
signal_async_handler_once signo f nested d s p l e c =
    let s₁ : Signals = record s { lock = true; called = s.called ++ (signo, f) ∷ [] } in
    let called : call signo d.callback (record s { lock = true }) ≡ s₁ =
      ap (λ h. call signo h (record s { lock = true })) c in
    ground (arith, p, l, e, called, discard_locked nested s₁ refl)

-- `kill` of a positive process number never returns.
pub kill_hangs : (fuel pid sig : ℕ) → 0 < pid → kill fuel pid sig ≡ err out_of_fuel
unfolding kill
kill_hangs zero pid sig h = refl
kill_hangs (suc fuel) pid sig h = ground (arith, h, kill_hangs fuel pid sig h)
