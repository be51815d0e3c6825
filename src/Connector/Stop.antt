-- ===== src/Connector/Stop.antt =====
-- Net/Connector.cpp: what `stop` stops.
use ioloop.Prelude.{
  subst, ℕ, ◌≡◌, ◌∙◌, List, [], ◌∷◌, Option, none, some, Result, ok, err, assertion, ◌>>=◌, arith,
  Bool, true, false,
}
use ioloop.Connector.{
  Connector, disconnected, Error, success, branch, on_branch, connect, retry, Branch, goes_on,
  retries, gives_up, start_in_this_thread, stop_in_this_thread, start, stop, restart,
  check_connection, on_connect,
}

-- What happens on the loop's thread: calls, scheduled starts, and completions.
pub data Op : Type 0 where
  start_op stop_op restart_op fire_op : Op
  connect_op : Error → Option ℕ → Op

unfoldable pub step : Op → Connector → Result Connector
unfolding start stop restart on_connect
step start_op c = start c
step stop_op c = ok (stop c)
step restart_op c = restart c
step fire_op c = start_in_this_thread c
step (connect_op e o) c = ok (on_connect e o c)

unfoldable pub run : List Op → Connector → Result Connector
unfolding step
run [] c = ok c
run (o ∷ os) c = do c' ← step o c; run os c'

abbrev pub starts : List Op → Bool
starts [] = false
starts (start_op ∷ os) = true
starts (restart_op ∷ os) = true
starts (_ ∷ os) = starts os

-- Nothing new is begun: no attempt, no schedule, no connection.
pub record Quiet (c c' : Connector) : Type 0 where
  pub unwanted : c'.wants_connect ≡ false
  pub unscheduled : c'.scheduled ≡ c.scheduled
  pub unhanded : c'.handed ≡ c.handed

Quiet-stop : (c : Connector) → Quiet c (stop c)
unfolding stop stop_in_this_thread retry
Quiet-stop c = record {
  unwanted = ground arith;
  unscheduled = ground arith;
  unhanded = ground arith;
}

fired :
    (os : List Op) (c c' : Connector)
    → c.wants_connect ≡ false
    → run (fire_op ∷ os) c ≡ ok c'
    → run os c ≡ ok c'
unfolding run step start_in_this_thread connect
fired os c c' w r = ground (arith, w, r)

Quiet-branch :
    (b : Branch) (o : Option ℕ) (c : Connector)
    → c.wants_connect ≡ false
    → Quiet c (on_branch b o c)
unfolding on_branch check_connection retry
Quiet-branch goes_on none c w = record {
  unwanted = ground arith;
  unscheduled = ground arith;
  unhanded = ground arith;
}
Quiet-branch goes_on (some x) c w = record {
  unwanted = ground arith;
  unscheduled = ground arith;
  unhanded = ground arith;
}
Quiet-branch retries o c w = record {
  unwanted = ground arith;
  unscheduled = ground arith;
  unhanded = ground arith;
}
Quiet-branch gives_up o c w = record {
  unwanted = ground arith;
  unscheduled = ground arith;
  unhanded = ground arith;
}

Quiet-connect :
    (e : Error) (o : Option ℕ) (c : Connector)
    → c.wants_connect ≡ false
    → Quiet c (on_connect e o c)
unfolding on_connect
Quiet-connect e o c w =
    let q = Quiet-branch (branch e) o (record c { in_progress = false }) w in
    record { unwanted = q.unwanted; unscheduled = q.unscheduled; unhanded = q.unhanded }

both : {a b c : Connector} → Quiet a b → Quiet b c → Quiet a c
both p q = record {
  unwanted = q.unwanted;
  unscheduled = q.unscheduled ∙ p.unscheduled;
  unhanded = q.unhanded ∙ p.unhanded;
}

same_ok : (x c' : Connector) → ok x ≡ ok c' → x ≡ c'
same_ok x c' r = ground arith

Quiet-run :
    (os : List Op) (c d c' : Connector)
    → Quiet c d
    → starts os ≡ false
    → run os d ≡ ok c'
    → Quiet c c'
unfolding run step
Quiet-run [] c d c' q s r = subst (Quiet c) (same_ok d c' r) q
Quiet-run (start_op ∷ os) c d c' q s r = absurd (ground (arith, s))
Quiet-run (restart_op ∷ os) c d c' q s r = absurd (ground (arith, s))
Quiet-run (stop_op ∷ os) c d c' q s r = Quiet-run os c (stop d) c' (both q (Quiet-stop d)) s r
Quiet-run (connect_op e o ∷ os) c d c' q s r =
    Quiet-run os c (on_connect e o d) c' (both q (Quiet-connect e o d q.unwanted)) s r
Quiet-run (fire_op ∷ os) c d c' q s r = Quiet-run os c d c' q s (fired os d c' q.unwanted r)

-- After `stop`, and until a `start` or `restart`, no attempt is scheduled and no connection is
-- handed out, whichever attempt was under way and however it ends.
pub stop-Quiet :
    (os : List Op) (c c' : Connector) → starts os ≡ false → run os (stop c) ≡ ok c' → Quiet c c'
stop-Quiet os c c' s r = Quiet-run os c (stop c) c' (Quiet-stop c) s r

-- A connector that is stopped while an attempt is under way, which then succeeds, keeps the state
-- of a connected one, and the next `start` violates its assertion.
pub stopped_start_faults :
    (c : Connector)
    → c.state ≡ disconnected
    → start (on_connect success (some 0) (stop c)) ≡ err assertion
unfolding start start_in_this_thread on_connect branch on_branch check_connection stop
    stop_in_this_thread
stopped_start_faults c e = ground (arith, e)
