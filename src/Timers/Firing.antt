-- ===== src/Timers/Firing.antt =====
-- Net/TimerQueue.cpp: what the completion of a wait does, whatever the callbacks call.
use ioloop.Timers.Running.{Running}
use ioloop.Prelude.{List, [], ◌∷◌, ◌&&◌, not, if◌then◌else◌}
use ioloop.Timers.{Timer, TimerId, id_of, contains}

-- The timers of a list that `reset` puts back.
abbrev pub put_back : List Timer → List TimerId → List Timer
put_back [] canceling = []
put_back (t ∷ ts) canceling =
    let rest = put_back ts canceling in
    if t.repeat && not (contains (id_of t) canceling) then t ∷ rest else rest
