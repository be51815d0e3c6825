-- ===== src/Loop/Kept.antt =====
-- Net/IOLoop.cpp: no posted function is lost or runs twice, in whatever order they run.
use ioloop.Prelude.{ℕ, suc, ◌+◌, List, [], ◌∷◌, Option, none, some, ◌==◌, if◌then◌else◌}
use ioloop.Loop.{Task, func_task, Run, at_once, in_turn, Loop}

-- How often a function waits among the posted ones, and how often it has run in its turn.
abbrev pub waits : ℕ → List Task → ℕ
waits cb [] = 0
waits cb (func_task f ∷ ts) = let rest = waits cb ts in if f == cb then suc rest else rest
waits cb (_ ∷ ts) = waits cb ts

abbrev pub turns : ℕ → List Run → ℕ
turns cb [] = 0
turns cb (in_turn f ∷ rs) = let rest = turns cb rs in if f == cb then suc rest else rest
turns cb (at_once f ∷ rs) = turns cb rs

abbrev pub owed : ℕ → Loop → ℕ
owed cb l = waits cb l.posted + turns cb l.ran

abbrev waits_one : ℕ → Option Task → ℕ
waits_one cb none = 0
waits_one cb (some t) = waits cb (t ∷ [])
