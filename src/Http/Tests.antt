-- ===== src/Http/Tests.antt =====
-- Http/: the theorems at concrete requests.
use ioloop.Prelude.{ℕ, ◌≡◌, refl, List, [], ◌∷◌, arith}
use ioloop.Http.Queue.{Op, push_op, write_op}
use ioloop.Http.Router.{Storage}
use ioloop.Http.Chain.{calls, begin_exec, target_of, expected, calls-begin_exec}

abbrev ops : List (Op ℕ)
ops = push_op 1 ∷ push_op 2 ∷ write_op ∷ push_op 3 ∷ []

-- `/a`
abbrev path : List ℕ
path = 47 ∷ 97 ∷ []

abbrev left : Storage → Storage
left storage = []

-- `/a/bc` with two handlers.
calls-begin_exec_example :
    calls 1 (begin_exec 2 (target_of ((97 ∷ []) ∷ (98 ∷ 99 ∷ []) ∷ [])))
    ≡ expected 2 0 ((97 ∷ []) ∷ (98 ∷ 99 ∷ []) ∷ [])
calls-begin_exec_example =
    calls-begin_exec 2 (97 ∷ []) ((98 ∷ 99 ∷ []) ∷ []) (omega arith) (refl, (refl, tt))
