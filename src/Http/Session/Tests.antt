-- ===== src/Http/Session/Tests.antt =====
-- Http/HttpSession.hpp: the theorems at concrete sessions.
use ioloop.Prelude.{same_text, ℕ, ◌<◌, ◌≤◌, ◌≡◌, refl, List, [], ◌∷◌, ◌++◌, true, length, arith}
use ioloop.Http.Queue.{InOrder, push}
use ioloop.Http.Router.{Matcher, Storage, new_router, get}
use ioloop.Http.Session.{Call, send_call, Flesh, new_flesh, new_flesh_on_error, recv, do_read, send}
use ioloop.Http.Session.Handlers.{Request, run_call, dispatch, on_read, on_write_failed}
use ioloop.Http.Session.Entry.{error_action, make_flesh}
use ioloop.Http.Session.Entry
use ioloop.Http.Context
use ioloop.Http.Session.Serving.{Balanced}
use ioloop.Http.Session.Backpressure
use ioloop.Http.Session.Backpressure.{Reach-Balanced}
use ioloop.Http.Session.Runs
use ioloop.Http.Session.Runs.{Reach-InOrder}
use ioloop.Http.Session.Order.{writing}
use ioloop.Http.Session.Halted.{Reach-Halted}

-- A matcher of equal paths, whose view of a target stays as it is.
abbrev exact : Matcher
exact = record { is_match = same_text; walk = λ resources. resources; shows = λ target n. target }

-- A server that answers every request with the response 7.
abbrev answer : Request → List Storage → List (Call ℕ)
answer request storages = send_call 7 ∷ []

abbrev request : Request
request = record { method = get; target = 47 ∷ [] }

abbrev started : Flesh ℕ
started = Entry.recv_buffer true 5 [] (error_action true)

abbrev served : Flesh ℕ
served = on_read exact answer new_router request [] started

Reach-Balanced_example : Balanced served
unfolding Entry.recv_buffer Context.recv dispatch run_call recv do_read make_flesh
    new_flesh_on_error new_flesh
Reach-Balanced_example = Reach-Balanced exact answer 5 [] (error_action true) served (
    Backpressure.next Backpressure.here
      (Backpressure.request_came new_router request [] refl (omega arith) refl refl))

abbrev made : Flesh ℕ
made = make_flesh [] 5 (error_action true)

abbrev writes_one : Flesh ℕ
writes_one = dispatch true (send_call 7) made

abbrev one_sent : Runs.Reach exact answer made (7 ∷ []) writes_one
one_sent = Runs.next Runs.here (Runs.called (send_call 7) refl refl)

Reach-InOrder_example : InOrder (7 ∷ []) writes_one.queue × (writing writes_one ≤ 1)
Reach-InOrder_example =
    Reach-InOrder exact answer [] 5 (error_action true) (7 ∷ []) writes_one one_sent

abbrev broken : Flesh ℕ
broken = on_write_failed writes_one

Reach-Halted_example :
    ((dispatch true (send_call 8) broken).queue.writes ≡ writes_one.queue.writes)
    × ((dispatch true (send_call 8) broken).queue.items ≡ writes_one.queue.items ++ 8 ∷ [])
    × (0 < length writes_one.queue.items)
unfolding dispatch run_call send push make_flesh new_flesh_on_error new_flesh
Reach-Halted_example =
    Reach-Halted exact answer [] 5 (error_action true) (7 ∷ []) writes_one (8 ∷ [])
      (dispatch true (send_call 8) broken) one_sent (omega arith)
      (Runs.next Runs.here (Runs.called (send_call 8) refl refl))

-- 17 responses wait.
abbrev overfull : Flesh ℕ
overfull = record (new_flesh [] 5) {
  queue = record {
    items = 1 ∷ 2 ∷ 3 ∷ 4 ∷ 5 ∷ 6 ∷ 7 ∷ 8 ∷ 9 ∷ 10 ∷ 11 ∷ 12 ∷ 13 ∷ 14 ∷ 15 ∷ 16 ∷ 17 ∷ [];
    writes = 1 ∷ [];
  };
}
