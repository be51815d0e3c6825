-- ===== src/Http/Server/Tests.antt =====
-- Http/HttpServer.hpp: the theorems at a concrete server.
use ioloop.Prelude.{same_text, ℕ, refl, List, [], ◌∷◌, true, false, arith}
use ioloop.Http.Router.{Matcher, Storage}
use ioloop.Http.Session.{Call, send_call}
use ioloop.Http.Session.Handlers.{Request}
use ioloop.Http.Session.Entry.{error_action, recv}
use ioloop.Http.Server.{
  accepted, Opening, Server, new_server, new_server_on_error, do_accept, loop, start, on_accepted,
  on_accept, accept_posted, run_posted,
}
use ioloop.Http.Server.Accepting.{here, next, started, came, ran, Serves, Reach-Serves}

-- A matcher of equal paths, whose view of a target stays as it is.
abbrev exact : Matcher
exact = record { is_match = same_text; walk = λ resources. resources; shows = λ target n. target }

abbrev answer : Request → List Storage → List (Call ℕ)
answer request storages = send_call 7 ∷ []

abbrev works : Opening
works = record {
  open_fails = false;
  set_option_fails = false;
  bind_fails = false;
  listen_fails = false;
}

abbrev in_use : Opening
in_use = record {
  open_fails = false;
  set_option_fails = false;
  bind_fails = true;
  listen_fails = false;
}

abbrev fresh : Server ℕ
fresh = new_server_on_error false true

abbrev listens : Server ℕ
listens = start works 80 fresh

abbrev brought : Server ℕ
brought = on_accepted (accepted 9) listens

abbrev serves : Server ℕ
serves = record brought { posted = []; sessions = (9, recv true 5 (error_action true)) ∷ [] }

Reach-Serves_example : Serves (9 ∷ []) serves
unfolding start loop do_accept on_accepted on_accept accept_posted run_posted new_server
    new_server_on_error
Reach-Serves_example = Reach-Serves exact answer false true (9 ∷ []) serves (
    next (next (next here (started works 80 refl refl)) (came (accepted 9) (omega arith) refl refl))
      (ran 5 false refl refl))
