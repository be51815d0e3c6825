-- ===== src/Http/Server/Starting.antt =====
-- Http/HttpServer.hpp: what a start that fails leaves behind.
use ioloop.Prelude.{ℕ, ◌≡◌, [], ◌∷◌, ◌++◌, Option, none, some, true, false, if◌then◌else◌, arith}
use ioloop.Http.Server.{
  Stage, open_stage, set_option_stage, bind_stage, listen_stage, error_callback, Opening, Server,
  loop, start, do_accept,
}

-- The first of the calls of the acceptor that fails.
abbrev pub first_failure : Opening → Option Stage
first_failure o =
    if o.open_fails
    then some open_stage
    else if o.set_option_fails
    then some set_option_stage
    else if o.bind_fails
    then some bind_stage
    else if o.listen_fails
    then some listen_stage
    else none

module _ {Response : Type 0} where
  -- A start that fails reports the first of the four calls that failed, and only that, where an
  -- error callback is there, and the server does not accept. It stays started: every later start
  -- does nothing, also where its calls would succeed.
  pub start-start :
      (o o' : Opening) (endpoint endpoint' : ℕ) (s : Server Response) (stage : Stage)
      → s.start ≡ false
      → first_failure o ≡ some stage
      → start o' endpoint' (start o endpoint s) ≡ record s {
        start = true;
        notices = if s.on_error then s.notices ++ error_callback stage ∷ [] else s.notices;
      }
  unfolding start loop do_accept
  start-start o o' endpoint endpoint' s stage e f = ground (arith, e, f)
