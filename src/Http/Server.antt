-- ===== src/Http/Server.antt =====
-- Http/HttpServer.hpp: the server, which accepts connections and makes a session for each. The
-- acceptor is outside: what its calls answer is an argument, and `accepts` counts the accepts that
-- are under way. A socket is its number.
use ioloop.Prelude.{
  ℕ, ◌+◌, ◌-◌, List, [], ◌∷◌, ◌++◌, Option, none, some, Result, ok, err, system_error, ◌>>=◌, Bool,
  true, false, if◌then◌else◌,
}
use ioloop.Http.Session.{Flesh}
use ioloop.Http.Session.Entry.{error_action}
use ioloop.Http.Session.Entry
pub mod Sockets
pub mod Accepting
pub mod Starting
mod Tests

-- The second argument of `onErrorCallback_`.
pub data Stage : Type 0 where
  open_stage set_option_stage bind_stage listen_stage accept_stage : Stage

-- The calls of the two callbacks.
pub data Notice : Type 0 where
  error_callback : Stage → Notice
  action_callback : ℕ → Notice

-- What an accept brings.
pub data Accepted : Type 0 where
  accept_failed : Accepted
  accepted : ℕ → Accepted

-- Which calls of the acceptor fail.
pub record Opening : Type 0 where
  pub open_fails : Bool
  pub set_option_fails : Bool
  pub bind_fails : Bool
  pub listen_fails : Bool

-- `on_error` and `on_action` say whether the callbacks are functions, `posted` holds what was
-- posted by the handler of an accept, and `sessions` the sessions with their sockets.
pub record Server (Response : Type 0) : Type 0 where
  pub start : Bool
  pub on_error : Bool
  pub on_action : Bool
  pub endpoint : Option ℕ
  pub accepts : ℕ
  pub posted : List Accepted
  pub notices : List Notice
  pub sessions : List (ℕ × Flesh Response)

module _ {Response : Type 0} where
  -- The two constructors, of which one takes no error callback.
  unfoldable pub new_server : Bool → Server Response
  new_server on_action = record {
    start = false;
    on_error = false;
    on_action = on_action;
    endpoint = none;
    accepts = 0;
    posted = [];
    notices = [];
    sessions = [];
  }

  unfoldable pub new_server_on_error : Bool → Bool → Server Response
  unfolding new_server
  new_server_on_error on_action on_error = record (new_server on_action) { on_error = on_error }

  abbrev pub note : Bool → Notice → Server Response → Server Response
  note there notice s = if there then record s { notices = s.notices ++ notice ∷ [] } else s

  unfoldable pub do_accept : Server Response → Server Response
  do_accept s = record s { accepts = s.accepts + 1 }

  unfoldable pub loop : Opening → ℕ → Server Response → Server Response
  loop o endpoint s =
      if o.open_fails
      then note s.on_error (error_callback open_stage) s
      else if o.set_option_fails
      then note s.on_error (error_callback set_option_stage) s
      else if o.bind_fails
      then note s.on_error (error_callback bind_stage) s
      else if o.listen_fails
      then note s.on_error (error_callback listen_stage) s
      else do_accept (record s { endpoint = some endpoint })

  unfoldable pub start : Opening → ℕ → Server Response → Server Response
  start o endpoint s = if s.start then s else loop o endpoint (record s { start = true })

  -- The handler of `async_accept`, which posts what came and accepts again.
  unfoldable pub on_accepted : Accepted → Server Response → Server Response
  on_accepted a s = do_accept (record s { accepts = s.accepts - 1; posted = s.posted ++ a ∷ [] })

  -- `onAccept`, where `remote_endpoint()` throws if the peer is gone.
  unfoldable pub on_accept : ℕ → Bool → ℕ → Server Response → Result (Server Response)
  on_accept now peer_gone socket s =
      if peer_gone
      then err system_error
      else ok (record s {
        sessions = s.sessions ++ (socket, Entry.recv true now (error_action s.on_error)) ∷ [];
      })

  -- The posted function of `doAccept`.
  unfoldable pub accept_posted : ℕ → Bool → Accepted → Server Response → Result (Server Response)
  accept_posted now peer_gone accept_failed s = ok (note s.on_error (error_callback accept_stage) s)
  accept_posted now peer_gone (accepted socket) s =
      on_accept now peer_gone socket (note s.on_action (action_callback socket) s)

  -- The loop runs the oldest posted function.
  unfoldable pub run_posted : ℕ → Bool → List Accepted → Server Response → Result (Server Response)
  run_posted now peer_gone [] s = ok s
  run_posted now peer_gone (a ∷ rest) s = accept_posted now peer_gone a (record s { posted = rest })
