-- ===== src/Http/Session/Entry.antt =====
-- Http/HttpSession.hpp: the functions that make a session for a socket and start its first
-- operation. Those without a buffer start with an empty one.
use ioloop.Prelude.{ℕ, List, [], Bool}
use ioloop.Http.Session.{Flesh, new_flesh, new_flesh_on_error, new_flesh_on_timer}
use ioloop.Http.Context

-- The callbacks that a session is made with: `OnAction...`, each with whether it is a function.
pub data OnAction : Type 0 where
  no_action : OnAction
  error_action : Bool → OnAction
  timer_action : Bool → Bool → OnAction

module _ {Response : Type 0} where
  -- `make_shared` of a session, by the constructor that takes these callbacks.
  unfoldable pub make_flesh : List ℕ → ℕ → OnAction → Flesh Response
  make_flesh buffer now no_action = new_flesh buffer now
  make_flesh buffer now (error_action on_error) = new_flesh_on_error buffer now on_error
  make_flesh buffer now (timer_action on_error on_timer) =
      new_flesh_on_timer buffer now on_error on_timer

  unfoldable pub recv_buffer : Bool → ℕ → List ℕ → OnAction → Flesh Response
  recv_buffer in_loop now buffer on_action = Context.recv in_loop (make_flesh buffer now on_action)

  unfoldable pub recv : Bool → ℕ → OnAction → Flesh Response
  recv in_loop now on_action = Context.recv in_loop (make_flesh [] now on_action)

  unfoldable pub recv_for_buffer : Bool → ℕ → ℕ → List ℕ → OnAction → Flesh Response
  recv_for_buffer in_loop now duration buffer on_action =
      Context.recv_for in_loop duration (make_flesh buffer now on_action)

  unfoldable pub recv_for : Bool → ℕ → ℕ → OnAction → Flesh Response
  recv_for in_loop now duration on_action =
      Context.recv_for in_loop duration (make_flesh [] now on_action)

  unfoldable pub send : Bool → ℕ → Response → OnAction → Flesh Response
  send in_loop now response on_action = Context.send in_loop response (make_flesh [] now on_action)

  unfoldable pub send_buffer : Bool → ℕ → Response → List ℕ → OnAction → Flesh Response
  send_buffer in_loop now response buffer on_action =
      Context.send in_loop response (make_flesh buffer now on_action)

  unfoldable pub send_for_buffer : Bool → ℕ → Response → List ℕ → ℕ → OnAction → Flesh Response
  send_for_buffer in_loop now response buffer duration on_action =
      Context.send_for in_loop response duration (make_flesh buffer now on_action)

  unfoldable pub send_for : Bool → ℕ → Response → ℕ → OnAction → Flesh Response
  send_for in_loop now response duration on_action =
      Context.send_for in_loop response duration (make_flesh [] now on_action)

  unfoldable pub make : ℕ → OnAction → Flesh Response
  make now on_action = make_flesh [] now on_action

  unfoldable pub make_buffer : ℕ → List ℕ → OnAction → Flesh Response
  make_buffer now buffer on_action = make_flesh buffer now on_action
