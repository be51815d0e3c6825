-- ===== src/Http/Context.antt =====
-- Http/HttpSession.hpp: `Context`, whose functions bind those of the session and dispatch them.
use ioloop.Prelude.{ℕ, Bool}
use ioloop.Http.Session.{
  recv_call, recv_for_call, send_call, send_for_call, Flesh, timer_cancel_call, eof_call, cls_call,
  on_error_call, on_timer_call,
}
use ioloop.Http.Session.Handlers.{dispatch}

module _ {Response : Type 0} where
  unfoldable pub recv : Bool → Flesh Response → Flesh Response
  recv in_loop f = dispatch in_loop recv_call f

  unfoldable pub recv_for : Bool → ℕ → Flesh Response → Flesh Response
  recv_for in_loop duration f = dispatch in_loop (recv_for_call duration) f

  unfoldable pub send : Bool → Response → Flesh Response → Flesh Response
  send in_loop response f = dispatch in_loop (send_call response) f

  unfoldable pub send_for : Bool → Response → ℕ → Flesh Response → Flesh Response
  send_for in_loop response duration f = dispatch in_loop (send_for_call response duration) f

  unfoldable pub timer_cancel : Bool → Bool → Flesh Response → Flesh Response
  timer_cancel in_loop failed f = dispatch in_loop (timer_cancel_call failed) f

  unfoldable pub eof : Bool → Bool → Flesh Response → Flesh Response
  eof in_loop failed f = dispatch in_loop (eof_call failed) f

  unfoldable pub cls : Bool → Bool → Flesh Response → Flesh Response
  cls in_loop failed f = dispatch in_loop (cls_call failed) f

  unfoldable pub advance_on_error : Bool → Flesh Response → Flesh Response
  advance_on_error in_loop f = dispatch in_loop on_error_call f

  unfoldable pub advance_on_timer : Bool → Flesh Response → Flesh Response
  advance_on_timer in_loop f = dispatch in_loop on_timer_call f
