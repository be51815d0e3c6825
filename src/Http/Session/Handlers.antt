-- ===== src/Http/Session/Handlers.antt =====
-- Http/HttpSession.hpp: what happens when a read, a write or a wait of a session is complete, and
-- how a `Context` calls the session. `in_loop` says whether the calling thread runs the io_context:
-- `dispatch` runs the function at once there, and posts it elsewhere.
use ioloop.Prelude.{
  ◌-◌, ℕ, ◌+◌, List, [], ◌∷◌, ◌++◌, Result, ok, ◌>>=◌, Bool, true, ◌&&◌, not, leb, if◌then◌else◌,
}
use ioloop.Http.Queue.{is_full, on_write}
use ioloop.Http.Router.{Matcher, Router, Method, Storage, provide}
use ioloop.Http.Session.{
  on_read_message, on_timer_message, write_message, timer_shutdown_message, timer_close_message,
  shutdown_both, timer_callback, Call, recv_call, recv_for_call, send_call, send_for_call,
  timer_cancel_call, eof_call, cls_call, on_error_call, on_timer_call, Flesh, WaitOutcome, elapsed,
  aborted, wait_failed, note, report, shutdown, close, recv, recv_for, send, send_for, timer_cancel,
  do_eof, eof, cls, member_on_error, member_on_timer,
}

-- The requests of beast: what `provide` asks of one.
pub record Request : Type 0 where
  pub method : Method
  pub target : List ℕ

module _ {Response : Type 0} where
  -- The function that a `Context` binds.
  unfoldable pub run_call : Call Response → Flesh Response → Flesh Response
  run_call recv_call f = recv f
  run_call (recv_for_call duration) f = recv_for duration f
  run_call (send_call response) f = send response f
  run_call (send_for_call response duration) f = send_for response duration f
  run_call (timer_cancel_call failed) f = timer_cancel failed f
  run_call (eof_call failed) f = eof failed f
  run_call (cls_call failed) f = cls failed f
  run_call on_error_call f = member_on_error f
  run_call on_timer_call f = member_on_timer f

  -- `boost::asio::dispatch` on the inner executor.
  unfoldable pub dispatch : Bool → Call Response → Flesh Response → Flesh Response
  dispatch in_loop call f =
      if in_loop then run_call call f else record f { posted = f.posted ++ call ∷ [] }

  -- The loop runs the oldest posted function.
  unfoldable pub run_posted : List (Call Response) → Flesh Response → Flesh Response
  run_posted [] f = f
  run_posted (call ∷ rest) f = run_call call (record f { posted = rest })

  -- The calls that a handler makes, one after the other.
  unfoldable pub run_calls : List (Call Response) → Flesh Response → Flesh Response
  run_calls [] f = f
  run_calls (call ∷ calls) f = run_calls calls (run_call call f)

  -- A user's handlers answer the storages that a request reaches with calls of the session.
  module _ (matcher : Matcher) (handlers : Request → List Storage → List (Call Response)) where
    unfoldable pub do_process_request : Router → Request → Flesh Response → Flesh Response
    do_process_request router request f =
        let f' =
          run_calls (handlers request (provide matcher request.method request.target router)) f in
        if not (is_full f'.queue) && f'.is_open then recv f' else f'

    -- The handler of `async_read` without an error, with what the read leaves in the buffer.
    unfoldable pub on_read : Router → Request → List ℕ → Flesh Response → Flesh Response
    unfolding do_process_request
    on_read router request buffer f =
        do_process_request router request (record f { reads = f.reads - 1; buffer = buffer })

  -- The handler of `async_read` with an error.
  unfoldable pub on_read_failed : Flesh Response → Flesh Response
  on_read_failed f = report true on_read_message (record f { reads = f.reads - 1 })

  -- The handler of `async_write`, with its error, with `close`, and without either.
  unfoldable pub on_write_failed : Flesh Response → Flesh Response
  on_write_failed f = report true write_message (record f { completed = f.completed + 1 })

  unfoldable pub on_write_closing : Bool → Flesh Response → Flesh Response
  on_write_closing failed f = do_eof shutdown_both failed (record f { completed = f.completed + 1 })

  unfoldable pub on_written : Flesh Response → Result (Flesh Response)
  on_written f = do
    (was_full, queue) ← on_write f.queue
    let f' = record f { completed = f.completed + 1; queue = queue }
    ok (if was_full then recv f' else f')

  -- The end of `onTimer`: the socket is shut down and closed.
  unfoldable pub time_out : Bool → Bool → Flesh Response → Flesh Response
  time_out shutdown_failed close_failed f =
      report close_failed timer_close_message
        (close (report shutdown_failed timer_shutdown_message (shutdown shutdown_both f)))

  -- `onTimer` behind its first test; `calls` are those of the timer callback.
  unfoldable pub on_expiry : List (Call Response) → Bool → Bool → Flesh Response → Flesh Response
  on_expiry calls shutdown_failed close_failed f =
      if leb f.expiry f.now
      then if f.on_timer && f.is_open
        then run_calls calls (note timer_callback f)
        else if f.is_open
        then time_out shutdown_failed close_failed f
        else f
      else f

  unfoldable pub on_timer :
      WaitOutcome → List (Call Response) → Bool → Bool → Flesh Response → Flesh Response
  on_timer wait_failed calls shutdown_failed close_failed f =
      report true on_timer_message (record f { waits = f.waits - 1 })
  on_timer elapsed calls shutdown_failed close_failed f =
      on_expiry calls shutdown_failed close_failed (record f { waits = f.waits - 1 })
  on_timer aborted calls shutdown_failed close_failed f =
      on_expiry calls shutdown_failed close_failed (record f { waits = f.waits - 1 })
