-- ===== src/Http/Session.antt =====
-- Http/HttpSession.hpp, with Http/Timer.hpp and Http/Connection.hpp: the session of one HTTP
-- client. The socket, the parser, the timer and the clock are outside: a state says how many reads
-- and waits are under way and what was asked of them, and their completions come with an outcome.
-- What the queue writes is in `queue.writes`; of these writes `completed` have come back.
use ioloop.Prelude.{
  ℕ, ◌+◌, ◌-◌, ◌^◌, List, [], ◌∷◌, ◌++◌, Result, ok, ◌>>=◌, Bool, true, false, ◌&&◌, not, leb,
  if◌then◌else◌, max,
}
use ioloop.Http.Queue.{Queue, new_queue, is_full, on_write, push}
pub mod Handlers
pub mod Entry
pub mod Serving
pub mod Backpressure
pub mod Overfull
pub mod Order
pub mod Runs
pub mod Halted
mod Tests

-- The second argument of `on_error_`.
pub data Message : Type 0 where
  on_read_message on_timer_message write_message eof_message cls_message : Message
  timer_shutdown_message timer_close_message cancel_message : Message

pub data ShutdownType : Type 0 where
  shutdown_receive shutdown_send shutdown_both : ShutdownType

-- The calls that go out: of the two callbacks, and of the socket.
pub data Notice : Type 0 where
  error_callback : Message → Notice
  timer_callback : Notice
  shutdown_call : ShutdownType → Notice
  close_call : Notice

-- What a `Context` asks of the session. Where the socket or the timer answers with an error code,
-- the last argument says whether there is one.
pub data Call (Response : Type 0) : Type 0 where
  recv_call : Call Response
  recv_for_call : ℕ → Call Response
  send_call : Response → Call Response
  send_for_call : Response → ℕ → Call Response
  timer_cancel_call : Bool → Call Response
  eof_call : Bool → Call Response
  cls_call : Bool → Call Response
  on_error_call : Call Response
  on_timer_call : Call Response

-- `Flesh`: `is_open` is that of the socket, `on_error` and `on_timer` say whether the functions are
-- there, `now` is the clock, and `posted` holds what was dispatched from another thread.
pub record Flesh (Response : Type 0) : Type 0 where
  pub queue : Queue Response
  pub buffer : List ℕ
  pub is_open : Bool
  pub on_error : Bool
  pub on_timer : Bool
  pub reads : ℕ
  pub waits : ℕ
  pub expiry : ℕ
  pub now : ℕ
  pub completed : ℕ
  pub posted : List (Call Response)
  pub notices : List Notice

-- The error codes of a wait, as far as `onTimer` tells them apart.
pub data WaitOutcome : Type 0 where
  elapsed aborted wait_failed : WaitOutcome

-- `(time_point_type::max)()` of a clock that counts in 64 bits.
abbrev pub max_time : ℕ
max_time = 2 ^ 63 - 1

module _ {Response : Type 0} where
  -- The constructor without callbacks, over an open socket.
  unfoldable pub new_flesh : List ℕ → ℕ → Flesh Response
  new_flesh buffer now = record {
    queue = new_queue;
    buffer = buffer;
    is_open = true;
    on_error = false;
    on_timer = false;
    reads = 0;
    waits = 0;
    expiry = max_time;
    now = now;
    completed = 0;
    posted = [];
    notices = [];
  }

  -- The constructor with `on_error`, which may be an empty function.
  unfoldable pub new_flesh_on_error : List ℕ → ℕ → Bool → Flesh Response
  unfolding new_flesh
  new_flesh_on_error buffer now on_error = record (new_flesh buffer now) { on_error = on_error }

  -- The constructor with `on_error` and `on_timer`.
  unfoldable pub new_flesh_on_timer : List ℕ → ℕ → Bool → Bool → Flesh Response
  unfolding new_flesh
  new_flesh_on_timer buffer now on_error on_timer = record (new_flesh buffer now) {
    on_error = on_error;
    on_timer = on_timer;
  }

  abbrev pub note : Notice → Flesh Response → Flesh Response
  note notice f = record f { notices = f.notices ++ notice ∷ [] }

  -- `if (ec && on_error_) on_error_(ec, message)`
  abbrev pub report : Bool → Message → Flesh Response → Flesh Response
  report failed message f = if failed && f.on_error then note (error_callback message) f else f

  -- `shutdown` of the socket, which stays open.
  abbrev pub shutdown : ShutdownType → Flesh Response → Flesh Response
  shutdown type f = note (shutdown_call type) f

  -- `close` of the socket, which it closes even where it gives an error.
  abbrev pub close : Flesh Response → Flesh Response
  close f = note close_call (record f { is_open = false })

  unfoldable pub do_read : Flesh Response → Flesh Response
  do_read f = record f { reads = f.reads + 1 }

  unfoldable pub do_launch_timer : Flesh Response → Flesh Response
  do_launch_timer f = record f { waits = f.waits + 1 }

  -- `timer_.stream().expires_after(duration)`
  abbrev pub expires_after : ℕ → Flesh Response → Flesh Response
  expires_after duration f = record f { expiry = f.now + duration }

  unfoldable pub recv : Flesh Response → Flesh Response
  recv f = do_read f

  unfoldable pub recv_for : ℕ → Flesh Response → Flesh Response
  recv_for duration f = do_read (do_launch_timer (expires_after duration f))

  unfoldable pub send : Response → Flesh Response → Flesh Response
  send response f = record f { queue = push response f.queue }

  unfoldable pub send_for : Response → ℕ → Flesh Response → Flesh Response
  send_for response duration f = send response (do_launch_timer (expires_after duration f))

  unfoldable pub wait_for : ℕ → Flesh Response → Flesh Response
  wait_for duration f = do_launch_timer (expires_after duration f)

  unfoldable pub timer_cancel : Bool → Flesh Response → Flesh Response
  timer_cancel failed f = report failed cancel_message f

  unfoldable pub do_eof : ShutdownType → Bool → Flesh Response → Flesh Response
  do_eof type failed f = if f.is_open then report failed eof_message (shutdown type f) else f

  unfoldable pub do_cls : Bool → Flesh Response → Flesh Response
  do_cls failed f = if f.is_open then report failed cls_message (close f) else f

  unfoldable pub eof : Bool → Flesh Response → Flesh Response
  eof failed f = do_eof shutdown_send failed f

  unfoldable pub cls : Bool → Flesh Response → Flesh Response
  cls failed f = do_cls failed f

  -- `member` with the tag of `on_error_`, and with that of `on_timer_`.
  unfoldable pub member_on_error : Flesh Response → Flesh Response
  member_on_error f = record f { on_error = true }

  unfoldable pub member_on_timer : Flesh Response → Flesh Response
  member_on_timer f = record f { on_timer = true }
