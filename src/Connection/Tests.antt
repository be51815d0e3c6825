-- ===== src/Connection/Tests.antt =====
-- Net/TcpConnection.cpp: the theorems on small runs.
use ioloop.Prelude.{
  ℕ, ◌+◌, ◌-◌, ◌^◌, ◌≡◌, refl, List, [], ◌∷◌, ◌++◌, some, ok, arith, true, false, replicate, length,
  ◌>>=◌,
}
use ioloop.Buffer.{Buffer, append, ensure_writable_bytes, has_written, retrieve}
use ioloop.Buffer.Contents.{Holds}
use ioloop.Buffer.Ints.BigEndian.{big_endian}
use ioloop.Connection.{
  Conn, connecting, connected, disconnecting, disconnected, idle, header, body, connection_callback,
  connect_established, send, send_in_this_thread, shutdown, shutdown_in_this_thread, on_write,
  write, read_header, on_header, on_body, connect_destroyed,
}
use ioloop.Connection.Steps.{
  Step, established, destroyed, HasBytes, StepHasBytes, sent, shut, wrote, Reach, here, next,
}
use ioloop.Connection.Stream.{OutInv, Accepts, stream}
use ioloop.Connection.Delivery.{Reach-Accepts}
use ioloop.Connection.Life.{Later, Reach-Later}
use ioloop.Connection.Shutdown.{shutdown_flushes}
use ioloop.Connection.Stuck.{Stuck, Reach-Stuck}
use ioloop.Connection.Inbound.{on_header_shrinks, on_header-on_body}

abbrev fresh : Buffer
fresh = record { store = replicate 24 0; reader = 8; writer = 8 }

abbrev start : Conn
start = record {
  state = connecting;
  input = fresh;
  output = fresh;
  has_connection_callback = true;
  has_close_callback = true;
  in_flight = [];
  moved = false;
  reading = idle;
  posted = [];
  notices = [];
  send_closed = false;
  wire = [];
}

abbrev up : Conn
up = record start {
  state = connected;
  reading = header;
  notices = connection_callback connected ∷ [];
}

abbrev message : List ℕ
message = 1 ∷ 2 ∷ 3 ∷ []

abbrev holding : Buffer
holding = record { store = replicate 8 0 ++ message ++ replicate 13 0; reader = 8; writer = 11 }

abbrev sending : Conn
sending = record up { output = holding; in_flight = message ∷ [] }

abbrev shutting : Conn
shutting = record sending { state = disconnecting }

abbrev finished : Conn
finished = record shutting {
  output = record holding { writer = 8 };
  in_flight = [];
  wire = message;
  send_closed = true;
}

start-OutInv : OutInv start
start-OutInv = record {
  pending = [];
  holds = record { valid = omega arith; bytes = refl };
  under_way = tt;
}

goes_up : Step big_endian start [] up
unfolding connect_established read_header
goes_up = established refl refl

sends : Step big_endian up message sending
unfolding send send_in_this_thread write append ensure_writable_bytes has_written
sends = sent true message refl (omega arith, omega arith) refl

shuts_down : Step big_endian sending [] shutting
unfolding shutdown shutdown_in_this_thread
shuts_down = shut true refl refl

finishes : Step big_endian shutting [] finished
unfolding on_write retrieve shutdown_in_this_thread
finishes = wrote message [] refl refl refl

run : Reach big_endian start message shutting
run = next (next (next here goes_up) sends) shuts_down

run-HasBytes : HasBytes run
unfolding run goes_up sends shuts_down
run-HasBytes = (((tt, tt), refl), tt)

finishes-HasBytes : StepHasBytes finishes
unfolding finishes
finishes-HasBytes = tt

Reach-Accepts_example : Accepts start message shutting
Reach-Accepts_example = Reach-Accepts big_endian start-OutInv run run-HasBytes

Reach-Later_example : Later start shutting
Reach-Later_example = Reach-Later big_endian run

shutdown_flushes_example : finished.wire ≡ stream start ++ (message ++ [])
shutdown_flushes_example =
    shutdown_flushes big_endian start-OutInv run finishes run-HasBytes finishes-HasBytes refl refl

abbrev failed : Conn
failed = record sending { in_flight = [] }

failed-OutInv : OutInv failed
failed-OutInv = record {
  pending = message;
  holds = record { valid = omega arith; bytes = refl };
  under_way = tt;
}

failed-Stuck : Stuck failed
failed-Stuck = record { no_write = refl; waiting = λ e. omega (arith, e) }

abbrev again : Conn
again = record failed {
  output = record {
    store = replicate 8 0 ++ message ++ message ++ replicate 10 0;
    reader = 8;
    writer = 14;
  };
}

sends_again : Step big_endian failed message again
unfolding send send_in_this_thread write append ensure_writable_bytes has_written
sends_again = sent true message refl (omega arith, omega arith) refl

Reach-Stuck_example : Stuck again × (again.wire ≡ failed.wire)
Reach-Stuck_example = Reach-Stuck big_endian failed-OutInv failed-Stuck (next here sends_again)

abbrev gone : Conn
gone = record up { state = disconnected }

goes : Step big_endian gone [] gone
unfolding connect_destroyed
goes = destroyed refl refl

on_header_shrinks_example :
    (d : Conn) × (on_header big_endian (some (255 ∷ 255 ∷ 255 ∷ 247 ∷ [])) up ≡ ok d)
    × (d.reading ≡ body (2 ^ 64 - 9))
    × (length d.input.store + 9 ≡ d.input.writer)
on_header_shrinks_example =
    on_header_shrinks big_endian (255 ∷ 255 ∷ 255 ∷ 247 ∷ []) 9 up
      (record { valid = omega arith; bytes = refl }) refl (omega arith) refl (omega arith)
      (omega arith) (omega arith)

on_header-on_body_example :
    (d : Conn) × (b : Buffer) × (on_header big_endian (some (0 ∷ 0 ∷ 0 ∷ 3 ∷ [])) up ≡ ok d)
    × (d.reading ≡ body 3)
    × Holds b ((0 ∷ 0 ∷ 0 ∷ 3 ∷ []) ++ message)
    × (on_body (λ c. ok c) (some message) d
        ≡ (ok (record up { input = b; reading = idle }) >>= λ e. ok (read_header e)))
on_header-on_body_example =
    on_header-on_body big_endian (λ c. ok c) message up
      (record { valid = omega arith; bytes = refl }) (omega arith) (omega arith) (omega arith)
