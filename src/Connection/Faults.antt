-- ===== src/Connection/Faults.antt =====
-- Net/TcpConnection.cpp: the failures of a read that the source does not foresee.
use ioloop.Prelude.{ℕ, ◌≤◌, ◌≡◌, refl, ap, List, none, Result, err, assertion, arith}
use ioloop.Buffer.Ints.{ByteOrder}
use ioloop.Connection.{
  Conn, State, disconnected, connecting, connected, disconnecting, Reading, on_header, on_body,
  handle_close,
}
use ioloop.Connection.Steps.{Reach}
use ioloop.Connection.Life.{rank, Reach-Later}

last_state : (s : State) → 3 ≤ rank s → s ≡ disconnected
last_state connecting h = ground arith
last_state connected h = ground arith
last_state disconnecting h = ground arith
last_state disconnected h = refl

close_twice : (c : Conn) → c.state ≡ disconnected → handle_close c ≡ err assertion
unfolding handle_close
close_twice c e = ground arith

module _ (net : ByteOrder) where
  failed_read : (c : Conn) → c.state ≡ disconnected → on_header net none c ≡ err assertion
  unfolding on_header
  failed_read c e = close_twice (record c { reading = Reading.idle }) e

  failed_body :
      (callback : Conn → Result Conn) (c : Conn)
      → c.state ≡ disconnected
      → on_body callback none c ≡ err assertion
  unfolding on_body
  failed_body callback c e = close_twice (record c { reading = Reading.idle }) e

  -- On a connection that was closed, at any later time, a read that fails violates the assertion of
  -- `handleClose`, whether it was a read of a header or of a body.
  pub closed_read_faults :
      {c : Conn} {d : Conn} {bs : List ℕ} (callback : Conn → Result Conn)
      → c.state ≡ disconnected
      → Reach net c bs d
      → (on_header net none d ≡ err assertion) × (on_body callback none d ≡ err assertion)
  closed_read_faults {c} {d} callback e r =
      let l = Reach-Later net r in
      let s = last_state d.state (omega (arith, l.forward, ap rank e)) in
      (failed_read d s, failed_body callback d s)
