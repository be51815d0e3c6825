-- ===== src/Connection/Life.antt =====
-- Net/TcpConnection.cpp: the states that a connection goes through, and its closing.
use ioloop.Buffer.Contents.{create-Holds}
use ioloop.Prelude.{
  false, Bool-cases, inl, inr, ℕ, ◌+◌, ◌≤◌, ◌≡◌, refl, sym, ap, subst, List, [], ◌∷◌, ◌++◌, Option,
  none, some, Result, ok, arith, Bool, length, ◌||◌, true, if◌then◌else◌, bind-ok,
}
use ioloop.Buffer.{initial_size, Buffer}
use ioloop.Buffer.Ints.{ByteOrder}
use ioloop.Connection.{
  new_connection, is_connected, is_disconnecting, Reading, Conn, State, disconnected, connecting,
  connected, disconnecting, Task, send_task, send_piece_task, seen_bytes, shutdown_task,
  force_close_task, Notice, connection_callback, close_callback, send_in_this_thread, on_write,
  connect_established, connect_destroyed, shutdown, force_close, send, run_posted, on_header,
  on_body, run_first, shutdown_in_this_thread, handle_close, read_header,
  force_close_in_this_thread, write,
}
use ioloop.Connection.Steps.{
  post_copy, sent_buffer, send_buffer_sends, consuming, Step, established, destroyed, shut, forced,
  sent, ran, wrote, write_failed, header_came, header_failed, body_came, body_failed, Reach, here,
  next,
}

-- The order in which the states come.
abbrev pub rank : State → ℕ
rank connecting = 0
rank connected = 1
rank disconnecting = 2
rank disconnected = 3

-- How often `closeCallback_` was called.
abbrev pub closes : List Notice → ℕ
closes [] = 0
closes (connection_callback s ∷ ns) = closes ns
closes (close_callback ∷ ns) = 1 + closes ns

-- How often it may have been called.
abbrev pub closed : State → ℕ
closed disconnected = 1
closed _ = 0

-- A step goes on in the order of the states, and calls `closeCallback_` at most on the way to the
-- last of them.
pub record Later (c c' : Conn) : Type 0 where
  pub forward : rank c.state ≤ rank c'.state
  pub once : closes c.notices ≤ closed c.state → closes c'.notices ≤ closed c'.state
  pub grows : closes c.notices ≤ closes c'.notices

closes-append : (ms ns : List Notice) → closes (ms ++ ns) ≡ closes ms + closes ns
closes-append [] ns = omega arith
closes-append (connection_callback s ∷ ms) ns = closes-append ms ns
closes-append (close_callback ∷ ms) ns = omega (arith, closes-append ms ns)

closes-connected :
    (ms : List Notice) (s : State) → closes (ms ++ connection_callback s ∷ []) ≡ closes ms
closes-connected ms s = omega (arith, closes-append ms (connection_callback s ∷ []))

closes-closed : (ms : List Notice) → closes (ms ++ close_callback ∷ []) ≡ 1 + closes ms
closes-closed ms = omega (arith, closes-append ms (close_callback ∷ []))

pub Later-established : (c c' : Conn) → connect_established c ≡ ok c' → Later c c'
unfolding connect_established
Later-established c c' r = record {
  forward = ground arith;
  once = λ h. ground (arith, closes-connected c.notices connected);
  grows = ground (arith, closes-connected c.notices connected);
}

Later-handle_close : (c c' : Conn) → handle_close c ≡ ok c' → Later c c'
unfolding handle_close
Later-handle_close c c' r = record {
  forward = ground arith;
  once = λ h. ground (
    arith,
    closes-connected c.notices disconnected,
    closes-closed c.notices,
    closes-closed (c.notices ++ connection_callback disconnected ∷ []),
  );
  grows = ground (
    arith,
    closes-connected c.notices disconnected,
    closes-closed c.notices,
    closes-closed (c.notices ++ connection_callback disconnected ∷ []),
  );
}

-- Neither `connectEstablished` nor `connectDestroyed` calls the close callback.
pub established_closes :
    (c c' : Conn) → connect_established c ≡ ok c' → closes c'.notices ≡ closes c.notices
unfolding connect_established
established_closes c c' r = ground (arith, closes-connected c.notices connected)

pub destroyed_closes :
    (c c' : Conn) → connect_destroyed c ≡ ok c' → closes c'.notices ≡ closes c.notices
unfolding connect_destroyed
destroyed_closes c c' r = ground (arith, closes-connected c.notices disconnected)

-- A step that keeps the state and calls no callback.
Later-still : {c c' : Conn} → c'.state ≡ c.state → c'.notices ≡ c.notices → Later c c'
Later-still e n = record {
  forward = omega (arith, ap rank e);
  once = λ h. omega (arith, h, ap closed e, ap closes n);
  grows = omega (arith, ap closes n);
}

pub Later-destroyed : (c c' : Conn) → connect_destroyed c ≡ ok c' → Later c c'
unfolding connect_destroyed
Later-destroyed c c' r = record {
  forward = ground arith;
  once = λ h. ground (arith, closes-connected c.notices disconnected);
  grows = ground (arith, closes-connected c.notices disconnected);
}

Later-shutdown : (in_loop : Bool) (c : Conn) → Later c (shutdown in_loop c)
unfolding shutdown shutdown_in_this_thread
Later-shutdown in_loop c = record {
  forward = ground arith;
  once = λ h. ground arith;
  grows = ground arith;
}

Later-force_close : (c : Conn) → Later c (force_close c)
unfolding force_close
Later-force_close c = record {
  forward = ground arith;
  once = λ h. ground arith;
  grows = ground arith;
}

Later-send_in_this_thread :
    (m : List ℕ) (c c' : Conn) → send_in_this_thread m c ≡ ok c' → Later c c'
unfolding send_in_this_thread write
Later-send_in_this_thread m c c' r = Later-still (ground arith) (ground arith)

Later-send : (in_loop : Bool) (m : List ℕ) (c c' : Conn) → send in_loop m c ≡ ok c' → Later c c'
unfolding send send_in_this_thread write
Later-send in_loop m c c' r = Later-still (ground arith) (ground arith)

Later-send_copy :
    (in_loop : Bool) (m : List ℕ) (c c' : Conn)
    → (if in_loop then send true m c else ok (post_copy m c)) ≡ ok c'
    → Later c c'
Later-send_copy true m c c' r = Later-send true m c c' r
Later-send_copy false m c c' r = Later-still (ground arith) (ground arith)

Later-on_write : (n : Option ℕ) (c c' : Conn) → on_write n c ≡ ok c' → Later c c'
unfolding on_write shutdown_in_this_thread write
Later-on_write none c c' r = Later-still (ground arith) (ground arith)
Later-on_write (some n) c c' r = Later-still (ground arith) (ground arith)

Later-on_header :
    (net : ByteOrder) (xs : List ℕ) (c c' : Conn) → on_header net (some xs) c ≡ ok c' → Later c c'
unfolding on_header
Later-on_header net xs c c' r = Later-still (ground arith) (ground arith)

Later-on_body :
    (consume : Buffer → Result Buffer) (xs : List ℕ) (c c' : Conn)
    → on_body (consuming consume) (some xs) c ≡ ok c'
    → Later c c'
unfolding on_body read_header
Later-on_body consume xs c c' r = Later-still (ground arith) (ground arith)

Later-force_close_in_this_thread : (c c' : Conn) → force_close_in_this_thread c ≡ ok c' → Later c c'
unfolding force_close_in_this_thread
Later-force_close_in_this_thread c c' r =
    elim (Bool-cases (is_connected c.state || is_disconnecting c.state)) [
      | inl e ↦ Later-handle_close c c' (ground arith)
      | inr e ↦ Later-still (ground arith) (ground arith)
    ]

from_rest : (rest : List Task) (c c' : Conn) → Later (record c { posted = rest }) c' → Later c c'
from_rest rest c c' l = record { forward = l.forward; once = l.once; grows = l.grows }

Later-shut_now : (c : Conn) → Later c (shutdown_in_this_thread c)
unfolding shutdown_in_this_thread
Later-shut_now c = Later-still (ground arith) (ground arith)

pub ok_same : (x c' : Conn) → ok x ≡ ok c' → c' ≡ x
ok_same x c' r = ground arith

Later-run_first :
    (seen : Option (List ℕ)) (ts : List Task) (c c' : Conn)
    → run_first seen ts c ≡ ok c'
    → Later c c'
unfolding run_first
Later-run_first seen [] c c' r = Later-still (ground arith) (ground arith)
Later-run_first seen (send_task m ∷ rest) c c' r =
    from_rest rest c c' (Later-send_in_this_thread m (record c { posted = rest }) c' r)
Later-run_first seen (send_piece_task n ∷ rest) c c' r =
    let (bytes, e, r') = bind-ok (seen_bytes seen n) _ c' r in
    from_rest rest c c' (Later-send_in_this_thread bytes (record c { posted = rest }) c' r')
Later-run_first seen (shutdown_task ∷ rest) c c' r = from_rest rest c c' (
    subst (Later (record c { posted = rest }))
      (sym (ok_same (shutdown_in_this_thread (record c { posted = rest })) c' r))
      (Later-shut_now (record c { posted = rest })))
Later-run_first seen (force_close_task ∷ rest) c c' r =
    from_rest rest c c' (Later-force_close_in_this_thread (record c { posted = rest }) c' r)

Later-run_posted : (seen : Option (List ℕ)) (c c' : Conn) → run_posted seen c ≡ ok c' → Later c c'
unfolding run_posted
Later-run_posted seen c c' r = Later-run_first seen c.posted c c' r

Later-body_fail :
    (callback : Conn → Result Conn) (c c' : Conn) → on_body callback none c ≡ ok c' → Later c c'
unfolding on_body
Later-body_fail callback c c' r =
    let l = Later-handle_close (record c { reading = Reading.idle }) c' r in
    record { forward = l.forward; once = l.once; grows = l.grows }

module _ (net : ByteOrder) where
  Later-fail : (c c' : Conn) → on_header net none c ≡ ok c' → Later c c'
  unfolding on_header
  Later-fail c c' r =
      let l = Later-handle_close (record c { reading = Reading.idle }) c' r in
      record { forward = l.forward; once = l.once; grows = l.grows }

  pub Step-Later : {c : Conn} {c' : Conn} {bs : List ℕ} → Step net c bs c' → Later c c'
  Step-Later {c} {c'} (established e r) = Later-established c c' r
  Step-Later {c} {c'} (destroyed e r) = Later-destroyed c c' r
  Step-Later {c} {c'} (shut in_loop e r) = subst (Later c) (sym r) (Later-shutdown in_loop c)
  Step-Later {c} {c'} (forced e r) = subst (Later c) (sym r) (Later-force_close c)
  Step-Later {c} {c'} (sent in_loop m e f r) = Later-send in_loop m c c' r
  Step-Later {c} {c'} (sent_buffer in_loop b b' m e h f q) =
      Later-send_copy in_loop m c c' (send_buffer_sends in_loop b b' m c c' h q)
  Step-Later {c} {c'} (ran seen e f r) = Later-run_posted seen c c' r
  Step-Later {c} {c'} (wrote s rest e f r) = Later-on_write (some (length s)) c c' r
  Step-Later {c} {c'} (write_failed e r) = Later-on_write none c c' r
  Step-Later {c} {c'} (header_came xs e h n r) = Later-on_header net xs c c' r
  Step-Later {c} {c'} (header_failed e h r) = Later-fail c c' r
  Step-Later {c} {c'} (body_came consume xs e h r) = Later-on_body consume xs c c' r
  Step-Later {c} {c'} (body_failed n callback e h r) = Later-body_fail callback c c' r

  -- Along any run the state of a connection only goes forward, from connecting over connected and
  -- disconnecting to disconnected, and if at the start the close callback was made at most once,
  -- and only on a closed connection, then so it is at the end. A close callback that was made stays
  -- made.
  pub Reach-Later : {c : Conn} {c' : Conn} {bs : List ℕ} → Reach net c bs c' → Later c c'
  Reach-Later here = Later-still refl refl
  Reach-Later (next {bs} {d} {bs'} {e} r s) =
      let a = Reach-Later r in
      let b = Step-Later s in
      record {
        forward = omega (arith, a.forward, b.forward);
        once = λ h. b.once (a.once h);
        grows = omega (arith, a.grows, b.grows);
      }

-- A new connection is established, and starts to read.
pub new_connection_established :
    (has_connection has_close : Bool)
    → (k : Conn) × (k' : Conn) × (new_connection has_connection has_close ≡ ok k)
      × (connect_established k ≡ ok k')
      × (k'.state ≡ connected)
      × (k'.reading ≡ Reading.header)
unfolding new_connection connect_established read_header
new_connection_established has_connection has_close =
    let (b, e, _, _) = create-Holds initial_size (omega arith) in
    let k : Conn = record {
      state = connecting;
      input = b;
      output = b;
      has_connection_callback = has_connection;
      has_close_callback = has_close;
      in_flight = [];
      moved = false;
      reading = Reading.idle;
      posted = [];
      notices = [];
      send_closed = false;
      wire = [];
    } in
    (k, _, ground (arith, e), refl, ground arith, ground arith)

-- No callback of a new connection was called.
pub new_closes :
    (has_connection has_close : Bool) (c : Conn)
    → new_connection has_connection has_close ≡ ok c
    → closes c.notices ≡ 0
unfolding new_connection
new_closes has_connection has_close c e = ground (arith, e)
