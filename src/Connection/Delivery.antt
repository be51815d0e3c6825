-- ===== src/Connection/Delivery.antt =====
-- Net/TcpConnection.cpp: along any run, what is accepted is what goes to the socket.
use ioloop.Prelude.{
  ℕ, ◌≡◌, ◌≢◌, refl, sym, ap, ◌∙◌, subst, List, [], ◌∷◌, ◌++◌, append_assoc, Option, none, some,
  Result, ok, arith, Bool, true, false, bind-ok, if◌then◌else◌,
}
use ioloop.Buffer.{Buffer}
use ioloop.Buffer.Ints.{ByteOrder}
use ioloop.Connection.{
  Conn, State, disconnected, connecting, connected, disconnecting, Task, send_task, send_piece_task,
  seen_bytes, shutdown_task, force_close_task, send_in_this_thread, connect_established,
  connect_destroyed, shutdown, force_close, send, run_posted, on_header, on_body, run_first,
  shutdown_in_this_thread, handle_close, force_close_in_this_thread,
}
use ioloop.Connection.Stream.{
  OutInv, Accepts, Accepts-same, stream, send_in_this_thread-Accepts, on_write-Accepts,
  on_write_failed-Accepts,
}
use ioloop.Connection.Steps.{
  sent_buffer, send_buffer_sends, post_copy, or_empty, starts_empty, posts_empty, StepHasBytes,
  HasBytes, accepted, accepted_posted, Fits, consuming, Step, established, destroyed, shut, forced,
  sent, ran, wrote, write_failed, header_came, header_failed, body_came, body_failed, Reach, here,
  next,
}

-- The fields that sending is about.
abbrev SameOutput : Conn → Conn → Type 0
SameOutput c c' = (c'.output ≡ c.output) × (c'.in_flight ≡ c.in_flight) × (c'.wire ≡ c.wire)

established_same : (c c' : Conn) → connect_established c ≡ ok c' → SameOutput c c'
unfolding connect_established
established_same c c' r = (ground arith, ground arith, ground arith)

destroyed_same : (c c' : Conn) → connect_destroyed c ≡ ok c' → SameOutput c c'
unfolding connect_destroyed
destroyed_same c c' r = (ground arith, ground arith, ground arith)

shutdown_same : (in_loop : Bool) (c : Conn) → SameOutput c (shutdown in_loop c)
unfolding shutdown
shutdown_same in_loop c = (ground arith, ground arith, ground arith)

force_close_same : (c : Conn) → SameOutput c (force_close c)
unfolding force_close
force_close_same c = (ground arith, ground arith, ground arith)

handle_close_same : (c c' : Conn) → handle_close c ≡ ok c' → SameOutput c c'
unfolding handle_close
handle_close_same c c' r = (ground arith, ground arith, ground arith)

force_close_in_this_thread_same :
    (c c' : Conn) → force_close_in_this_thread c ≡ ok c' → SameOutput c c'
unfolding force_close_in_this_thread
force_close_in_this_thread_same c c' r = (ground arith, ground arith, ground arith)

shutdown_in_this_thread_same : (c : Conn) → SameOutput c (shutdown_in_this_thread c)
unfolding shutdown_in_this_thread
shutdown_in_this_thread_same c = (ground arith, ground arith, ground arith)

module _ (net : ByteOrder) where
  on_header_same :
      (xs : Option (List ℕ)) (c c' : Conn) → on_header net xs c ≡ ok c' → SameOutput c c'
  unfolding on_header
  on_header_same none c c' r = (ground arith, ground arith, ground arith)
  on_header_same (some xs) c c' r = (ground arith, ground arith, ground arith)

on_body_same :
    (consume : Buffer → Result Buffer) (xs : List ℕ) (c c' : Conn)
    → on_body (consuming consume) (some xs) c ≡ ok c'
    → SameOutput c c'
unfolding on_body
on_body_same consume xs c c' r = (ground arith, ground arith, ground arith)

on_body_failed_same :
    (callback : Conn → Result Conn) (c c' : Conn)
    → on_body callback none c ≡ ok c'
    → SameOutput c c'
unfolding on_body
on_body_failed_same callback c c' r = (ground arith, ground arith, ground arith)

keeps : {c c' : Conn} {bs : List ℕ} → OutInv c → bs ≡ [] → SameOutput c c' → Accepts c bs c'
keeps {c} {c'} v e s = subst (λ k. Accepts c k c') (sym e) (Accepts-same c' v s.0 s.1 s.2)

live_of : {s : State} (t : State) → s ≡ t → t ≢ disconnected → s ≢ disconnected
live_of t e n h = n (sym e ∙ h)

send_inside :
    (m : List ℕ) (c : Conn) → c.state ≡ connected → send true m c ≡ send_in_this_thread m c
unfolding send
send_inside m c e = ground arith

send_refused :
    (in_loop : Bool) (m : List ℕ) (c c' : Conn)
    → c.state ≢ connected
    → send in_loop m c ≡ ok c'
    → SameOutput c c'
unfolding send
send_refused in_loop m c c' e r = (ground arith, ground arith, ground arith)

send_outside : (m : List ℕ) (c c' : Conn) → send false m c ≡ ok c' → SameOutput c c'
unfolding send
send_outside m c c' r = (ground arith, ground arith, ground arith)

send-Accepts :
    {c : Conn} {c' : Conn} (in_loop : Bool) (s : State) (m : List ℕ)
    → c.state ≡ s
    → OutInv c
    → Fits c m
    → starts_empty m c ≡ false
    → send in_loop m c ≡ ok c'
    → Accepts c (accepted in_loop s m) c'
send-Accepts {c} {c'} true connected m e v f n r =
    send_in_this_thread-Accepts m v (live_of connected e (λ h. cc)) f.0 f.1 n
      (sym (send_inside m c e) ∙ r)
send-Accepts {c} {c'} true disconnected m e v f n r =
    keeps v refl (send_refused true m c c' (λ h. cc) r)
send-Accepts {c} {c'} true connecting m e v f n r =
    keeps v refl (send_refused true m c c' (λ h. cc) r)
send-Accepts {c} {c'} true disconnecting m e v f n r =
    keeps v refl (send_refused true m c c' (λ h. cc) r)
send-Accepts {c} {c'} false _ m e v f n r = keeps v refl (send_outside m c c' r)

send_copy-Accepts :
    {c : Conn} {c' : Conn} (in_loop : Bool) (m : List ℕ)
    → OutInv c
    → Fits c m
    → starts_empty m c ≡ false
    → (if in_loop then send true m c else ok (post_copy m c)) ≡ ok c'
    → Accepts c (accepted in_loop c.state m) c'
send_copy-Accepts {c} {c'} true m v f n r = send-Accepts true c.state m refl v f n r
send_copy-Accepts {c} {c'} false m v f n r = keeps v refl (ground arith, ground arith, ground arith)

send_closed_same :
    (m : List ℕ) (c c' : Conn) → c.state ≡ disconnected → send_in_this_thread m c ≡ ok c' → c' ≡ c
unfolding send_in_this_thread
send_closed_same m c c' e r = ground arith

-- The posted function is taken off the queue before it runs.
abbrev without : Conn → List Task → Conn
without c rest = record c { posted = rest }

from_without :
    {c : Conn} {c' : Conn} {bs : List ℕ} (rest : List Task)
    → Accepts (without c rest) bs c'
    → Accepts c bs c'
from_without rest a = record { inv = a.inv; extends = a.extends }

inv_without : {c : Conn} (rest : List Task) → OutInv c → OutInv (without c rest)
inv_without rest v = record { pending = v.pending; holds = v.holds; under_way = v.under_way }

run_empty : (seen : Option (List ℕ)) (c c' : Conn) → run_first seen [] c ≡ ok c' → c' ≡ c
unfolding run_first
run_empty seen c c' r = ground arith

same_of : {c c' : Conn} → c' ≡ c → SameOutput c c'
same_of e = (ap Conn.output e, ap Conn.in_flight e, ap Conn.wire e)

ok_same : (x c' : Conn) → ok x ≡ ok c' → c' ≡ x
ok_same x c' r = ground arith

shut_now :
    (seen : Option (List ℕ)) (rest : List Task) (c c' : Conn)
    → run_first seen (shutdown_task ∷ rest) c ≡ ok c'
    → SameOutput (without c rest) c'
unfolding run_first
shut_now seen rest c c' r =
    subst (SameOutput (without c rest))
      (sym (ok_same (shutdown_in_this_thread (without c rest)) c' r))
      (shutdown_in_this_thread_same (without c rest))

seen_some :
    (seen : Option (List ℕ)) (n : ℕ) (bytes : List ℕ)
    → seen_bytes seen n ≡ ok bytes
    → seen ≡ some bytes
seen_some none n bytes e = ground (arith, e)
seen_some (some xs) n bytes e = ground (arith, e)

-- A posted piece, once its bytes are known.
piece_some :
    {c : Conn} {c' : Conn} (n : ℕ) (rest : List Task) (s : State)
    → c.state ≡ s
    → OutInv c
    → (bytes : List ℕ) → send_in_this_thread bytes (without c rest) ≡ ok c'
    → Fits c (accepted_posted (some bytes) (send_piece_task n ∷ rest) s)
    → starts_empty bytes c ≡ false
    → Accepts c (accepted_posted (some bytes) (send_piece_task n ∷ rest) s) c'
piece_some {c} {c'} n rest disconnected e v bytes r f q =
    from_without rest
      (keeps (inv_without rest v) refl (same_of (send_closed_same bytes (without c rest) c' e r)))
piece_some {c} {c'} n rest connected e v bytes r f q = from_without rest (
    send_in_this_thread-Accepts bytes (inv_without rest v) (live_of connected e (λ h. cc)) f.0 f.1 q
      r)
piece_some {c} {c'} n rest connecting e v bytes r f q = from_without rest (
    send_in_this_thread-Accepts bytes (inv_without rest v) (live_of connecting e (λ h. cc)) f.0 f.1
      q r)
piece_some {c} {c'} n rest disconnecting e v bytes r f q = from_without rest (
    send_in_this_thread-Accepts bytes (inv_without rest v) (live_of disconnecting e (λ h. cc)) f.0
      f.1 q r)

from_rest_piece :
    {c : Conn} {c' : Conn} (seen : Option (List ℕ)) (n : ℕ) (rest : List Task) (s : State)
    → c.state ≡ s
    → OutInv c
    → Fits c (accepted_posted seen (send_piece_task n ∷ rest) s)
    → starts_empty (or_empty seen) c ≡ false
    → (bytes : List ℕ) → seen ≡ some bytes
    → send_in_this_thread bytes (without c rest) ≡ ok c'
    → Accepts c (accepted_posted seen (send_piece_task n ∷ rest) s) c'
from_rest_piece {c} {c'} seen n rest s e v f q bytes seen_is r =
    subst
      (λ o.
        Fits c (accepted_posted o (send_piece_task n ∷ rest) s)
        → starts_empty (or_empty o) c ≡ false
        → Accepts c (accepted_posted o (send_piece_task n ∷ rest) s) c')
      (sym seen_is) (piece_some n rest s e v bytes r) f q

run_first-Accepts :
    {c : Conn} {c' : Conn} (seen : Option (List ℕ)) (ts : List Task) (s : State)
    → c.state ≡ s
    → OutInv c
    → Fits c (accepted_posted seen ts s)
    → posts_empty seen ts c ≡ false
    → run_first seen ts c ≡ ok c'
    → Accepts c (accepted_posted seen ts s) c'
unfolding run_first
run_first-Accepts {c} {c'} seen [] s e v f q r = keeps v refl (same_of (run_empty seen c c' r))
run_first-Accepts {c} {c'} seen (send_task m ∷ rest) disconnected e v f q r =
    piece_some 0 rest disconnected e v m r f q
run_first-Accepts {c} {c'} seen (send_task m ∷ rest) connected e v f q r =
    piece_some 0 rest connected e v m r f q
run_first-Accepts {c} {c'} seen (send_task m ∷ rest) connecting e v f q r =
    piece_some 0 rest connecting e v m r f q
run_first-Accepts {c} {c'} seen (send_task m ∷ rest) disconnecting e v f q r =
    piece_some 0 rest disconnecting e v m r f q
run_first-Accepts {c} {c'} seen (send_piece_task n ∷ rest) s e v f q r =
    let (bytes, seen_is, r') = bind-ok (seen_bytes seen n) _ c' r in
    from_rest_piece seen n rest s e v f q bytes (seen_some seen n bytes seen_is) r'
run_first-Accepts {c} {c'} seen (shutdown_task ∷ rest) s e v f q r =
    from_without rest (keeps (inv_without rest v) refl (shut_now seen rest c c' r))
run_first-Accepts {c} {c'} seen (force_close_task ∷ rest) s e v f q r =
    from_without rest
      (keeps (inv_without rest v) refl (force_close_in_this_thread_same (without c rest) c' r))

run_posted-Accepts :
    {c : Conn} {c' : Conn} (seen : Option (List ℕ))
    → OutInv c
    → Fits c (accepted_posted seen c.posted c.state)
    → posts_empty seen c.posted c ≡ false
    → run_posted seen c ≡ ok c'
    → Accepts c (accepted_posted seen c.posted c.state) c'
unfolding run_posted
run_posted-Accepts {c} {c'} seen v f q r = run_first-Accepts seen c.posted c.state refl v f q r

module _ (net : ByteOrder) where
  pub Step-Accepts :
      {c : Conn} {c' : Conn} {bs : List ℕ}
      → OutInv c
      → (s : Step net c bs c') → StepHasBytes s
      → Accepts c bs c'
  Step-Accepts {c} {c'} v (established e r) q = keeps v e (established_same c c' r)
  Step-Accepts {c} {c'} v (destroyed e r) q = keeps v e (destroyed_same c c' r)
  Step-Accepts {c} {c'} v (shut in_loop e r) q =
      keeps v e (subst (SameOutput c) (sym r) (shutdown_same in_loop c))
  Step-Accepts {c} {c'} v (forced e r) q =
      keeps v e (subst (SameOutput c) (sym r) (force_close_same c))
  Step-Accepts {c} {c'} v (sent in_loop m e f r) q =
      subst (λ k. Accepts c k c') (sym e) (send-Accepts in_loop c.state m refl v f q r)
  Step-Accepts {c} {c'} v (sent_buffer in_loop b b' m e h f k) q =
      let r = send_buffer_sends in_loop b b' m c c' h k in
      subst (λ k. Accepts c k c') (sym e) (send_copy-Accepts in_loop m v f q r)
  Step-Accepts {c} {c'} v (ran seen e f r) q =
      subst (λ k. Accepts c k c') (sym e) (run_posted-Accepts seen v (subst (Fits c) e f) q r)
  Step-Accepts {c} {c'} v (wrote s rest e f r) q =
      subst (λ k. Accepts c k c') (sym e) (on_write-Accepts s rest v f r)
  Step-Accepts {c} {c'} v (write_failed e r) q =
      subst (λ k. Accepts c k c') (sym e) (on_write_failed-Accepts v r)
  Step-Accepts {c} {c'} v (header_came xs e h n r) q =
      keeps v e (on_header_same net (some xs) c c' r)
  Step-Accepts {c} {c'} v (header_failed e h r) q = keeps v e (on_header_same net none c c' r)
  Step-Accepts {c} {c'} v (body_came consume xs e h r) q =
      keeps v e (on_body_same consume xs c c' r)
  Step-Accepts {c} {c'} v (body_failed n callback e h r) q =
      keeps v e (on_body_failed_same callback c c' r)

  -- Along any run of a connection, with its writes complete or failed, what complete writes have
  -- put on the socket, followed by what waits in the output buffer, is what it was at the start
  -- followed by every message accepted on the way, in order; and a write under way is of the front
  -- of what waits, and is the only one, if it was so at the start. A message is accepted when
  -- `sendInThisThread` is reached before the connection is closed; it is shorter than 2^31 bytes,
  -- the buffer can hold it, and it is not empty where it finds the output buffer empty. Of a string
  -- that `send` was given on another thread, what is accepted are the bytes that stand there when
  -- the loop uses it. A run has no step that completes a write whose bytes `append` has moved or
  -- freed under it: that is a fault.
  pub Reach-Accepts :
      {c : Conn} {c' : Conn} {bs : List ℕ}
      → OutInv c
      → (r : Reach net c bs c') → HasBytes r
      → Accepts c bs c'
  Reach-Accepts {c} {c'} v here q = keeps v refl (refl, refl, refl)
  Reach-Accepts {c} {c'} v (next {bs} {d} {bs'} {e} r s) q =
      let a = Reach-Accepts v r q.0 in
      let b = Step-Accepts a.inv s q.1 in
      record {
        inv = b.inv;
        extends = b.extends ∙ ap (λ l. l ++ bs') a.extends ∙ append_assoc (stream c) bs bs';
      }
