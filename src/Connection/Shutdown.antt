-- ===== src/Connection/Shutdown.antt =====
-- Net/TcpConnection.cpp: `shutdown` closes the sending side only when all is sent.
use ioloop.Connection.Life.{ok_same}
use ioloop.Prelude.{
  ◌-◌, append-nil, take, ℕ, ◌≡◌, sym, ap, ◌∙◌, subst, List, [], ◌∷◌, ◌++◌, Option, none, some,
  Result, ok, arith, Bool, true, false, bind-ok, if◌then◌else◌, length,
}
use ioloop.Buffer.{peek, Buffer}
use ioloop.Buffer.Ints.{ByteOrder}
use ioloop.Connection.{
  Conn, Task, send_task, send_piece_task, seen_bytes, shutdown_task, force_close_task,
  send_in_this_thread, on_write, connect_established, connect_destroyed, shutdown, force_close,
  send, run_posted, on_header, on_body, run_first, shutdown_in_this_thread, handle_close,
  read_header, force_close_in_this_thread, write,
}
use ioloop.Connection.Steps.{
  post_copy, HasBytes, StepHasBytes, sent_buffer, send_buffer_sends, consuming, Step, established,
  destroyed, shut, forced, sent, ran, wrote, write_failed, header_came, header_failed, body_came,
  body_failed, Reach, next,
}
use ioloop.Buffer.{readable_bytes}
use ioloop.Connection.Stream.{OutInv, stream}
use ioloop.Connection.Delivery.{Reach-Accepts}

-- What holds of the output buffer once the sending side is newly shut down.
abbrev ShutsEmpty : Conn → Conn → Type 0
ShutsEmpty c c' = c.send_closed ≡ false → c'.send_closed ≡ true → readable_bytes c'.output ≡ 0

shuts_now : (c : Conn) → ShutsEmpty c (shutdown_in_this_thread c)
unfolding shutdown_in_this_thread
shuts_now c f t = ground arith

shuts_same : (c c' : Conn) → c'.send_closed ≡ c.send_closed → ShutsEmpty c c'
shuts_same c c' e f t = ground arith

shuts_shutdown : (in_loop : Bool) (c : Conn) → ShutsEmpty c (shutdown in_loop c)
unfolding shutdown shutdown_in_this_thread
shuts_shutdown in_loop c f t = ground arith

shuts_write : (n : Option ℕ) (c c' : Conn) → on_write n c ≡ ok c' → ShutsEmpty c c'
unfolding on_write shutdown_in_this_thread write
shuts_write none c c' r f t = ground arith
shuts_write (some n) c c' r f t = ground arith

shuts_handle_close : (c c' : Conn) → handle_close c ≡ ok c' → c'.send_closed ≡ c.send_closed
unfolding handle_close
shuts_handle_close c c' r = ground arith

shuts_send_in :
    (m : List ℕ) (c c' : Conn) → send_in_this_thread m c ≡ ok c' → c'.send_closed ≡ c.send_closed
unfolding send_in_this_thread write
shuts_send_in m c c' r = ground arith

shuts_send :
    (in_loop : Bool) (m : List ℕ) (c c' : Conn)
    → send in_loop m c ≡ ok c'
    → c'.send_closed ≡ c.send_closed
unfolding send send_in_this_thread write
shuts_send in_loop m c c' r = ground arith

shuts_send_copy :
    (in_loop : Bool) (m : List ℕ) (c c' : Conn)
    → (if in_loop then send true m c else ok (post_copy m c)) ≡ ok c'
    → c'.send_closed ≡ c.send_closed
shuts_send_copy true m c c' r = shuts_send true m c c' r
shuts_send_copy false m c c' r = ground arith

shuts_established : (c c' : Conn) → connect_established c ≡ ok c' → c'.send_closed ≡ c.send_closed
unfolding connect_established read_header
shuts_established c c' r = ground arith

shuts_destroyed : (c c' : Conn) → connect_destroyed c ≡ ok c' → c'.send_closed ≡ c.send_closed
unfolding connect_destroyed
shuts_destroyed c c' r = ground arith

shuts_forced : (c : Conn) → (force_close c).send_closed ≡ c.send_closed
unfolding force_close
shuts_forced c = ground arith

shuts_header :
    (net : ByteOrder) (xs : Option (List ℕ)) (c c' : Conn)
    → on_header net xs c ≡ ok c'
    → c'.send_closed ≡ c.send_closed
unfolding on_header handle_close
shuts_header net none c c' r = ground arith
shuts_header net (some xs) c c' r = ground arith

shuts_body :
    (consume : Buffer → Result Buffer) (xs : List ℕ) (c c' : Conn)
    → on_body (consuming consume) (some xs) c ≡ ok c'
    → c'.send_closed ≡ c.send_closed
unfolding on_body read_header
shuts_body consume xs c c' r = ground arith

shuts_body_fail :
    (callback : Conn → Result Conn) (c c' : Conn)
    → on_body callback none c ≡ ok c'
    → c'.send_closed ≡ c.send_closed
unfolding on_body handle_close
shuts_body_fail callback c c' r = ground arith

shuts_force_in :
    (c c' : Conn) → force_close_in_this_thread c ≡ ok c' → c'.send_closed ≡ c.send_closed
unfolding force_close_in_this_thread handle_close
shuts_force_in c c' r = ground arith

shuts_first :
    (seen : Option (List ℕ)) (ts : List Task) (c c' : Conn)
    → run_first seen ts c ≡ ok c'
    → ShutsEmpty c c'
unfolding run_first
shuts_first seen [] c c' r = shuts_same c c' (ground arith)
shuts_first seen (send_task m ∷ rest) c c' r =
    shuts_same c c' (shuts_send_in m (record c { posted = rest }) c' r)
shuts_first seen (send_piece_task n ∷ rest) c c' r =
    let (bytes, e, r') = bind-ok (seen_bytes seen n) _ c' r in
    shuts_same c c' (shuts_send_in bytes (record c { posted = rest }) c' r')
shuts_first seen (shutdown_task ∷ rest) c c' r =
    subst (ShutsEmpty c) (sym (ok_same (shutdown_in_this_thread (record c { posted = rest })) c' r))
      (shuts_now (record c { posted = rest }))
shuts_first seen (force_close_task ∷ rest) c c' r =
    shuts_same c c' (shuts_force_in (record c { posted = rest }) c' r)

shuts_posted : (seen : Option (List ℕ)) (c c' : Conn) → run_posted seen c ≡ ok c' → ShutsEmpty c c'
unfolding run_posted
shuts_posted seen c c' r = shuts_first seen c.posted c c' r

module _ (net : ByteOrder) where
  shuts : {c : Conn} {c' : Conn} {bs : List ℕ} → Step net c bs c' → ShutsEmpty c c'
  shuts {c} {c'} (established e r) = shuts_same c c' (shuts_established c c' r)
  shuts {c} {c'} (destroyed e r) = shuts_same c c' (shuts_destroyed c c' r)
  shuts {c} {c'} (shut in_loop e r) = subst (ShutsEmpty c) (sym r) (shuts_shutdown in_loop c)
  shuts {c} {c'} (forced e r) =
      subst (ShutsEmpty c) (sym r) (shuts_same c (force_close c) (shuts_forced c))
  shuts {c} {c'} (sent in_loop m e f r) = shuts_same c c' (shuts_send in_loop m c c' r)
  shuts {c} {c'} (sent_buffer in_loop b b' m e h f q) =
      shuts_same c c' (shuts_send_copy in_loop m c c' (send_buffer_sends in_loop b b' m c c' h q))
  shuts {c} {c'} (ran seen e f r) = shuts_posted seen c c' r
  shuts {c} {c'} (wrote s rest e f r) = shuts_write (some (length s)) c c' r
  shuts {c} {c'} (write_failed e r) = shuts_write none c c' r
  shuts {c} {c'} (header_came xs e h n r) = shuts_same c c' (shuts_header net (some xs) c c' r)
  shuts {c} {c'} (header_failed e h r) = shuts_same c c' (shuts_header net none c c' r)
  shuts {c} {c'} (body_came consume xs e h r) = shuts_same c c' (shuts_body consume xs c c' r)
  shuts {c} {c'} (body_failed n callback e h r) = shuts_same c c' (shuts_body_fail callback c c' r)

  -- After any run, the step that shuts down the sending side finds everything on the socket: what
  -- was written and buffered at the start, and all that was accepted since, if no empty message
  -- found the output buffer empty on the way.
  pub shutdown_flushes :
      {c : Conn} {d : Conn} {e : Conn} {bs : List ℕ} {bs' : List ℕ}
      → OutInv c
      → (r : Reach net c bs d) → (s : Step net d bs' e) → HasBytes r
      → StepHasBytes s
      → d.send_closed ≡ false
      → e.send_closed ≡ true
      → e.wire ≡ stream c ++ (bs ++ bs')
  shutdown_flushes {c} {d} {e} {bs} {bs'} v r s p q f t =
      let a = Reach-Accepts net v (next r s) (p, q) in
      let none_left : e.output.writer - e.output.reader ≡ 0 =
        omega (arith, shuts s f t, a.inv.holds.valid) in
      sym (append-nil e.wire)
      ∙ ap (λ n. e.wire ++ take n (peek e.output)) (sym none_left)
      ∙ a.extends
