-- ===== src/Connection/Stuck.antt =====
-- Net/TcpConnection.cpp: what becomes of a connection whose write fails.
use ioloop.Buffer.Space.{contents, length-contents}
use ioloop.Connection.Life.{ok_same}
use ioloop.Prelude.{
  ◌≢◌, length-append, ℕ, ◌≡◌, refl, sym, ap, ◌∙◌, subst, List, [], ◌∷◌, Option, none, some, Result,
  ok, arith, Bool, true, false, bind-ok, if◌then◌else◌, length,
}
use ioloop.Buffer.{Buffer}
use ioloop.Buffer.Ints.{ByteOrder}
use ioloop.Connection.{
  Conn, Task, send_task, send_piece_task, seen_bytes, shutdown_task, force_close_task,
  send_in_this_thread, on_write, connect_established, connect_destroyed, shutdown, force_close,
  send, run_posted, on_header, on_body, run_first, shutdown_in_this_thread, handle_close,
  read_header, force_close_in_this_thread, write,
}
use ioloop.Connection.Steps.{
  or_empty, post_copy, starts_empty, posts_empty, StepHasBytes, sent_buffer, send_buffer_sends,
  consuming, Step, established, destroyed, shut, forced, sent, ran, wrote, write_failed,
  header_came, header_failed, body_came, body_failed, Reach, here, next,
}
use ioloop.Buffer.{readable_bytes}
use ioloop.Connection.Stream.{OutInv, Accepts, stream}
use ioloop.Connection.Delivery.{Step-Accepts}

-- No write is under way, and bytes wait: the wait is for ever.
pub record Stuck (c : Conn) : Type 0 where
  pub no_write : c.in_flight ≡ []
  pub waiting : readable_bytes c.output ≢ 0

-- What a step from there leaves alone.
record Idle (c c' : Conn) : Type 0 where
  no_write : c'.in_flight ≡ []
  unsent : c'.wire ≡ c.wire

Idle-established : (c c' : Conn) → Stuck c → connect_established c ≡ ok c' → Idle c c'
unfolding connect_established read_header
Idle-established c c' s r = record { no_write = ground (arith, s.no_write); unsent = ground arith }

Idle-destroyed : (c c' : Conn) → Stuck c → connect_destroyed c ≡ ok c' → Idle c c'
unfolding connect_destroyed
Idle-destroyed c c' s r = record { no_write = ground (arith, s.no_write); unsent = ground arith }

Idle-shutdown : (in_loop : Bool) (c : Conn) → Stuck c → Idle c (shutdown in_loop c)
unfolding shutdown shutdown_in_this_thread
Idle-shutdown in_loop c s = record { no_write = ground (arith, s.no_write); unsent = ground arith }

Idle-force : (c : Conn) → Stuck c → Idle c (force_close c)
unfolding force_close
Idle-force c s = record { no_write = ground (arith, s.no_write); unsent = ground arith }

Idle-send_in : (m : List ℕ) (c c' : Conn) → Stuck c → send_in_this_thread m c ≡ ok c' → Idle c c'
unfolding send_in_this_thread write
Idle-send_in m c c' s r = record {
  no_write = ground (arith, s.no_write, s.waiting);
  unsent = ground arith;
}

Idle-send :
    (in_loop : Bool) (m : List ℕ) (c c' : Conn) → Stuck c → send in_loop m c ≡ ok c' → Idle c c'
unfolding send send_in_this_thread write
Idle-send in_loop m c c' s r = record {
  no_write = ground (arith, s.no_write, s.waiting);
  unsent = ground arith;
}

Idle-send_copy :
    (in_loop : Bool) (m : List ℕ) (c c' : Conn)
    → Stuck c
    → (if in_loop then send true m c else ok (post_copy m c)) ≡ ok c'
    → Idle c c'
Idle-send_copy true m c c' s r = Idle-send true m c c' s r
Idle-send_copy false m c c' s r = record {
  no_write = ground (arith, s.no_write);
  unsent = ground arith;
}

Idle-failed : (c c' : Conn) → Stuck c → on_write none c ≡ ok c' → Idle c c'
unfolding on_write
Idle-failed c c' s r = record { no_write = ground (arith, s.no_write); unsent = ground arith }

Idle-handle_close : (c c' : Conn) → Stuck c → handle_close c ≡ ok c' → Idle c c'
unfolding handle_close
Idle-handle_close c c' s r = record { no_write = ground (arith, s.no_write); unsent = ground arith }

Idle-header :
    (net : ByteOrder) (xs : Option (List ℕ)) (c c' : Conn)
    → Stuck c
    → on_header net xs c ≡ ok c'
    → Idle c c'
unfolding on_header handle_close
Idle-header net none c c' s r = record {
  no_write = ground (arith, s.no_write);
  unsent = ground arith;
}
Idle-header net (some xs) c c' s r = record {
  no_write = ground (arith, s.no_write);
  unsent = ground arith;
}

Idle-body :
    (consume : Buffer → Result Buffer) (xs : List ℕ) (c c' : Conn)
    → Stuck c
    → on_body (consuming consume) (some xs) c ≡ ok c'
    → Idle c c'
unfolding on_body read_header
Idle-body consume xs c c' s r = record {
  no_write = ground (arith, s.no_write);
  unsent = ground arith;
}

Idle-body_fail :
    (callback : Conn → Result Conn) (c c' : Conn)
    → Stuck c
    → on_body callback none c ≡ ok c'
    → Idle c c'
unfolding on_body handle_close
Idle-body_fail callback c c' s r = record {
  no_write = ground (arith, s.no_write);
  unsent = ground arith;
}

Idle-force_in : (c c' : Conn) → Stuck c → force_close_in_this_thread c ≡ ok c' → Idle c c'
unfolding force_close_in_this_thread handle_close
Idle-force_in c c' s r = record { no_write = ground (arith, s.no_write); unsent = ground arith }

Idle-shut_in : (c : Conn) → Stuck c → Idle c (shutdown_in_this_thread c)
unfolding shutdown_in_this_thread
Idle-shut_in c s = record { no_write = ground (arith, s.no_write); unsent = ground arith }

Stuck-rest : {c : Conn} (rest : List Task) → Stuck c → Stuck (record c { posted = rest })
Stuck-rest rest s = record { no_write = s.no_write; waiting = s.waiting }

Idle-rest :
    {c : Conn} {c' : Conn} (rest : List Task) → Idle (record c { posted = rest }) c' → Idle c c'
Idle-rest rest i = record { no_write = i.no_write; unsent = i.unsent }

Idle-first :
    (seen : Option (List ℕ)) (ts : List Task) (c c' : Conn)
    → Stuck c
    → run_first seen ts c ≡ ok c'
    → Idle c c'
unfolding run_first
Idle-first seen [] c c' s r = record {
  no_write = ground (arith, s.no_write);
  unsent = ground arith;
}
Idle-first seen (send_task m ∷ rest) c c' s r =
    Idle-rest rest (Idle-send_in m (record c { posted = rest }) c' (Stuck-rest rest s) r)
Idle-first seen (send_piece_task n ∷ rest) c c' s r =
    let (bytes, e, r') = bind-ok (seen_bytes seen n) _ c' r in
    Idle-rest rest (Idle-send_in bytes (record c { posted = rest }) c' (Stuck-rest rest s) r')
Idle-first seen (shutdown_task ∷ rest) c c' s r = Idle-rest rest (
    subst (Idle (record c { posted = rest }))
      (sym (ok_same (shutdown_in_this_thread (record c { posted = rest })) c' r))
      (Idle-shut_in (record c { posted = rest }) (Stuck-rest rest s)))
Idle-first seen (force_close_task ∷ rest) c c' s r =
    Idle-rest rest (Idle-force_in (record c { posted = rest }) c' (Stuck-rest rest s) r)

Idle-posted :
    (seen : Option (List ℕ)) (c c' : Conn) → Stuck c → run_posted seen c ≡ ok c' → Idle c c'
unfolding run_posted
Idle-posted seen c c' s r = Idle-first seen c.posted c c' s r

none_under_way :
    (c : Conn) (s : List ℕ) (rest : List (List ℕ)) → Stuck c → c.in_flight ≡ s ∷ rest → ⊥
none_under_way c s rest k e = ground (arith, k.no_write)

module _ (net : ByteOrder) where
  Idle-Step : {c : Conn} {c' : Conn} {bs : List ℕ} → Stuck c → Step net c bs c' → Idle c c'
  Idle-Step {c} {c'} k (established e r) = Idle-established c c' k r
  Idle-Step {c} {c'} k (destroyed e r) = Idle-destroyed c c' k r
  Idle-Step {c} {c'} k (shut in_loop e r) = subst (Idle c) (sym r) (Idle-shutdown in_loop c k)
  Idle-Step {c} {c'} k (forced e r) = subst (Idle c) (sym r) (Idle-force c k)
  Idle-Step {c} {c'} k (sent in_loop m e f r) = Idle-send in_loop m c c' k r
  Idle-Step {c} {c'} k (sent_buffer in_loop b b' m e h f q) =
      Idle-send_copy in_loop m c c' k (send_buffer_sends in_loop b b' m c c' h q)
  Idle-Step {c} {c'} k (ran seen e f r) = Idle-posted seen c c' k r
  Idle-Step {c} {c'} k (wrote s rest e f r) = absurd (none_under_way c s rest k f)
  Idle-Step {c} {c'} k (write_failed e r) = Idle-failed c c' k r
  Idle-Step {c} {c'} k (header_came xs e h n r) = Idle-header net (some xs) c c' k r
  Idle-Step {c} {c'} k (header_failed e h r) = Idle-header net none c c' k r
  Idle-Step {c} {c'} k (body_came consume xs e h r) = Idle-body consume xs c c' k r
  Idle-Step {c} {c'} k (body_failed n callback e h r) = Idle-body_fail callback c c' k r

  -- What waits stays, since nothing was written.
  still_waiting :
      {c : Conn} {c' : Conn} {bs : List ℕ}
      → OutInv c
      → Stuck c
      → Idle c c'
      → Accepts c bs c'
      → Stuck c'
  still_waiting {c} {c'} {bs} v k i a = record {
    no_write = i.no_write;
    waiting = λ z. k.waiting (
        omega (
          arith,
          z,
          v.holds.valid,
          a.inv.holds.valid,
          ap length i.unsent,
          length-append c.wire (contents c.output),
          length-append c'.wire (contents c'.output),
          length-append (stream c) bs,
          ap length a.extends,
          length-contents c.output v.holds.valid,
          length-contents c'.output a.inv.holds.valid,
        ));
  }

  full : (m : List ℕ) (c : Conn) → Stuck c → starts_empty m c ≡ false
  full m c k = ground (arith, k.waiting)

  posts_full :
      (seen : Option (List ℕ)) (ts : List Task) (c : Conn) → Stuck c → posts_empty seen ts c ≡ false
  posts_full seen [] c k = refl
  posts_full seen (send_task m ∷ rest) c k = full m c k
  posts_full seen (send_piece_task n ∷ rest) c k = full (or_empty seen) c k
  posts_full seen (shutdown_task ∷ rest) c k = refl
  posts_full seen (force_close_task ∷ rest) c k = refl

  Stuck-HasBytes :
      {c : Conn} {c' : Conn} {bs : List ℕ} → Stuck c → (s : Step net c bs c') → StepHasBytes s
  Stuck-HasBytes {c} k (established e r) = tt
  Stuck-HasBytes {c} k (destroyed e r) = tt
  Stuck-HasBytes {c} k (shut in_loop e r) = tt
  Stuck-HasBytes {c} k (forced e r) = tt
  Stuck-HasBytes {c} k (sent in_loop m e f r) = full m c k
  Stuck-HasBytes {c} k (sent_buffer in_loop b b' m e h f q) = full m c k
  Stuck-HasBytes {c} k (ran seen e f r) = posts_full seen c.posted c k
  Stuck-HasBytes {c} k (wrote s rest e f r) = tt
  Stuck-HasBytes {c} k (write_failed e r) = tt
  Stuck-HasBytes {c} k (header_came xs e h n r) = tt
  Stuck-HasBytes {c} k (header_failed e h r) = tt
  Stuck-HasBytes {c} k (body_came consume xs e h r) = tt
  Stuck-HasBytes {c} k (body_failed n callback e h r) = tt

  reach-Stuck :
      {c : Conn} {c' : Conn} {bs : List ℕ}
      → OutInv c
      → Stuck c
      → Reach net c bs c'
      → OutInv c' × Stuck c' × (c'.wire ≡ c.wire)
  reach-Stuck v k here = (v, k, refl)
  reach-Stuck v k (next {bs} {d} {bs'} {e} r s) =
      let (v', k', w) = reach-Stuck v k r in
      let i = Idle-Step k' s in
      let a = Step-Accepts net v' s (Stuck-HasBytes k' s) in
      (a.inv, still_waiting v' k' i a, i.unsent ∙ w)

  -- Once a write has failed and bytes wait in the output buffer, no handler and no call ever starts
  -- another write: along any run nothing more goes to the socket.
  pub Reach-Stuck :
      {c : Conn} {c' : Conn} {bs : List ℕ}
      → OutInv c
      → Stuck c
      → Reach net c bs c'
      → Stuck c' × (c'.wire ≡ c.wire)
  Reach-Stuck v k r = let (v', k', w) = reach-Stuck v k r in (k', w)
