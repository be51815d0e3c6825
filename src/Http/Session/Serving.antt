-- ===== src/Http/Session/Serving.antt =====
-- Http/HttpSession.hpp: when a session reads, while its handlers answer a request at most once.
use ioloop.Prelude.{
  subst, ℕ, ◌+◌, ◌-◌, ◌≤◌, ◌<◌, ◌≡◌, refl, ◌∙◌, List, [], ◌∷◌, Result, ok, err, ◌>>=◌, Bool, true,
  ◌&&◌, not, leb, if◌then◌else◌, length, length-append, arith, Bool-cases, inl, inr,
}
use ioloop.Http.Queue.{Queue, is_full, on_write, push, limit}
use ioloop.Http.Session.{
  Call, recv_call, recv_for_call, send_call, send_for_call, timer_cancel_call, eof_call, cls_call,
  on_error_call, on_timer_call, Flesh, do_read, do_launch_timer, recv, recv_for, send, send_for,
  timer_cancel, do_eof, do_cls, eof, cls, member_on_error, member_on_timer, WaitOutcome, elapsed,
  aborted, wait_failed, note, timer_callback,
}
use ioloop.Http.Session.Handlers.{
  run_call, run_calls, on_written, on_timer, on_expiry, dispatch, time_out,
}

module _ {Response : Type 0} where
  -- How many responses a call sends, and how many reads it starts.
  abbrev pub sends : Call Response → ℕ
  sends (send_call response) = 1
  sends (send_for_call response duration) = 1
  sends _ = 0

  abbrev pub recvs : Call Response → ℕ
  recvs recv_call = 1
  recvs (recv_for_call duration) = 1
  recvs _ = 0

  abbrev pub total : (Call Response → ℕ) → List (Call Response) → ℕ
  total count [] = 0
  total count (call ∷ calls) = count call + total count calls

  -- How many responses wait, the one that is written among them.
  abbrev pub waiting : Flesh Response → ℕ
  waiting f = length f.queue.items

  -- What a function of the session adds to the queue and to the reads; it does not open the socket.
  pub record Adds (s r : ℕ) (f f' : Flesh Response) : Type 0 where
    pub responses : waiting f' ≡ waiting f + s
    pub reading : f'.reads ≡ f.reads + r
    pub shut : f'.is_open ≡ true → f.is_open ≡ true

  length-push : (r : Response) (q : Queue Response) → length (push r q).items ≡ length q.items + 1
  unfolding push
  length-push r q = length-append q.items (r ∷ [])

  pub run_call-Adds :
      (c : Call Response) (f : Flesh Response) → Adds (sends c) (recvs c) f (run_call c f)
  unfolding run_call recv recv_for do_read do_launch_timer send send_for timer_cancel do_eof do_cls
      eof cls member_on_error member_on_timer
  run_call-Adds recv_call f = record { responses = omega arith; reading = refl; shut = λ o. o }
  run_call-Adds (recv_for_call d) f = record {
    responses = omega arith;
    reading = refl;
    shut = λ o. o;
  }
  run_call-Adds (send_call r) f = record {
    responses = length-push r f.queue;
    reading = omega arith;
    shut = λ o. o;
  }
  run_call-Adds (send_for_call r d) f = record {
    responses = length-push r f.queue;
    reading = omega arith;
    shut = λ o. o;
  }
  run_call-Adds (timer_cancel_call b) f = record {
    responses = ground arith;
    reading = ground arith;
    shut = λ o. ground (arith, o);
  }
  run_call-Adds (eof_call b) f = record {
    responses = ground arith;
    reading = ground arith;
    shut = λ o. ground (arith, o);
  }
  run_call-Adds (cls_call b) f = record {
    responses = ground arith;
    reading = ground arith;
    shut = λ o. ground (arith, o);
  }
  run_call-Adds on_error_call f = record {
    responses = omega arith;
    reading = omega arith;
    shut = λ o. o;
  }
  run_call-Adds on_timer_call f = record {
    responses = omega arith;
    reading = omega arith;
    shut = λ o. o;
  }

  pub run_calls-Adds :
      (cs : List (Call Response)) (f : Flesh Response)
      → Adds (total sends cs) (total recvs cs) f (run_calls cs f)
  unfolding run_calls
  run_calls-Adds [] f = record { responses = omega arith; reading = omega arith; shut = λ o. o }
  run_calls-Adds (c ∷ cs) f =
      let a = run_call-Adds c f in
      let b = run_calls-Adds cs (run_call c f) in
      record {
        responses = omega (arith, a.responses, b.responses);
        reading = omega (arith, a.reading, b.reading);
        shut = λ o. a.shut (b.shut o);
      }

  -- At most `limit` responses wait, no read is under way while that many do, and one is otherwise
  -- as long as the socket is open.
  pub record Balanced (f : Flesh Response) : Type 0 where
    pub bounded : waiting f ≤ limit
    pub single : f.reads ≤ 1
    pub halted : waiting f ≡ limit → f.reads ≡ 0
    pub reading : f.is_open ≡ true → waiting f < limit → f.reads ≡ 1

  -- What neither sends nor reads, as the functions that cancel the timer and close.
  pub Adds-Balanced : (f f' : Flesh Response) → Adds 0 0 f f' → Balanced f → Balanced f'
  Adds-Balanced f f' a b =
      let w : waiting f' ≡ waiting f = omega (arith, a.responses) in
      let r : f'.reads ≡ f.reads = omega (arith, a.reading) in
      record {
        bounded = omega (arith, w, b.bounded);
        single = omega (arith, r, b.single);
        halted = λ e. r ∙ b.halted (omega (arith, w, e));
        reading = λ o l. r ∙ b.reading (a.shut o) (omega (arith, w, l));
      }

  -- The read that ends `doProcessRequest`.
  unfoldable pub resumed : Flesh Response → Flesh Response
  resumed f = if not (is_full f.queue) && f.is_open then recv f else f

  pub resumed-Balanced :
      (f : Flesh Response) → waiting f ≤ limit → f.reads ≡ 0 → Balanced (resumed f)
  unfolding resumed recv do_read
  resumed-Balanced f w r = record {
    bounded = ground (arith, w, r);
    single = ground (arith, w, r);
    halted = λ e. ground (arith, w, r, e);
    reading = λ o l. ground (arith, w, r, o, l);
  }

  pub waiting_some : (f : Flesh Response) → f.reads ≡ 1 → Balanced f → waiting f < limit
  waiting_some f r b = grind (arith, r, b.bounded, b.halted)

  on_write_counts :
      (items writes : List Response) (w : Bool) (q' : Queue Response)
      → on_write (record { items = items; writes = writes }) ≡ ok (w, q')
      → (length items ≡ length q'.items + 1) × (w ≡ leb limit (length items))
  unfolding on_write
  on_write_counts [] writes w q' e = absurd (ground (arith, e))
  on_write_counts (x ∷ xs) writes w q' e = (ground (arith, e), ground (arith, e))

  -- What `on_written` does with the answer of the queue.
  written_with : Flesh Response → Bool × Queue Response → Flesh Response
  written_with f (was_full, queue) =
      let f' : Flesh Response = record f { completed = f.completed + 1; queue = queue } in
      if was_full then recv f' else f'

  written_with-Balanced :
      (f : Flesh Response) (w : Bool) (q' : Queue Response)
      → on_write f.queue ≡ ok (w, q')
      → Balanced f
      → Balanced (written_with f (w, q'))
  unfolding written_with recv do_read
  written_with-Balanced f w q' e b =
      let (n, v) = on_write_counts f.queue.items f.queue.writes w q' e in
      elim (Bool-cases w) [
        | inl p ↦
            let full : waiting f ≡ limit = ground (arith, p, v, b.bounded) in
            let r : f.reads ≡ 0 = b.halted full in
            record {
              bounded = ground (arith, n, full, p);
              single = ground (arith, r, p);
              halted = λ k. absurd (ground (arith, p, k, n, full));
              reading = λ o l. ground (arith, r, p);
            }
        | inr p ↦
            let free : waiting f < limit = ground (arith, p, v) in
            record {
              bounded = ground (arith, n, free, p);
              single = ground (arith, b.single, p);
              halted = λ k. absurd (ground (arith, p, k, n, free));
              reading = λ o l. ground (arith, p, b.reading (ground (arith, o, p)) free);
            }
      ]

  pub written-Balanced : (f f' : Flesh Response) → on_written f ≡ ok f' → Balanced f → Balanced f'
  unfolding on_written written_with
  written-Balanced f f' e b = after (on_write f.queue) refl e
    where
      after :
          (o : Result (Bool × Queue Response))
          → on_write f.queue ≡ o
          → (o >>= λ p. ok (written_with f p)) ≡ ok f'
          → Balanced f'
      after (err fault) q k = absurd (ground (arith, k))
      after (ok (w, q')) q k = subst Balanced (ground (arith, k)) (written_with-Balanced f w q' q b)

  on_expiry-Adds :
      (cs : List (Call Response)) (sf cf : Bool) (f : Flesh Response)
      → total sends cs ≡ 0
      → total recvs cs ≡ 0
      → Adds 0 0 f (on_expiry cs sf cf f)
  unfolding on_expiry time_out
  on_expiry-Adds cs sf cf f s r =
      let a = run_calls-Adds cs (note timer_callback f) in
      record {
        responses = ground (arith, a.responses, s);
        reading = ground (arith, a.reading, r);
        shut = λ o. ground (arith, o, a.shut);
      }

  pub on_timer-Adds :
      (o : WaitOutcome) (cs : List (Call Response)) (sf cf : Bool) (f : Flesh Response)
      → total sends cs ≡ 0
      → total recvs cs ≡ 0
      → Adds 0 0 f (on_timer o cs sf cf f)
  unfolding on_timer
  on_timer-Adds wait_failed cs sf cf f s r = record {
    responses = ground arith;
    reading = ground arith;
    shut = λ o. ground (arith, o);
  }
  on_timer-Adds elapsed cs sf cf f s r =
      let a = on_expiry-Adds cs sf cf (record f { waits = f.waits - 1 }) s r in
      record { responses = a.responses; reading = a.reading; shut = a.shut }
  on_timer-Adds aborted cs sf cf f s r =
      let a = on_expiry-Adds cs sf cf (record f { waits = f.waits - 1 }) s r in
      record { responses = a.responses; reading = a.reading; shut = a.shut }

  pub dispatch-Adds :
      (in_loop : Bool) (c : Call Response) (f : Flesh Response)
      → sends c ≡ 0
      → recvs c ≡ 0
      → Adds 0 0 f (dispatch in_loop c f)
  unfolding dispatch
  dispatch-Adds in_loop c f s r =
      let a = run_call-Adds c f in
      record {
        responses = ground (arith, a.responses, s);
        reading = ground (arith, a.reading, r);
        shut = λ o. ground (arith, o, a.shut);
      }
