-- ===== src/Http/Session/Backpressure.antt =====
-- Http/HttpSession.hpp: the steps of a session that serves requests, and when it reads.
use ioloop.Prelude.{subst, sym, ℕ, ◌+◌, ◌-◌, ◌≤◌, ◌≡◌, List, [], ◌∷◌, ok, Bool, true, arith}
use ioloop.Http.Router.{Matcher, Router, Storage, provide}
use ioloop.Http.Session.{
  Call, Flesh, WaitOutcome, new_flesh, new_flesh_on_error, new_flesh_on_timer, recv, do_read,
  do_eof,
}
use ioloop.Http.Session.Handlers.{
  run_call, run_calls, run_posted, Request, do_process_request, on_write_failed, on_write_closing,
  on_read, on_written, on_timer, dispatch,
}
use ioloop.Http.Session.Entry.{OnAction, no_action, error_action, timer_action, make_flesh}
use ioloop.Http.Session.Entry
use ioloop.Http.Context
use ioloop.Http.Session.Serving.{
  sends, recvs, total, Adds, Balanced, Adds-Balanced, run_call-Adds, run_calls-Adds,
  written-Balanced, on_timer-Adds, dispatch-Adds, resumed, resumed-Balanced, waiting_some,
}

module _ {Response : Type 0} (matcher : Matcher)
    (handlers : Request → List Storage → List (Call Response)) where
  -- What the handlers do for a request.
  abbrev pub answers : Router → Request → List (Call Response)
  answers router request = handlers request (provide matcher request.method request.target router)

  -- One step of a session: a read or a wait is complete, a write is complete, has failed or was the
  -- last, a `Context` is called, and time passes. No read fails; the handlers answer a request with
  -- one response at most, while they run, and besides them nothing sends or reads.
  pub data Step (f f' : Flesh Response) : Type 0 where
    request_came :
        (router : Router) (request : Request) (buffer : List ℕ)
        → f.reads ≡ 1
        → total sends (answers router request) ≤ 1
        → total recvs (answers router request) ≡ 0
        → f' ≡ on_read matcher handlers router request buffer f
        → Step f f'
    written : on_written f ≡ ok f' → Step f f'
    write_failed : f' ≡ on_write_failed f → Step f f'
    write_closing : (failed : Bool) → f' ≡ on_write_closing failed f → Step f f'
    called :
        (in_loop : Bool) (call : Call Response)
        → sends call ≡ 0
        → recvs call ≡ 0
        → f' ≡ dispatch in_loop call f
        → Step f f'
    ran_posted :
        total sends f.posted ≡ 0 → total recvs f.posted ≡ 0 → f' ≡ run_posted f.posted f → Step f f'
    waited :
        (outcome : WaitOutcome) (calls : List (Call Response)) (shutdown_failed close_failed : Bool)
        → total sends calls ≡ 0
        → total recvs calls ≡ 0
        → f' ≡ on_timer outcome calls shutdown_failed close_failed f
        → Step f f'
    ticked : (n : ℕ) → f' ≡ record f { now = f.now + n } → Step f f'

  pub data Reach (f : Flesh Response) : Flesh Response → Type 0 where
    here : Reach f f
    next : {f₁ : Flesh Response} {f₂ : Flesh Response} → Reach f f₁ → Step f₁ f₂ → Reach f f₂

  on_read-Balanced :
      (router : Router) (request : Request) (buffer : List ℕ) (f : Flesh Response)
      → f.reads ≡ 1
      → total sends (answers router request) ≤ 1
      → total recvs (answers router request) ≡ 0
      → Balanced f
      → Balanced (on_read matcher handlers router request buffer f)
  unfolding on_read do_process_request resumed
  on_read-Balanced router request buffer f r s v b =
      let f₁ : Flesh Response = record f { reads = f.reads - 1; buffer = buffer } in
      let a = run_calls-Adds (answers router request) f₁ in
      let w = waiting_some f r b in
      resumed-Balanced (run_calls (answers router request) f₁) (omega (arith, w, s, a.responses))
        (omega (arith, r, v, a.reading))

  run_posted-Adds :
      (calls : List (Call Response)) (f : Flesh Response)
      → total sends calls ≡ 0
      → total recvs calls ≡ 0
      → Adds 0 0 f (run_posted calls f)
  unfolding run_posted
  run_posted-Adds [] f s r = record {
    responses = omega arith;
    reading = omega arith;
    shut = λ o. o;
  }
  run_posted-Adds (c ∷ cs) f s r =
      let a = run_call-Adds c (record f { posted = cs }) in
      record {
        responses = omega (arith, a.responses, s);
        reading = omega (arith, a.reading, r);
        shut = λ o. a.shut o;
      }

  write_failed-Adds : (f : Flesh Response) → Adds 0 0 f (on_write_failed f)
  unfolding on_write_failed
  write_failed-Adds f = record {
    responses = ground arith;
    reading = ground arith;
    shut = λ o. ground (arith, o);
  }

  write_closing-Adds : (b : Bool) (f : Flesh Response) → Adds 0 0 f (on_write_closing b f)
  unfolding on_write_closing do_eof
  write_closing-Adds b f = record {
    responses = ground arith;
    reading = ground arith;
    shut = λ o. ground (arith, o);
  }

  pub step-Balanced : (f f' : Flesh Response) → Step f f' → Balanced f → Balanced f'
  step-Balanced f f' (request_came router request buffer r s v e) b =
      subst Balanced (sym e) (on_read-Balanced router request buffer f r s v b)
  step-Balanced f f' (written e) b = written-Balanced f f' e b
  step-Balanced f f' (write_failed e) b =
      subst Balanced (sym e) (Adds-Balanced f (on_write_failed f) (write_failed-Adds f) b)
  step-Balanced f f' (write_closing k e) b =
      subst Balanced (sym e) (Adds-Balanced f (on_write_closing k f) (write_closing-Adds k f) b)
  step-Balanced f f' (called in_loop call s r e) b =
      subst Balanced (sym e)
        (Adds-Balanced f (dispatch in_loop call f) (dispatch-Adds in_loop call f s r) b)
  step-Balanced f f' (ran_posted s r e) b =
      subst Balanced (sym e)
        (Adds-Balanced f (run_posted f.posted f) (run_posted-Adds f.posted f s r) b)
  step-Balanced f f' (waited o cs sf cf s r e) b =
      subst Balanced (sym e)
        (Adds-Balanced f (on_timer o cs sf cf f) (on_timer-Adds o cs sf cf f s r) b)
  step-Balanced f f' (ticked n e) b =
      subst Balanced (sym e)
        (record { bounded = b.bounded; single = b.single; halted = b.halted; reading = b.reading })

  new_Balanced :
      (now : ℕ) (buffer : List ℕ) (action : OnAction)
      → Balanced (do_read {Response = Response} (make_flesh buffer now action))
  unfolding make_flesh new_flesh new_flesh_on_error new_flesh_on_timer do_read
  new_Balanced now buffer no_action = record {
    bounded = omega arith;
    single = omega arith;
    halted = λ e. absurd (omega (arith, e));
    reading = λ o w. omega arith;
  }
  new_Balanced now buffer (error_action e) = record {
    bounded = omega arith;
    single = omega arith;
    halted = λ e. absurd (omega (arith, e));
    reading = λ o w. omega arith;
  }
  new_Balanced now buffer (timer_action e t) = record {
    bounded = omega arith;
    single = omega arith;
    halted = λ e. absurd (omega (arith, e));
    reading = λ o w. omega arith;
  }

  reach-Balanced : (f f' : Flesh Response) → Balanced f → Reach f f' → Balanced f'
  reach-Balanced f f' b here = b
  reach-Balanced f f' b (next r s) = step-Balanced _ f' s (reach-Balanced f _ b r)

  -- A session that `recv` made, on a thread of the loop, has at most 16 responses waiting and at most
  -- one read under way, whatever order the completions come in, and while its socket is open it reads
  -- exactly as long as fewer than 16 wait: in any run in which no read fails, each request is answered
  -- at most once, by its handlers before they return, and nothing else sends or starts a read. Writes
  -- may fail or close the connection.
  pub Reach-Balanced :
      (now : ℕ) (buffer : List ℕ) (action : OnAction) (f : Flesh Response)
      → Reach (Entry.recv_buffer true now buffer action) f
      → Balanced f
  unfolding Entry.recv_buffer Context.recv dispatch run_call recv
  Reach-Balanced now buffer action f r =
      reach-Balanced (do_read (make_flesh buffer now action)) f (new_Balanced now buffer action) r
