-- ===== src/Http/Session/Runs.antt =====
-- Http/HttpSession.hpp: the steps of a session, the order in which its responses are written along
-- any run, and what a failed write leaves behind.
use ioloop.Prelude.{
  subst, sym, ℕ, ◌+◌, ◌-◌, ◌≤◌, ◌<◌, ◌≡◌, refl, ap, ◌∙◌, List, [], ◌∷◌, ◌++◌, append-nil, Result,
  ok, err, ◌>>=◌, Bool, true, false, length, arith, length-append, if◌then◌else◌,
}
use ioloop.Http.Queue.{Queue, InOrder, front_write, on_write}
use ioloop.Http.Router.{Matcher, Router, Storage, provide}
use ioloop.Http.Session.{
  Call, Flesh, WaitOutcome, elapsed, aborted, wait_failed, new_flesh, do_read, new_flesh_on_error,
  new_flesh_on_timer, recv, do_eof,
}
use ioloop.Http.Session.Handlers.{
  run_calls, run_posted, Request, do_process_request, on_read, on_read_failed, on_written,
  on_write_failed, on_write_closing, on_timer, on_expiry, time_out, dispatch,
}
use ioloop.Http.Session.Entry.{OnAction, no_action, error_action, timer_action, make_flesh}
use ioloop.Http.Session.Order.{
  sent_by, sent_by_all, writing, push_all, Pushes, run_call-Pushes, run_calls-Pushes, Writes,
  Pushes-Writes, on_write-Writes,
}

module _ {Response : Type 0} where
  -- A step of a session, with the responses that it pushes.
  pub data Step (matcher : Matcher) (handlers : Request → List Storage → List (Call Response))
      (f : Flesh Response) (rs : List Response) (f' : Flesh Response) : Type 0 where
    request_came :
        (router : Router) (request : Request) (buffer : List ℕ)
        → rs ≡ sent_by_all (handlers request (provide matcher request.method request.target router))
        → f' ≡ on_read matcher handlers router request buffer f
        → Step matcher handlers f rs f'
    read_failed : rs ≡ [] → f' ≡ on_read_failed f → Step matcher handlers f rs f'
    written : 0 < writing f → rs ≡ [] → on_written f ≡ ok f' → Step matcher handlers f rs f'
    write_failed : 0 < writing f → rs ≡ [] → f' ≡ on_write_failed f → Step matcher handlers f rs f'
    write_closing :
        (failed : Bool)
        → 0 < writing f
        → rs ≡ []
        → f' ≡ on_write_closing failed f
        → Step matcher handlers f rs f'
    called :
        (call : Call Response)
        → rs ≡ sent_by call
        → f' ≡ dispatch true call f
        → Step matcher handlers f rs f'
    posted :
        (call : Call Response)
        → rs ≡ []
        → f' ≡ dispatch false call f
        → Step matcher handlers f rs f'
    ran :
        (call : Call Response) (rest : List (Call Response))
        → f.posted ≡ call ∷ rest
        → rs ≡ sent_by call
        → f' ≡ run_posted f.posted f
        → Step matcher handlers f rs f'
    waited :
        (outcome : WaitOutcome) (shutdown_failed close_failed : Bool)
        → rs ≡ []
        → f' ≡ on_timer outcome [] shutdown_failed close_failed f
        → Step matcher handlers f rs f'
    ticked : (n : ℕ) → rs ≡ [] → f' ≡ record f { now = f.now + n } → Step matcher handlers f rs f'

  pub data Reach (matcher : Matcher) (handlers : Request → List Storage → List (Call Response))
      (f : Flesh Response) : List Response → Flesh Response → Type 0 where
    here : Reach matcher handlers f [] f
    next :
        {rs : List Response} {f₁ : Flesh Response} {rs' : List Response} {f₂ : Flesh Response}
        → Reach matcher handlers f rs f₁
        → Step matcher handlers f₁ rs' f₂
        → Reach matcher handlers f (rs ++ rs') f₂

  -- What goes on with no write coming back.
  pub none-Pushes :
      (f f' : Flesh Response) → f'.queue ≡ f.queue → f'.completed ≡ f.completed → Pushes [] f f'
  unfolding push_all
  none-Pushes f f' q n = record { pushed = q; same = n }

  pub on_timer-Pushes :
      (o : WaitOutcome) (sf cf : Bool) (f : Flesh Response) → Pushes [] f (on_timer o [] sf cf f)
  unfolding push_all on_timer on_expiry time_out run_calls
  on_timer-Pushes elapsed sf cf f = record { pushed = ground arith; same = ground arith }
  on_timer-Pushes aborted sf cf f = record { pushed = ground arith; same = ground arith }
  on_timer-Pushes wait_failed sf cf f = record { pushed = ground arith; same = ground arith }

  module _ (matcher : Matcher) (handlers : Request → List Storage → List (Call Response)) where
    pub on_read-Pushes :
        (router : Router) (request : Request) (buffer : List ℕ) (f : Flesh Response)
        → Pushes
            (sent_by_all (handlers request (provide matcher request.method request.target router)))
            f
            (on_read matcher handlers router request buffer f)
    unfolding on_read do_process_request recv do_read
    on_read-Pushes router request buffer f =
        let a =
          run_calls-Pushes (handlers request (provide matcher request.method request.target router))
            (record f { reads = f.reads - 1; buffer = buffer }) in
        record { pushed = ground (arith, a.pushed); same = ground (arith, a.same) }

    pub posted-Pushes : (c : Call Response) (f : Flesh Response) → Pushes [] f (dispatch false c f)
    unfolding dispatch push_all
    posted-Pushes c f = record { pushed = refl; same = refl }

    pub called-Pushes :
        (c : Call Response) (f : Flesh Response) → Pushes (sent_by c) f (dispatch true c f)
    unfolding dispatch
    called-Pushes c f = run_call-Pushes c f

    pub ran-Pushes :
        (c : Call Response) (cs : List (Call Response)) (f : Flesh Response)
        → Pushes (sent_by c) f (run_posted (c ∷ cs) f)
    unfolding run_posted
    ran-Pushes c cs f =
        let a = run_call-Pushes c (record f { posted = cs }) in
        record { pushed = a.pushed; same = a.same }

    -- A write that comes back without the next being started.
    halted-Writes :
        (all : List Response) (n : ℕ) (q : Queue Response)
        → n < length q.writes
        → Writes all n q
        → Writes all (n + 1) q
    halted-Writes all n q l w = record {
      in_order = w.in_order;
      back = omega (arith, w.back);
      started = omega (arith, l);
    }

    unfoldable pub Sent : List Response → Flesh Response → Type 0
    Sent all f = Writes all f.completed f.queue

    by-Pushes :
        (all rs rs' : List Response) (f f₁ f' : Flesh Response)
        → Pushes rs' f f₁
        → rs ≡ rs'
        → f' ≡ f₁
        → Sent all f
        → Sent (all ++ rs) f'
    unfolding Sent
    by-Pushes all rs rs' f f₁ f' a e k w =
        subst (λ l. Sent (all ++ l) f') (sym e)
          (subst (Sent (all ++ rs')) (sym k) (Pushes-Writes rs' all f f₁ a w))

    by_completion :
        (all rs : List Response) (f f₁ f' : Flesh Response)
        → rs ≡ []
        → f' ≡ f₁
        → Sent all f₁
        → Sent (all ++ rs) f'
    by_completion all rs f f₁ f' e k w =
        subst (λ l. Sent (all ++ l) f') (sym e)
          (subst (λ l. Sent l f') (sym (append-nil all)) (subst (Sent all) (sym k) w))

    -- A write came back, and the queue is as it was.
    halted-Sent :
        (all : List Response) (f f₁ : Flesh Response)
        → f₁.queue ≡ f.queue
        → f₁.completed ≡ f.completed + 1
        → 0 < writing f
        → Sent all f
        → Sent all f₁
    unfolding Sent
    halted-Sent all f f₁ q n l w =
        subst (λ m. Writes all m f₁.queue) (sym n)
          (subst (Writes all (f.completed + 1)) (sym q)
            (halted-Writes all f.completed f.queue (omega (arith, l)) w))

    failed-Sent :
        (all : List Response) (f : Flesh Response)
        → 0 < writing f
        → Sent all f
        → Sent all (on_write_failed f)
    unfolding on_write_failed
    failed-Sent all f l w = halted-Sent all f (on_write_failed f) (ground arith) (ground arith) l w

    closing-Sent :
        (all : List Response) (b : Bool) (f : Flesh Response)
        → 0 < writing f
        → Sent all f
        → Sent all (on_write_closing b f)
    unfolding on_write_closing do_eof
    closing-Sent all b f l w =
        halted-Sent all f (on_write_closing b f) (ground arith) (ground arith) l w

    written-Sent :
        (all : List Response) (f f' : Flesh Response)
        → 0 < writing f
        → on_written f ≡ ok f'
        → Sent all f
        → Sent all f'
    unfolding on_written Sent recv do_read
    written-Sent all f f' l e w = after (on_write f.queue) refl e
      where
        after :
            (o : Result (Bool × Queue Response))
            → on_write f.queue ≡ o
            → (o >>= λ p.
                (let f₁ : Flesh Response = record f { completed = f.completed + 1; queue = p.1 } in
                  ok (if p.0 then recv f₁ else f₁)))
              ≡ ok f'
            → Writes all f'.completed f'.queue
        after (err fault) q k = absurd (ground (arith, k))
        after (ok (b, q')) q k =
            let v =
              on_write-Writes all f.queue.items f.queue.writes f.completed b q' (omega (arith, l)) q
                w in
            let n : f'.completed ≡ f.completed + 1 = ground (arith, k) in
            let same : f'.queue ≡ q' = ground (arith, k) in
            subst (λ m. Writes all m f'.queue) (sym n)
              (subst (Writes all (f.completed + 1)) (sym same) v)

    pub read_failed-Pushes : (f : Flesh Response) → Pushes [] f (on_read_failed f)
    unfolding on_read_failed push_all
    read_failed-Pushes f = record { pushed = ground arith; same = ground arith }

    step-Sent :
        (all rs : List Response) (f f' : Flesh Response)
        → Step matcher handlers f rs f'
        → Sent all f
        → Sent (all ++ rs) f'
    step-Sent all rs f f' (request_came router request buffer e k) w =
        by-Pushes all rs _ f _ f' (on_read-Pushes router request buffer f) e k w
    step-Sent all rs f f' (read_failed e k) w =
        by-Pushes all rs _ f _ f' (read_failed-Pushes f) e k w
    step-Sent all rs f f' (written l e k) w =
        by_completion all rs f f' f' e refl (written-Sent all f f' l k w)
    step-Sent all rs f f' (write_failed l e k) w =
        by_completion all rs f _ f' e k (failed-Sent all f l w)
    step-Sent all rs f f' (write_closing b l e k) w =
        by_completion all rs f _ f' e k (closing-Sent all b f l w)
    step-Sent all rs f f' (called c e k) w = by-Pushes all rs _ f _ f' (called-Pushes c f) e k w
    step-Sent all rs f f' (posted c e k) w = by-Pushes all rs _ f _ f' (posted-Pushes c f) e k w
    step-Sent all rs f f' (ran c cs p e k) w =
        by-Pushes all rs _ f _ f' (ran-Pushes c cs f) e (k ∙ ap (λ l. run_posted l f) p) w
    step-Sent all rs f f' (waited o sf cf e k) w =
        by-Pushes all rs _ f _ f' (on_timer-Pushes o sf cf f) e k w
    step-Sent all rs f f' (ticked n e k) w =
        by-Pushes all rs _ f _ f' (none-Pushes f (record f { now = f.now + n }) refl refl) e k w

    pub one_write :
        (all : List Response) (f : Flesh Response) → Writes all f.completed f.queue → writing f ≤ 1
    one_write all f w =
        let i = w.in_order in
        ground (
          arith,
          w.back,
          i.split,
          i.started,
          length-append i.done f.queue.items,
          length-append i.done (front_write f.queue.items),
        )

    new_Sent :
        (buffer : List ℕ) (now : ℕ) (action : OnAction) → Sent [] (make_flesh buffer now action)
    unfolding Sent make_flesh new_flesh new_flesh_on_error new_flesh_on_timer
    new_Sent buffer now no_action = record {
      in_order = record { done = []; split = refl; started = refl };
      back = omega arith;
      started = omega arith;
    }
    new_Sent buffer now (error_action e) = record {
      in_order = record { done = []; split = refl; started = refl };
      back = omega arith;
      started = omega arith;
    }
    new_Sent buffer now (timer_action e t) = record {
      in_order = record { done = []; split = refl; started = refl };
      back = omega arith;
      started = omega arith;
    }

    reach-Sent :
        (f : Flesh Response) (w : Sent [] f) (rs : List Response) (f' : Flesh Response)
        → Reach matcher handlers f rs f'
        → Sent rs f'
    reach-Sent f w _ f' here = w
    reach-Sent f w _ f' (next r s) = step-Sent _ _ _ f' s (reach-Sent f w _ _ r)

    pub make-Sent :
        (buffer : List ℕ) (now : ℕ) (action : OnAction) (rs : List Response) (f : Flesh Response)
        → Reach matcher handlers (make_flesh buffer now action) rs f
        → Sent rs f
    make-Sent buffer now action rs f r =
        reach-Sent (make_flesh buffer now action) (new_Sent buffer now action) rs f r

    -- In any run of a session, with writes that fail or close the connection too, the responses
    -- are written in the order in which they were sent, no response is left out or written twice,
    -- and at any moment at most one write is under way.
    pub Reach-InOrder :
        (buffer : List ℕ) (now : ℕ) (action : OnAction) (rs : List Response) (f : Flesh Response)
        → Reach matcher handlers (make_flesh buffer now action) rs f
        → InOrder rs f.queue × (writing f ≤ 1)
    unfolding Sent
    Reach-InOrder buffer now action rs f r =
        let w = make-Sent buffer now action rs f r in (w.in_order, one_write rs f w)
