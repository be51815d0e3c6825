-- ===== src/Http/Session/Order.antt =====
-- Http/HttpSession.hpp: the order in which a session's responses are written, along any run, and
-- what a failed write leaves behind.
use ioloop.Prelude.{
  subst, sym, ℕ, ◌+◌, ◌-◌, ◌≤◌, ◌<◌, ◌≡◌, refl, ap, ◌∙◌, List, [], ◌∷◌, ◌++◌, append-nil,
  append_assoc, ok, Bool, length, arith, length-append,
}
use ioloop.Http.Queue.{Queue, InOrder, push-InOrder, on_write-InOrder, front_write, push, on_write}
use ioloop.Http.Session.{
  Call, recv_call, recv_for_call, send_call, send_for_call, timer_cancel_call, eof_call, cls_call,
  on_error_call, on_timer_call, Flesh, do_read, do_launch_timer, recv, recv_for, send, send_for,
  timer_cancel, do_eof, do_cls, eof, cls, member_on_error, member_on_timer,
}
use ioloop.Http.Session.Handlers.{run_call, run_calls}

module _ {Response : Type 0} where
  -- The responses that calls send.
  abbrev pub sent_by : Call Response → List Response
  sent_by (send_call response) = response ∷ []
  sent_by (send_for_call response duration) = response ∷ []
  sent_by _ = []

  abbrev pub sent_by_all : List (Call Response) → List Response
  sent_by_all [] = []
  sent_by_all (call ∷ calls) = sent_by call ++ sent_by_all calls

  -- How many writes are under way.
  abbrev pub writing : Flesh Response → ℕ
  writing f = length f.queue.writes - f.completed

  unfoldable pub push_all : List Response → Queue Response → Queue Response
  push_all [] q = q
  push_all (r ∷ rs) q = push_all rs (push r q)

  push_all-append :
      (rs ss : List Response) (q : Queue Response)
      → push_all (rs ++ ss) q ≡ push_all ss (push_all rs q)
  unfolding push_all
  push_all-append [] ss q = refl
  push_all-append (r ∷ rs) ss q = push_all-append rs ss (push r q)

  -- What a function of the session does to the queue: it pushes these, and no write comes back.
  pub record Pushes (rs : List Response) (f f' : Flesh Response) : Type 0 where
    pub pushed : f'.queue ≡ push_all rs f.queue
    pub same : f'.completed ≡ f.completed

  pub run_call-Pushes :
      (c : Call Response) (f : Flesh Response) → Pushes (sent_by c) f (run_call c f)
  unfolding push_all run_call recv recv_for do_read do_launch_timer send send_for timer_cancel
      do_eof do_cls eof cls member_on_error member_on_timer
  run_call-Pushes recv_call f = record { pushed = refl; same = refl }
  run_call-Pushes (recv_for_call d) f = record { pushed = refl; same = refl }
  run_call-Pushes (send_call r) f = record { pushed = refl; same = refl }
  run_call-Pushes (send_for_call r d) f = record { pushed = refl; same = refl }
  run_call-Pushes (timer_cancel_call b) f = record { pushed = ground arith; same = ground arith }
  run_call-Pushes (eof_call b) f = record { pushed = ground arith; same = ground arith }
  run_call-Pushes (cls_call b) f = record { pushed = ground arith; same = ground arith }
  run_call-Pushes on_error_call f = record { pushed = refl; same = refl }
  run_call-Pushes on_timer_call f = record { pushed = refl; same = refl }

  pub run_calls-Pushes :
      (cs : List (Call Response)) (f : Flesh Response) → Pushes (sent_by_all cs) f (run_calls cs f)
  unfolding run_calls push_all
  run_calls-Pushes [] f = record { pushed = refl; same = refl }
  run_calls-Pushes (c ∷ cs) f =
      let a = run_call-Pushes c f in
      let b = run_calls-Pushes cs (run_call c f) in
      record {
        pushed =
            b.pushed
            ∙ ap (push_all (sent_by_all cs)) a.pushed
            ∙ sym (push_all-append (sent_by c) (sent_by_all cs) f.queue);
        same = b.same ∙ a.same;
      }

  -- What was sent is written or waits, in that order, and of what is started no more has come back.
  pub record Writes (all : List Response) (n : ℕ) (q : Queue Response) : Type 0 where
    pub in_order : InOrder all q
    pub back : length all ≤ n + length q.items
    pub started : n ≤ length q.writes

  push-Writes :
      (all : List Response) (r : Response) (n : ℕ) (q : Queue Response)
      → Writes all n q
      → Writes (all ++ r ∷ []) n (push r q)
  unfolding push
  push-Writes all r n q w = record {
    in_order = push-InOrder all r q.items q.writes w.in_order;
    back = omega (arith, w.back, length-append all (r ∷ []), length-append q.items (r ∷ []));
    started = ground (arith, w.started, length-append q.writes (front_write (q.items ++ r ∷ [])));
  }

  push_all-Writes :
      (rs all : List Response) (n : ℕ) (q : Queue Response)
      → Writes all n q
      → Writes (all ++ rs) n (push_all rs q)
  unfolding push_all
  push_all-Writes [] all n q w = subst (λ l. Writes l n q) (sym (append-nil all)) w
  push_all-Writes (r ∷ rs) all n q w =
      subst (λ l. Writes l n (push_all rs (push r q))) (append_assoc all (r ∷ []) rs)
        (push_all-Writes rs (all ++ r ∷ []) n (push r q) (push-Writes all r n q w))

  pub Pushes-Writes :
      (rs all : List Response) (f f' : Flesh Response)
      → Pushes rs f f'
      → Writes all f.completed f.queue
      → Writes (all ++ rs) f'.completed f'.queue
  Pushes-Writes rs all f f' a w =
      subst (λ n. Writes (all ++ rs) n f'.queue) (sym a.same)
        (subst (Writes (all ++ rs) f.completed) (sym a.pushed)
          (push_all-Writes rs all f.completed f.queue w))

  pub on_write-Writes :
      (all items writes : List Response) (n : ℕ) (b : Bool) (q' : Queue Response)
      → n < length writes
      → on_write (record { items = items; writes = writes }) ≡ ok (b, q')
      → Writes all n (record { items = items; writes = writes })
      → Writes all (n + 1) q'
  unfolding on_write
  on_write-Writes all [] writes n b q' l e w = absurd (ground (arith, e))
  on_write-Writes all (x ∷ xs) writes n b q' l e w = record {
    in_order = on_write-InOrder all (x ∷ xs) writes b q' w.in_order e;
    back = ground (arith, e, w.back);
    started = ground (arith, e, l, length-append writes (front_write xs));
  }
