-- ===== src/Http/Session/Halted.antt =====
-- Http/HttpSession.hpp: what a write that fails leaves behind.
use ioloop.Prelude.{
  subst, sym, ℕ, ◌+◌, ◌≤◌, ◌<◌, ◌≡◌, refl, ap, ◌∙◌, List, [], ◌∷◌, length, arith, length-append,
  append-nil, append_assoc, ◌++◌,
}
use ioloop.Http.Queue.{Queue, front_write, push}
use ioloop.Http.Router.{Matcher, Storage}
use ioloop.Http.Session.{Call, Flesh}
use ioloop.Http.Session.Handlers.{run_posted, Request, on_write_failed}
use ioloop.Http.Session.Entry.{OnAction, make_flesh}
use ioloop.Http.Session.Order.{writing, push_all, Pushes}
use ioloop.Http.Session.Runs.{
  Step, request_came, read_failed, written, write_failed, write_closing, called, posted, ran,
  waited, ticked, Reach, here, next, none-Pushes, on_timer-Pushes, on_read-Pushes, posted-Pushes,
  called-Pushes, ran-Pushes, read_failed-Pushes, Sent, make-Sent, one_write,
}

module _ {Response : Type 0} where
  -- A response waits, and no write is under way.
  pub record Halted (f : Flesh Response) : Type 0 where
    pub waits : 0 < length f.queue.items
    pub idle : length f.queue.writes ≤ f.completed

  push_all_waiting :
      (rs : List Response) (q : Queue Response)
      → 0 < length q.items
      → ((push_all rs q).writes ≡ q.writes) × (0 < length (push_all rs q).items)
  unfolding push_all push
  push_all_waiting [] q h = (refl, h)
  push_all_waiting (r ∷ rs) q h =
      let l = length-append q.items (r ∷ []) in
      let (same, more) = push_all_waiting rs (push r q) (omega (arith, l)) in
      let kept : (push r q).writes ≡ q.writes = ground (arith, l, h) in (same ∙ kept, more)

  push_all_items : (rs : List Response) (q : Queue Response) → (push_all rs q).items ≡ q.items ++ rs
  unfolding push_all push
  push_all_items [] q = sym (append-nil q.items)
  push_all_items (r ∷ rs) q = push_all_items rs (push r q) ∙ append_assoc q.items (r ∷ []) rs

  -- What a step that sends `rs` keeps of a halted session.
  Keeps : Flesh Response → List Response → Flesh Response → Type 0
  Keeps f rs f' =
      (f'.queue.writes ≡ f.queue.writes) × (f'.queue.items ≡ f.queue.items ++ rs) × Halted f'

  by-Pushes :
      (rs rs' : List Response) (f f₁ f' : Flesh Response)
      → Pushes rs f f₁
      → rs' ≡ rs
      → f' ≡ f₁
      → Halted f
      → Keeps f rs' f'
  unfolding Keeps
  by-Pushes rs rs' f f₁ f' a e k h =
      let (same, more) = push_all_waiting rs f.queue h.waits in
      let q : f'.queue ≡ push_all rs f.queue = ap (λ (g : Flesh Response). g.queue) k ∙ a.pushed in
      let w : f'.queue.writes ≡ f.queue.writes = ap (λ (p : Queue Response). p.writes) q ∙ same in
      let c : f'.completed ≡ f.completed = ap (λ (g : Flesh Response). g.completed) k ∙ a.same in
      (
        w,
        ap (λ (p : Queue Response). p.items) q
            ∙ push_all_items rs f.queue
            ∙ ap (λ l. f.queue.items ++ l) (sym e),
        record {
          waits = subst (λ (p : Queue Response). 0 < length p.items) (sym q) more;
          idle =
              subst (λ n. length f'.queue.writes ≤ n) (sym c)
                (subst (λ ws. length ws ≤ f.completed) (sym w) h.idle);
        },
      )

  no_write : (f : Flesh Response) → Halted f → 0 < writing f → ⊥
  no_write f h l = omega (arith, h.idle, l)

  module _ (matcher : Matcher) (handlers : Request → List Storage → List (Call Response)) where
    step-Keeps :
        (rs : List Response) (f f' : Flesh Response)
        → Step matcher handlers f rs f'
        → Halted f
        → Keeps f rs f'
    step-Keeps rs f f' (request_came router request buffer e k) h =
        by-Pushes _ rs f _ f' (on_read-Pushes matcher handlers router request buffer f) e k h
    step-Keeps rs f f' (read_failed e k) h =
        by-Pushes _ rs f _ f' (read_failed-Pushes matcher handlers f) e k h
    step-Keeps rs f f' (written l e k) h = absurd (no_write f h l)
    step-Keeps rs f f' (write_failed l e k) h = absurd (no_write f h l)
    step-Keeps rs f f' (write_closing b l e k) h = absurd (no_write f h l)
    step-Keeps rs f f' (called c e k) h =
        by-Pushes _ rs f _ f' (called-Pushes matcher handlers c f) e k h
    step-Keeps rs f f' (posted c e k) h =
        by-Pushes _ rs f _ f' (posted-Pushes matcher handlers c f) e k h
    step-Keeps rs f f' (ran c cs p e k) h =
        by-Pushes _ rs f _ f' (ran-Pushes matcher handlers c cs f) e
          (k ∙ ap (λ l. run_posted l f) p) h
    step-Keeps rs f f' (waited o sf cf e k) h =
        by-Pushes _ rs f _ f' (on_timer-Pushes o sf cf f) e k h
    step-Keeps rs f f' (ticked n e k) h =
        by-Pushes _ rs f _ f' (none-Pushes f (record f { now = f.now + n }) refl refl) e k h

    reach-Keeps :
        (f : Flesh Response) (h : Halted f) (rs : List Response) (f' : Flesh Response)
        → Reach matcher handlers f rs f'
        → Keeps f rs f'
    unfolding Keeps
    reach-Keeps f h _ f' here = (refl, sym (append-nil f.queue.items), h)
    reach-Keeps f h _ f' (next {rs} {f₁} {rs'} r s) =
        let (w, i, h₁) = reach-Keeps f h rs f₁ r in
        let (w', i', h₂) = step-Keeps rs' f₁ f' s h₁ in
        (w' ∙ w, i' ∙ ap (λ l. l ++ rs') i ∙ append_assoc f.queue.items rs rs', h₂)

    failed-Halted :
        (rs : List Response) (f : Flesh Response)
        → Sent matcher handlers rs f
        → 0 < writing f
        → Halted (on_write_failed f)
    unfolding Sent on_write_failed
    failed-Halted rs f w l =
        let i = w.in_order in
        record {
          waits = ground (
            arith,
            l,
            w.back,
            i.split,
            i.started,
            length-append i.done f.queue.items,
            length-append i.done (front_write f.queue.items),
          );
          idle = ground (arith, one_write matcher handlers rs f w);
        }

    -- Once a write of a session has failed, no response is written any more, whatever else happens
    -- to the session: the queue is what it was, with the failed response at its front, followed by
    -- all that is sent later, in order.
    pub Reach-Halted :
        (buffer : List ℕ) (now : ℕ) (action : OnAction) (rs : List Response) (f : Flesh Response)
        (rs' : List Response) (f' : Flesh Response)
        → Reach matcher handlers (make_flesh buffer now action) rs f
        → 0 < writing f
        → Reach matcher handlers (on_write_failed f) rs' f'
        → (f'.queue.writes ≡ f.queue.writes)
          × (f'.queue.items ≡ f.queue.items ++ rs')
          × (0 < length f.queue.items)
    unfolding Keeps on_write_failed
    Reach-Halted buffer now action rs f rs' f' r l r' =
        let w = make-Sent matcher handlers buffer now action rs f r in
        let failed = failed-Halted rs f w l in
        let (same, items, h) = reach-Keeps (on_write_failed f) failed rs' f' r' in
        (
          same ∙ ground arith,
          items ∙ ap (λ l. l ++ rs') (ground arith),
          subst (λ (l : List Response). 0 < length l) (ground arith) failed.waits,
        )
