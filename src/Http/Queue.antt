-- ===== src/Http/Queue.antt =====
-- Http/Queue.hpp: the responses of a session, of which one is written at a time. What `do_write`
-- is given is recorded in `writes`.
use ioloop.Prelude.{
  subst, length-append, ℕ, ◌≡◌, refl, sym, ap, ◌∙◌, List, [], ◌∷◌, ◌++◌, append-nil, append_assoc,
  Result, ok, err, assert, ◌>>=◌, ◌>>◌, Bool, true, false, not, leb, if◌then◌else◌, length, arith,
  ◌==◌,
}

pub record Queue (Response : Type 0) : Type 0 where
  pub items : List Response
  pub writes : List Response

abbrev pub limit : ℕ
limit = 16

abbrev pub new_queue : {Response : Type 0} → Queue Response
new_queue = record { items = []; writes = [] }

abbrev is_empty : {Response : Type 0} → List Response → Bool
is_empty [] = true
is_empty (x ∷ xs) = false

abbrev pub is_full : {Response : Type 0} → Queue Response → Bool
is_full q = leb limit (length q.items)

-- `(*items_.front())()`
abbrev pub front_write : {Response : Type 0} → List Response → List Response
front_write [] = []
front_write (x ∷ xs) = x ∷ []

abbrev pub rest : {Response : Type 0} → List Response → List Response
rest [] = []
rest (x ∷ xs) = xs

-- The write of the front is complete; says whether the queue was full.
unfoldable pub on_write : {Response : Type 0} → Queue Response → Result (Bool × Queue Response)
on_write q = do
  assert (not (is_empty q.items))
  let was_full = is_full q
  let items = rest q.items
  ok (was_full, record q { items = items; writes = q.writes ++ front_write items })

-- `operator()`
unfoldable pub push : {Response : Type 0} → Response → Queue Response → Queue Response
push response q =
    let items = q.items ++ response ∷ [] in
    record {
      items = items;
      writes = if length items == 1 then q.writes ++ front_write items else q.writes;
    }

pub data Op (Response : Type 0) : Type 0 where
  push_op : Response → Op Response
  write_op : Op Response

unfoldable pub run :
    {Response : Type 0} → List (Op Response) → Queue Response → Result (Queue Response)
unfolding push on_write
run [] q = ok q
run (push_op r ∷ os) q = run os (push r q)
run (write_op ∷ os) q = do (was_full, q') ← on_write q; run os q'

abbrev pub pushed : {Response : Type 0} → List (Op Response) → List Response
pushed [] = []
pushed (push_op r ∷ os) = r ∷ pushed os
pushed (write_op ∷ os) = pushed os

-- What was pushed is complete or waits, and writes were started in that order, up to the front.
pub record InOrder {Response : Type 0} (all : List Response) (q : Queue Response) : Type 0 where
  pub done : List Response
  pub split : all ≡ done ++ q.items
  pub started : q.writes ≡ done ++ front_write q.items

module _ {Response : Type 0} where
  pub push-InOrder :
      (all : List Response) (r : Response) (items writes : List Response)
      → InOrder all (record { items = items; writes = writes })
      → InOrder (all ++ r ∷ []) (push r (record { items = items; writes = writes }))
  unfolding push
  push-InOrder all r [] writes i = record {
    done = i.done;
    split = ap (λ l. l ++ r ∷ []) (i.split ∙ append-nil i.done);
    started = ap (λ l. l ++ r ∷ []) (i.started ∙ append-nil i.done);
  }
  push-InOrder all r (x ∷ xs) writes i = record {
    done = i.done;
    split = ap (λ l. l ++ r ∷ []) i.split ∙ append_assoc i.done (x ∷ xs) (r ∷ []);
    started = ground (arith, i.started, length-append xs (r ∷ []));
  }

  next_queue :
      (x : Response) (xs writes : List Response) (f : Bool) (q' : Queue Response)
      → on_write (record { items = x ∷ xs; writes = writes }) ≡ ok (f, q')
      → ◌≡◌ {A = Queue Response} (record { items = xs; writes = writes ++ front_write xs }) q'
  unfolding on_write
  next_queue x xs writes f q' e = ground (arith, e)

  same_queue : (q q' : Queue Response) → ok q ≡ ok q' → q ≡ q'
  same_queue q q' e = ground (arith, e)

  pub on_write-InOrder :
      (all items writes : List Response) (f : Bool) (q' : Queue Response)
      → InOrder all (record { items = items; writes = writes })
      → on_write (record { items = items; writes = writes }) ≡ ok (f, q')
      → InOrder all q'
  unfolding on_write
  on_write-InOrder all [] writes f q' i e = absurd (ground (arith, e))
  on_write-InOrder all (x ∷ xs) writes f q' i e =
      subst (InOrder all) (next_queue x xs writes f q' e) (record {
        done = i.done ++ x ∷ [];
        split = i.split ∙ sym (append_assoc i.done (x ∷ []) xs);
        started = ap (λ l. l ++ front_write xs) i.started;
      })

  after_write :
      (os : List (Op Response)) (all : List Response) (q q' : Queue Response)
      → InOrder all q
      → ((q₁ : Queue Response) → InOrder all q₁ → run os q₁ ≡ ok q' → InOrder (all ++ pushed os) q')
      → (o : Result (Bool × Queue Response)) → on_write q ≡ o
      → (o >>= λ p. run os p.1) ≡ ok q'
      → InOrder (all ++ pushed os) q'
  after_write os all q q' i again (err fault) h k = absurd (ground (arith, k))
  after_write os all q q' i again (ok (f, q₁)) h k =
      again q₁ (on_write-InOrder all q.items q.writes f q₁ i h) k

  run_from :
      (os : List (Op Response)) (all : List Response) (q q' : Queue Response)
      → InOrder all q
      → run os q ≡ ok q'
      → InOrder (all ++ pushed os) q'
  unfolding run
  run_from [] all q q' i e =
      subst (InOrder (all ++ [])) (same_queue q q' e)
        (subst (λ l. InOrder l q) (sym (append-nil all)) i)
  run_from (push_op r ∷ os) all q q' i e =
      subst (λ l. InOrder l q') (append_assoc all (r ∷ []) (pushed os))
        (run_from os (all ++ r ∷ []) (push r q) q' (push-InOrder all r q.items q.writes i) e)
  run_from (write_op ∷ os) all q q' i e =
      after_write os all q q' i (λ q₁ i₁ k. run_from os all q₁ q' i₁ k) (on_write q) refl e

  -- Responses are written one at a time in the order in which they were pushed: whenever a write is
  -- complete the next is started, and at any moment exactly the responses before the front of the
  -- queue, and the front itself, have been handed to be written.
  pub run-InOrder :
      (os : List (Op Response)) (q' : Queue Response)
      → run os new_queue ≡ ok q'
      → InOrder (pushed os) q'
  run-InOrder os q' e =
      run_from os [] new_queue q' (record { done = []; split = refl; started = refl }) e
