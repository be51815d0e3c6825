-- ===== src/Http/Session/Overfull.antt =====
-- Http/HttpSession.hpp: a session whose queue holds more responses than the queue's limit.
use ioloop.Prelude.{◌+◌, ◌<◌, ◌≡◌, List, [], ◌∷◌, ◌++◌, ok, length, arith, refl}
use ioloop.Http.Queue.{Queue, limit, on_write, front_write}
use ioloop.Http.Session.{Flesh, recv, do_read}
use ioloop.Http.Session.Handlers.{on_written}

module _ {Response : Type 0} where
  reads_again :
      (x : Response) (xs : List Response) (f : Flesh Response)
      → f.queue.items ≡ x ∷ xs
      → limit < 1 + length (x ∷ xs)
      → (f' : Flesh Response) × (on_written f ≡ ok f')
        × (f'.queue.items ≡ xs)
        × (f'.reads ≡ f.reads + 1)
  unfolding on_written on_write recv do_read
  reads_again x xs f e h =
      let q : Queue Response = record { items = xs; writes = f.queue.writes ++ front_write xs } in
      (
        record f { completed = f.completed + 1; queue = q; reads = f.reads + 1 },
        ground (arith, e, h),
        refl,
        refl,
      )

  reads_twice :
      (items : List Response) (f : Flesh Response)
      → f.queue.items ≡ items
      → limit < length items
      → (f₁ : Flesh Response) × (f₂ : Flesh Response) × (on_written f ≡ ok f₁)
        × (on_written f₁ ≡ ok f₂)
        × (f₂.reads ≡ f.reads + 2)
  reads_twice [] f e h = absurd (ground (arith, h))
  reads_twice (x ∷ []) f e h = absurd (ground (arith, h))
  reads_twice (x ∷ y ∷ ys) f e h =
      let (f₁, w₁, i₁, r₁) = reads_again x (y ∷ ys) f e (omega (arith, h)) in
      let (f₂, w₂, i₂, r₂) = reads_again y ys f₁ i₁ (omega (arith, h)) in
      (f₁, f₂, w₁, w₂, omega (arith, r₁, r₂))

  -- Nothing bounds the queue: while it holds more responses than its limit, each of two writes that
  -- come back one after the other starts a read, so that two reads are under way at once.
  pub on_written_reads_twice :
      (f : Flesh Response)
      → limit < length f.queue.items
      → (f₁ : Flesh Response) × (f₂ : Flesh Response) × (on_written f ≡ ok f₁)
        × (on_written f₁ ≡ ok f₂)
        × (f₂.reads ≡ f.reads + 2)
  on_written_reads_twice f h = reads_twice f.queue.items f refl h
