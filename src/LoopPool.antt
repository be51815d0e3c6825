-- ===== src/LoopPool.antt =====
-- Net/IOLoopThreadPool.h and Net/IOLoopThreadPool.cpp: the loops of a server's threads. A loop is
-- its number; `new_loop` gives the one that the thread with an index starts.
use ioloop.Prelude.{
  ℕ, zero, suc, ◌+◌, ◌%◌, ◌^◌, ◌<◌, ◌≡◌, refl, sym, ap, ◌∙◌, List, [], ◌∷◌, ◌++◌, append_assoc,
  Option, none, some, Result, ok, err, out_of_range, assert, ◌>>=◌, ◌>>◌, arith, Bool, true, false,
  not, leb, if◌then◌else◌, length, length-append, extend64, get_elem?,
}

pub record LoopPool : Type 0 where
  pub base_loop : ℕ
  pub loops : List ℕ
  pub next : ℕ
  pub started : Bool
  pub num_threads : ℕ

abbrev pub new_loop_pool : ℕ → LoopPool
new_loop_pool base = record {
  base_loop = base;
  loops = [];
  next = 0;
  started = false;
  num_threads = 0;
}

-- The loops of the threads from index `i` on.
abbrev pub start_threads : (ℕ → ℕ) → ℕ → ℕ → List ℕ
start_threads new_loop i zero = []
start_threads new_loop i (suc n) = new_loop i ∷ start_threads new_loop (suc i) n

unfoldable pub run : (ℕ → ℕ) → LoopPool → Result LoopPool
run new_loop p = do
  assert (not p.started)
  ok (record p { started = true; loops = p.loops ++ start_threads new_loop 0 p.num_threads })

abbrev pub is_empty : List ℕ → Bool
is_empty [] = true
is_empty (x ∷ xs) = false

-- `io_contexts_[i]`
abbrev pub loop_at : Option ℕ → Result ℕ
loop_at none = err out_of_range
loop_at (some loop) = ok loop

unfoldable pub get_next_loop : LoopPool → Result (ℕ × LoopPool)
get_next_loop p = do
  assert p.started
  if is_empty p.loops then ok (p.base_loop, p) else (do
    loop ← loop_at (get_elem? p.loops p.next)
    let next = (p.next + 1) % 2 ^ 32
    ok (loop, record p { next = if leb (length p.loops) next then 0 else next }))

-- `getNextLoop(int fd)`; `%` converts the descriptor to `size_t`.
unfoldable pub get_next_loop_of : ℕ → LoopPool → Result ℕ
get_next_loop_of fd p = do
  assert p.started
  if is_empty p.loops
      then ok p.base_loop
      else loop_at (get_elem? p.loops (extend64 fd % length p.loops))

-- `getAllIOContext`
unfoldable pub get_all_io_context : LoopPool → Result (List ℕ)
get_all_io_context p = do
  assert p.started
  ok (if is_empty p.loops then p.base_loop ∷ [] else p.loops)

-- So many calls of `getNextLoop`, with what they return.
pub next_loops : ℕ → LoopPool → Result (List ℕ × LoopPool)
next_loops zero p = ok ([], p)
next_loops (suc n) p = do
  (loop, p') ← get_next_loop p
  (loops, p'') ← next_loops n p'
  ok (loop ∷ loops, p'')

get_elem?-append : (xs ys : List ℕ) (y : ℕ) → get_elem? (xs ++ y ∷ ys) (length xs) ≡ some y
get_elem?-append [] ys y = refl
get_elem?-append (x ∷ xs) ys y = get_elem?-append xs ys y

-- Where the next loop is, when `done` are behind it.
abbrev wrapped : List ℕ → List ℕ → ℕ
wrapped done [] = 0
wrapped done (x ∷ xs) = length done

not_empty : (xs ys : List ℕ) (y : ℕ) → is_empty (xs ++ y ∷ ys) ≡ false
not_empty [] ys y = refl
not_empty (x ∷ xs) ys y = refl

one_call :
    (done : List ℕ) (x : ℕ) (xs : List ℕ) (p : LoopPool)
    → p.started ≡ true
    → p.loops ≡ done ++ x ∷ xs
    → p.next ≡ length done
    → length p.loops < 2 ^ 32
    → get_next_loop p ≡ ok (x, record p { next = wrapped (done ++ x ∷ []) xs })
unfolding get_next_loop
one_call done x [] p s e n small =
    let size : length p.loops ≡ length done + 1 = ap length e ∙ length-append done (x ∷ []) in
    let at : get_elem? p.loops p.next ≡ some x =
      ap (λ l. get_elem? l p.next) e
      ∙ ap (get_elem? (done ++ x ∷ [])) n
      ∙ get_elem?-append done [] x in
    let full : is_empty p.loops ≡ false = ap is_empty e ∙ not_empty done [] x in
    ground (arith, s, n, small, size, at, full)
one_call done x (y ∷ ys) p s e n small =
    let size : length p.loops ≡ length done + suc (suc (length ys)) =
      ap length e ∙ length-append done (x ∷ y ∷ ys) in
    let at : get_elem? p.loops p.next ≡ some x =
      ap (λ l. get_elem? l p.next) e
      ∙ ap (get_elem? (done ++ x ∷ y ∷ ys)) n
      ∙ get_elem?-append done (y ∷ ys) x in
    let full : is_empty p.loops ≡ false = ap is_empty e ∙ not_empty done (y ∷ ys) x in
    let more : length (done ++ x ∷ []) ≡ length done + 1 = length-append done (x ∷ []) in
    ground (arith, s, n, small, size, at, full, more)

calls_from :
    (xs done : List ℕ) (x : ℕ) (p : LoopPool)
    → p.started ≡ true
    → p.loops ≡ done ++ x ∷ xs
    → p.next ≡ length done
    → length p.loops < 2 ^ 32
    → next_loops (suc (length xs)) p ≡ ok (x ∷ xs, record p { next = 0 })
unfolding next_loops
calls_from [] done x p s e n small = ground (arith, one_call done x [] p s e n small)
calls_from (y ∷ ys) done x p s e n small =
    let first = one_call done x (y ∷ ys) p s e n small in
    let p' : LoopPool = record p { next = length (done ++ x ∷ []) } in
    let rest =
      calls_from ys (done ++ x ∷ []) y p' s (e ∙ sym (append_assoc done (x ∷ []) (y ∷ ys))) refl
        small in
    ground (arith, first, rest)

-- From the first loop on, as many calls of `getNextLoop` as there are loops return every loop once,
-- in order, and leave the pool as it was, so that the next calls go round again.
pub next_loops_round :
    (p : LoopPool)
    → p.started ≡ true
    → p.next ≡ 0
    → 0 < length p.loops
    → length p.loops < 2 ^ 32
    → next_loops (length p.loops) p ≡ ok (p.loops, p)
next_loops_round p s n some_loop small = go p.loops refl
  where
    go : (xs : List ℕ) → p.loops ≡ xs → next_loops (length p.loops) p ≡ ok (p.loops, p)
    go [] e = absurd (omega (arith, some_loop, ap length e))
    go (x ∷ xs) e =
        ap (λ l. next_loops (length l) p) e
        ∙ calls_from xs [] x p s e n small
        ∙ ap (λ l. ok (l, record p { next = 0 })) (sym e)
        ∙ ap (λ k. ok (p.loops, record p { next = k })) (sym n)
