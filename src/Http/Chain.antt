-- ===== src/Http/Chain.antt =====
-- Http/Cb.hpp: the handlers of a storage run one after the other, each when the one before it
-- advances the iterator, and each finds the next part of the target in the request.
use ioloop.Prelude.{
  zero, ℕ, suc, ◌+◌, ◌<◌, ◌≡◌, refl, ap, ◌∙◌, List, [], ◌∷◌, ◌++◌, append-nil, append_assoc, Option,
  none, some, Result, ok, err, out_of_range, arith, Bool, Bool-cases, inl, inr, false, ◌||◌, ltb,
  ◌==◌, if◌then◌else◌, length, take, drop, take-append_exact, drop-append_exact,
}

-- What a storage keeps of a function: it is called with the iterator, or without one.
pub data Entry : Type 0 where
  with_iterator without_iterator : ℕ → Entry

-- `ForEach::invoke`, on a tuple that is not empty.
unfoldable pub invoke :
    (ℕ → List Entry → List Entry) → (ℕ → List Entry → List Entry) → List ℕ → List Entry → List Entry
invoke at_begin at_end [] container = container
invoke at_begin at_end (f ∷ []) container = at_end f container
invoke at_begin at_end (f ∷ g ∷ fs) container =
    invoke at_begin at_end (g ∷ fs) (at_begin f container)

-- `Storage::prepare`, for functions given by their numbers.
unfoldable pub prepare : List ℕ → List Entry
unfolding invoke
prepare fs = invoke (λ f c. c ++ with_iterator f ∷ []) (λ f c. c ++ without_iterator f ∷ []) fs []

-- `begin` is `cont_begin_iter_`, the index of the current handler among `size`.
pub record Iterator : Type 0 where
  pub pos : ℕ
  pub begin : ℕ
  pub size : ℕ
  pub current_target : List ℕ
  pub request_target : List ℕ

abbrev pub slash : ℕ
slash = 47

-- The index of the first slash, counted from `i`.
abbrev pub find_slash : ℕ → List ℕ → Option ℕ
find_slash i [] = none
find_slash i (x ∷ xs) = if x == slash then some i else find_slash (suc i) xs

-- `find("/", 1)`
abbrev pub find_next_slash : List ℕ → Option ℕ
find_next_slash [] = none
find_next_slash (x ∷ xs) = find_slash 1 xs

abbrev skip_to : Option ℕ → Iterator → Iterator
skip_to none it = record it { request_target = it.current_target }
skip_to (some p) it = record it {
  current_target = drop p it.current_target;
  request_target = take p it.current_target;
}

pub skip_target : Iterator → Iterator
skip_target it = skip_to (find_next_slash it.current_target) it

-- The constructor, for a container of `size` handlers and the target of the request.
pub begin_exec : ℕ → List ℕ → Iterator
unfolding skip_target
begin_exec size target =
    let it : Iterator = record {
      pos = 0;
      begin = 0;
      size = size;
      current_target = target;
      request_target = target;
    } in
    if ltb 1 size then skip_target it else it

-- `operator++()`
pub advance : Iterator → Iterator
unfolding skip_target
advance it =
    skip_target
      (if it.begin + 1 == it.size then it else record it { pos = it.pos + 1; begin = it.begin + 1 })

-- `operator()`: the handler that is called, with the target that it finds.
pub call : Iterator → Result (ℕ × List ℕ)
call it = if ltb it.begin it.size then ok (it.begin, it.request_target) else err out_of_range

-- The calls that are made when each of the first `n` handlers advances once and calls on. The last
-- handler of the container has no iterator, and ends the chain.
pub calls : ℕ → Iterator → List (Result (ℕ × List ℕ))
unfolding call advance
calls zero it = call it ∷ []
calls (suc n) it =
    let rest = calls n (advance it) in call it ∷ (if it.begin + 1 == it.size then [] else rest)

abbrev pub with_iterators : List ℕ → List Entry
with_iterators [] = []
with_iterators (f ∷ fs) = with_iterator f ∷ with_iterators fs

invoke-append :
    (fs : List ℕ) (f : ℕ) (c : List Entry)
    → invoke
        (λ f c. c ++ with_iterator f ∷ [])
        (λ f c. c ++ without_iterator f ∷ [])
        (fs ++ f ∷ [])
        c
      ≡ c ++ (with_iterators fs ++ without_iterator f ∷ [])
unfolding invoke
invoke-append [] f c = refl
invoke-append (g ∷ []) f c = append_assoc c (with_iterator g ∷ []) (without_iterator f ∷ [])
invoke-append (g ∷ h ∷ fs) f c =
    invoke-append (h ∷ fs) f (c ++ with_iterator g ∷ [])
    ∙ append_assoc c (with_iterator g ∷ []) (with_iterators (h ∷ fs) ++ without_iterator f ∷ [])

-- A storage keeps all its functions in order, and only the last one gets no iterator, so that only
-- it cannot call on.
pub prepare-append :
    (fs : List ℕ) (f : ℕ) → prepare (fs ++ f ∷ []) ≡ with_iterators fs ++ without_iterator f ∷ []
unfolding prepare
prepare-append fs f = invoke-append fs f []

abbrev pub has_slash : List ℕ → Bool
has_slash [] = false
has_slash (x ∷ xs) = x == slash || has_slash xs

abbrev pub NoSlash : List (List ℕ) → Type 0
NoSlash [] = Unit {0}
NoSlash (s ∷ ss) = (has_slash s ≡ false) × NoSlash ss

-- A target with these parts, each behind a slash.
abbrev pub target_of : List (List ℕ) → List ℕ
target_of [] = []
target_of (s ∷ ss) = (slash ∷ s) ++ target_of ss

-- What the handlers are called with, a part each, from handler `i` on.
abbrev pub expected : ℕ → ℕ → List (List ℕ) → List (Result (ℕ × List ℕ))
expected size i [] = []
expected size i (s ∷ ss) =
    let rest = expected size (suc i) ss in ok (i, slash ∷ s) ∷ (if i + 1 == size then [] else rest)

find_slash-append :
    (i : ℕ) (s ys : List ℕ)
    → has_slash s ≡ false
    → find_slash i (s ++ slash ∷ ys) ≡ some (i + length s)
find_slash-append i [] ys n = ground arith
find_slash-append i (x ∷ xs) ys n =
    ground (arith, n, find_slash-append (suc i) xs ys (ground (arith, n)))

find_slash-none : (i : ℕ) (s : List ℕ) → has_slash s ≡ false → find_slash i s ≡ none
find_slash-none i [] n = refl
find_slash-none i (x ∷ xs) n = ground (arith, n, find_slash-none (suc i) xs (ground (arith, n)))

-- The iterator stands at handler `i`, with these parts still to come.
record Stands (size i : ℕ) (s : List ℕ) (ss : List (List ℕ)) (it : Iterator) : Type 0 where
  sized : it.size ≡ size
  begins : it.begin ≡ i
  finds : it.request_target ≡ slash ∷ s
  waits : (t : List ℕ) (ts : List (List ℕ)) → ss ≡ t ∷ ts → it.current_target ≡ target_of ss

skip-first :
    (it : Iterator) (s : List ℕ) (ss : List (List ℕ))
    → has_slash s ≡ false
    → it.current_target ≡ target_of (s ∷ ss)
    → ((skip_target it).request_target ≡ slash ∷ s)
      × ((t : List ℕ) (ts : List (List ℕ))
          → ss ≡ t ∷ ts
          → (skip_target it).current_target ≡ target_of ss)
unfolding skip_target
skip-first it s [] n e =
    (ground (arith, e, append-nil s, find_slash-none 1 s n), λ t ts h. absurd (ground (arith, h)))
skip-first it s (t ∷ ts) n e =
    let f = find_slash-append 1 s (t ++ target_of ts) n in
    (
      ground
          (arith, e, f, take-append_exact (suc (length s)) (slash ∷ s) (target_of (t ∷ ts)) refl),
      λ u us h.
          ground
            (arith, e, f, drop-append_exact (suc (length s)) (slash ∷ s) (target_of (t ∷ ts)) refl),
    )

call_lem :
    (size i : ℕ) (s : List ℕ) (ss : List (List ℕ)) (it : Iterator)
    → i < size
    → Stands size i s ss it
    → call it ≡ ok (i, slash ∷ s)
unfolding call
call_lem size i s ss it p h = ground (arith, p, h.sized, h.begins, h.finds)

-- Where the iterator stands before its target is skipped.
moved : Iterator → Iterator
moved it =
    if it.begin + 1 == it.size then it else record it { pos = it.pos + 1; begin = it.begin + 1 }

moved_keeps :
    (size i : ℕ) (it : Iterator)
    → suc i < size
    → it.size ≡ size
    → it.begin ≡ i
    → ((moved it).size ≡ size)
      × ((moved it).begin ≡ suc i)
      × ((moved it).current_target ≡ it.current_target)
unfolding moved
moved_keeps size i it p e b = (ground arith, ground arith, ground arith)

skip_keeps :
    (it : Iterator) → ((skip_target it).size ≡ it.size) × ((skip_target it).begin ≡ it.begin)
unfolding skip_target
skip_keeps it = keeps (find_next_slash it.current_target)
  where
    keeps : (o : Option ℕ) → ((skip_to o it).size ≡ it.size) × ((skip_to o it).begin ≡ it.begin)
    keeps none = (refl, refl)
    keeps (some p) = (refl, refl)

advance-Stands :
    (size i : ℕ) (s t : List ℕ) (ts : List (List ℕ)) (it : Iterator)
    → suc i < size
    → has_slash t ≡ false
    → Stands size i s (t ∷ ts) it
    → Stands size (suc i) t ts (advance it)
unfolding advance moved
advance-Stands size i s t ts it p n h =
    let (z, b, c) = moved_keeps size i it p h.sized h.begins in
    let (z', b') = skip_keeps (moved it) in
    let (r, w) = skip-first (moved it) t ts n (c ∙ h.waits t ts refl) in
    record { sized = z' ∙ z; begins = b' ∙ b; finds = r; waits = w }

calls_from :
    (ss : List (List ℕ)) (size i : ℕ) (s : List ℕ) (it : Iterator)
    → i < size
    → NoSlash ss
    → Stands size i s ss it
    → calls (length ss) it ≡ expected size i (s ∷ ss)
unfolding calls
calls_from [] size i s it p n h = ground (arith, call_lem size i s [] it p h)
calls_from (t ∷ ts) size i s it p n h =
    let c = call_lem size i s (t ∷ ts) it p h in
    elim (Bool-cases (i + 1 == size)) [
      | inl e ↦ ground (arith, c, e, h.sized, h.begins)
      | inr e ↦
          let q : suc i < size = ground (arith, e, p) in
          ground (
            arith,
            c,
            e,
            h.sized,
            h.begins,
            calls_from ts size (suc i) t (advance it) q n.1
                (advance-Stands size i s t ts it q n.0 h),
          )
    ]

-- Of several handlers, each called by the one before it after it has advanced, the first finds the
-- first part of the target in the request, the second the second, and so on, until the parts or the
-- handlers are at an end: the last handler cannot call on, and finds only its own part. No call is
-- made outside of the container.
pub calls-begin_exec :
    (size : ℕ) (s : List ℕ) (ss : List (List ℕ))
    → 1 < size
    → NoSlash (s ∷ ss)
    → calls (length ss) (begin_exec size (target_of (s ∷ ss))) ≡ expected size 0 (s ∷ ss)
unfolding begin_exec
calls-begin_exec size s ss p n =
    let it : Iterator = record {
      pos = 0;
      begin = 0;
      size = size;
      current_target = target_of (s ∷ ss);
      request_target = target_of (s ∷ ss);
    } in
    let (z, b) = skip_keeps it in
    let (r, w) = skip-first it s ss n.0 refl in
    let e : begin_exec size (target_of (s ∷ ss)) ≡ skip_target it = ground (arith, p) in
    ap (calls (length ss)) e
    ∙ calls_from ss size 0 s (skip_target it) (omega arith) n.1
        (record { sized = z; begins = b ∙ omega arith; finds = r; waits = w })
