-- ===== src/TcpServer/Entries.antt =====
-- Net/TcpServer.cpp: counting the entries of the map of connections, and the posted functions.
use ioloop.Prelude.{
  same_text, ℕ, suc, ◌+◌, ◌≤◌, ◌<◌, ◌≡◌, refl, sym, ap, subst, ◌∙◌, List, [], ◌∷◌, ◌++◌, Bool, true,
  false, ◌==◌, if◌then◌else◌, arith,
}
use ioloop.TcpServer.{
  Connections, assign, erase, count, Task, remove_task, established_task, destroyed_task,
}

-- How many entries are for a connection.
abbrev pub entries : ℕ → Connections → ℕ
entries i [] = 0
entries i (e ∷ es) = let rest = entries i es in if e.1 == i then suc rest else rest

-- How many removals of it are posted.
abbrev pub removals : ℕ → List Task → ℕ
removals i [] = 0
removals i (remove_task j ∷ ts) = let rest = removals i ts in if j == i then suc rest else rest
removals i (established_task j ∷ ts) = removals i ts
removals i (destroyed_task j ∷ ts) = removals i ts

-- Every entry is for one of the first `n` connections and has its name.
abbrev pub Named : (ℕ → List ℕ) → ℕ → Connections → Type 0
Named naming n [] = Unit {0}
Named naming n (e ∷ es) = (e.0 ≡ naming e.1) × (e.1 < n) × Named naming n es

pub removals-append :
    (i : ℕ) (ts us : List Task) → removals i (ts ++ us) ≡ removals i ts + removals i us
removals-append i [] us = omega arith
removals-append i (remove_task j ∷ ts) us = ground (arith, removals-append i ts us)
removals-append i (established_task j ∷ ts) us = removals-append i ts us
removals-append i (destroyed_task j ∷ ts) us = removals-append i ts us

pub entries-none :
    (naming : ℕ → List ℕ) (n i : ℕ) (es : Connections)
    → Named naming n es
    → n ≤ i
    → entries i es ≡ 0
entries-none naming n i [] a h = refl
entries-none naming n i (e ∷ es) a h = ground (arith, a.1, h, entries-none naming n i es a.2 h)

pub Named-more :
    (naming : ℕ → List ℕ) (n : ℕ) (es : Connections) → Named naming n es → Named naming (suc n) es
Named-more naming n [] a = tt
Named-more naming n (e ∷ es) a = (a.0, omega (arith, a.1), Named-more naming n es a.2)

-- The names of the first `n` connections are different.
module _ (naming : ℕ → List ℕ) (n : ℕ)
    (different : (i j : ℕ) → i < n → j < n → same_text (naming i) (naming j) ≡ (i == j)) where
  same_entry :
      (x : List ℕ) (i j : ℕ) → x ≡ naming j → i < n → j < n → same_text x (naming i) ≡ (j == i)
  same_entry x i j e h k = ap (λ y. same_text y (naming i)) e ∙ different j i k h

  pub count-entries :
      (i : ℕ) (es : Connections) → i < n → Named naming n es → count (naming i) es ≡ entries i es
  count-entries i [] h a = refl
  count-entries i (e ∷ es) h a =
      ground (arith, same_entry e.0 i e.1 a.0 h a.1, count-entries i es h a.2)

  Named-if :
      (b : Bool) (es ds : Connections)
      → Named naming n es
      → Named naming n ds
      → Named naming n (if b then es else ds)
  Named-if true es ds x y = x
  Named-if false es ds x y = y

  pub erase-Named :
      (i : ℕ) (es : Connections) → i < n → Named naming n es → Named naming n (erase (naming i) es)
  erase-Named i [] h a = tt
  erase-Named i (e ∷ es) h a =
      let rest = erase-Named i es h a.2 in
      Named-if (same_text e.0 (naming i)) (erase (naming i) es) (e ∷ erase (naming i) es) rest
        (a.0, a.1, rest)

  pub entries-erase :
      (i j : ℕ) (es : Connections)
      → i < n
      → Named naming n es
      → entries j (erase (naming i) es) ≡ (if i == j then 0 else entries j es)
  entries-erase i j [] h a = ground arith
  entries-erase i j (e ∷ es) h a =
      ground (arith, same_entry e.0 i e.1 a.0 h a.1, entries-erase i j es h a.2)

  -- The last of them gets its entry while it has none.
  pub entries-assign :
      (i j : ℕ) (es : Connections)
      → suc i ≡ n
      → Named naming i es
      → (entries j (assign (naming i) i es) ≡ (if i == j then 1 else entries j es))
        × Named naming n (assign (naming i) i es)
  entries-assign i j [] h a = (ground arith, (refl, omega (arith, h), tt))
  entries-assign i j (e ∷ es) h a =
      let other : same_text e.0 (naming i) ≡ false =
        same_entry e.0 i e.1 a.0 (omega (arith, h)) (omega (arith, h, a.1)) ∙ ground (arith, a.1) in
      let keeps : assign (naming i) i (e ∷ es) ≡ e ∷ assign (naming i) i es =
        ground (arith, other) in
      let (counted, named) = entries-assign i j es h a.2 in
      (
        ap (entries j) keeps ∙ ground (arith, counted, a.1),
        subst (Named naming n) (sym keeps) (a.0, omega (arith, h, a.1), named),
      )
