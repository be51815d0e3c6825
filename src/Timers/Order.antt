-- ===== src/Timers/Order.antt =====
-- Net/TimerQueue.cpp: the two sets of timers agree, and no assertion about them fails.
use ioloop.Prelude.{
  ℕ, ◌+◌, ◌≡◌, refl, sym, ◌∙◌, subst, List, [], ◌∷◌, ok, arith, Bool, true, false, ◌||◌, Bool-cases,
  inl, inr, length, if◌then◌else◌, ◌==◌,
}
use ioloop.Timers.{
  Timer, TimerId, id_of, same_id, contains, before, add_entry, has_entry, Queue, insert,
  is_earliest,
}

abbrev pub ids : List Timer → List TimerId
ids [] = []
ids (t ∷ ts) = id_of t ∷ ids ts

abbrev pub has_address : ℕ → List Timer → Bool
has_address a [] = false
has_address a (t ∷ ts) = t.address == a || has_address a ts

-- All timers come after this moment and address.
abbrev pub AllAfter : ℕ → ℕ → List Timer → Type 0
AllAfter e a [] = Unit {0}
AllAfter e a (t ∷ ts) = (before e a t.expiration t.address ≡ true) × AllAfter e a ts

-- The order of the set, without duplicates.
abbrev pub IsSorted : List Timer → Type 0
IsSorted [] = Unit {0}
IsSorted (t ∷ ts) = AllAfter t.expiration t.address ts × IsSorted ts

abbrev pub IsUnique : List TimerId → Type 0
IsUnique [] = Unit {0}
IsUnique (i ∷ is) = (contains i is ≡ false) × IsUnique is

-- No two timers are at one address.
abbrev pub IsDistinct : List Timer → Type 0
IsDistinct [] = Unit {0}
IsDistinct (t ∷ ts) = (has_address t.address ts ≡ false) × IsDistinct ts

pub record Agree (timers : List Timer) (active : List TimerId) : Type 0 where
  pub sorted : IsSorted timers
  pub distinct : IsDistinct timers
  pub unique : IsUnique active
  pub size : length timers ≡ length active
  pub member : (i : TimerId) → contains i active ≡ contains i (ids timers)

AllAfter-earlier :
    (e a u b : ℕ) (ts : List Timer) → before e a u b ≡ true → AllAfter u b ts → AllAfter e a ts
AllAfter-earlier e a u b [] h k = tt
AllAfter-earlier e a u b (t ∷ ts) h k = (ground (arith, k.0), AllAfter-earlier e a u b ts h k.1)

AllAfter-add_entry :
    (e a : ℕ) (t : Timer) (ts : List Timer)
    → before e a t.expiration t.address ≡ true
    → AllAfter e a ts
    → AllAfter e a (add_entry t ts)
AllAfter-add_entry e a t [] h k = (h, tt)
AllAfter-add_entry e a t (u ∷ us) h k =
    elim (Bool-cases (before t.expiration t.address u.expiration u.address)) [
      | inl p ↦
          subst (λ x. AllAfter e a (if x then t ∷ u ∷ us else u ∷ add_entry t us)) (sym p) (h, k)
      | inr p ↦
          subst (λ x. AllAfter e a (if x then t ∷ u ∷ us else u ∷ add_entry t us)) (sym p)
            (k.0, AllAfter-add_entry e a t us h k.1)
    ]

add_entry-IsSorted :
    (t : Timer) (ts : List Timer)
    → has_entry t.expiration t.address ts ≡ false
    → IsSorted ts
    → IsSorted (add_entry t ts)
add_entry-IsSorted t [] n s = (tt, tt)
add_entry-IsSorted t (u ∷ us) n s =
    elim (Bool-cases (before t.expiration t.address u.expiration u.address)) [
      | inl p ↦
          subst (λ x. IsSorted (if x then t ∷ u ∷ us else u ∷ add_entry t us)) (sym p)
            ((p, AllAfter-earlier t.expiration t.address u.expiration u.address us p s.0), s)
      | inr p ↦
          subst (λ x. IsSorted (if x then t ∷ u ∷ us else u ∷ add_entry t us)) (sym p)
            (
              AllAfter-add_entry u.expiration u.address t us (ground (arith, n)) s.0,
              add_entry-IsSorted t us (ground (arith, n)) s.1,
            )
    ]

length-add_entry : (t : Timer) (ts : List Timer) → length (add_entry t ts) ≡ 1 + length ts
length-add_entry t [] = refl
length-add_entry t (u ∷ us) = ground (arith, length-add_entry t us)

pub contains-add_entry :
    (i : TimerId) (t : Timer) (ts : List Timer)
    → contains i (ids (add_entry t ts)) ≡ (same_id i (id_of t) || contains i (ids ts))
contains-add_entry i t [] = refl
contains-add_entry i t (u ∷ us) = ground (arith, contains-add_entry i t us)

pub has_address-add_entry :
    (a : ℕ) (t : Timer) (ts : List Timer)
    → has_address a (add_entry t ts) ≡ (t.address == a || has_address a ts)
has_address-add_entry a t [] = refl
has_address-add_entry a t (u ∷ us) = ground (arith, has_address-add_entry a t us)

add_entry-IsDistinct :
    (t : Timer) (ts : List Timer)
    → has_address t.address ts ≡ false
    → IsDistinct ts
    → IsDistinct (add_entry t ts)
add_entry-IsDistinct t [] n d = (refl, tt)
add_entry-IsDistinct t (u ∷ us) n d =
    elim (Bool-cases (before t.expiration t.address u.expiration u.address)) [
      | inl p ↦
          subst (λ x. IsDistinct (if x then t ∷ u ∷ us else u ∷ add_entry t us)) (sym p) (n, d)
      | inr p ↦
          subst (λ x. IsDistinct (if x then t ∷ u ∷ us else u ∷ add_entry t us)) (sym p)
            (
              ground (arith, has_address-add_entry u.address t us, d.0, n),
              add_entry-IsDistinct t us (ground (arith, n)) d.1,
            )
    ]

-- A timer at a new address is neither in one set nor in the other.
no_entry : (e a : ℕ) (ts : List Timer) → has_address a ts ≡ false → has_entry e a ts ≡ false
no_entry e a [] n = refl
no_entry e a (t ∷ ts) n = ground (arith, n, no_entry e a ts (ground (arith, n)))

pub no_id :
    (i : TimerId) (ts : List Timer) → has_address i.0 ts ≡ false → contains i (ids ts) ≡ false
no_id i [] n = refl
no_id i (t ∷ ts) n = ground (arith, n, no_id i ts (ground (arith, n)))

pub add_entry-Agree :
    (t : Timer) {ts : List Timer} {active : List TimerId}
    → Agree ts active
    → has_address t.address ts ≡ false
    → Agree (add_entry t ts) (id_of t ∷ active)
add_entry-Agree t {ts} {active} w n = record {
  sorted = add_entry-IsSorted t ts (no_entry t.expiration t.address ts n) w.sorted;
  distinct = add_entry-IsDistinct t ts n w.distinct;
  unique = (w.member (id_of t) ∙ no_id (id_of t) ts n, w.unique);
  size = omega (arith, length-add_entry t ts, w.size);
  member = λ i. ground (arith, contains-add_entry i t ts, w.member i);
}

-- `insert` of a timer at a new address returns, says whether it is the earliest, and keeps the two
-- sets in agreement.
pub insert-Agree :
    (t : Timer) {q : Queue}
    → Agree q.timers q.active
    → has_address t.address q.timers ≡ false
    → (insert t q
        ≡ ok (
          is_earliest t.expiration q.timers,
          record q { timers = add_entry t q.timers; active = id_of t ∷ q.active },
        ))
      × Agree (add_entry t q.timers) (id_of t ∷ q.active)
unfolding insert
insert-Agree t {q} w n =
    let a = add_entry-Agree t w n in
    (
      ground (
        arith,
        w.size,
        a.size,
        no_entry t.expiration t.address q.timers n,
        w.member (id_of t),
        no_id (id_of t) q.timers n,
      ),
      a,
    )
