-- ===== src/Timers/Cancel.antt =====
-- Net/TimerQueue.cpp: the removal of a timer from both sets.
use ioloop.Prelude.{
  ℕ, ◌+◌, ◌≡◌, refl, sym, ap, ◌∙◌, subst, List, [], ◌∷◌, some, ok, arith, true, false, ◌&&◌, not,
  Bool-cases, inl, inr, length, if◌then◌else◌, ◌==◌,
}
use ioloop.Timers.{
  add_id, Timer, TimerId, id_of, same_id, contains, remove_id, is_entry, has_entry, remove_entry,
  timer_at, Queue, cancel_in_this_thread, erase_timer,
}
use ioloop.Timers.Order.{ids, has_address, AllAfter, IsSorted, IsUnique, IsDistinct, Agree, no_id}

contains_same :
    (i j : TimerId) (js : List TimerId) → same_id i j ≡ true → contains i js ≡ contains j js
contains_same i j [] e = refl
contains_same i j (k ∷ ks) e = ground (arith, contains_same i j ks e)

contains-remove_id :
    (j i : TimerId) (js : List TimerId)
    → IsUnique js
    → contains j (remove_id i js) ≡ (contains j js && not (same_id j i))
contains-remove_id j i [] u = refl
contains-remove_id j i (k ∷ ks) u =
    ground (arith, u.0, contains-remove_id j i ks u.1, contains_same j k ks)

remove_id-IsUnique : (i : TimerId) (js : List TimerId) → IsUnique js → IsUnique (remove_id i js)
remove_id-IsUnique i [] u = tt
remove_id-IsUnique i (k ∷ ks) u = elim (Bool-cases (same_id i k)) [
  | inl p ↦ subst (λ x. IsUnique (if x then ks else k ∷ remove_id i ks)) (sym p) u.1
  | inr p ↦
      subst (λ x. IsUnique (if x then ks else k ∷ remove_id i ks)) (sym p)
        (ground (arith, u.0, contains-remove_id k i ks u.1), remove_id-IsUnique i ks u.1)
]

length-remove_id :
    (i : TimerId) (js : List TimerId)
    → contains i js ≡ true
    → 1 + length (remove_id i js) ≡ length js
length-remove_id i [] c = ground (arith, c)
length-remove_id i (k ∷ ks) c = elim (Bool-cases (same_id i k)) [
  | inl p ↦ ground arith
  | inr p ↦ ground (arith, length-remove_id i ks (ground (arith, c)))
]

AllAfter-remove_entry :
    (e a e' a' : ℕ) (ts : List Timer) → AllAfter e a ts → AllAfter e a (remove_entry e' a' ts)
AllAfter-remove_entry e a e' a' [] k = tt
AllAfter-remove_entry e a e' a' (u ∷ us) k = elim (Bool-cases (is_entry e' a' u)) [
  | inl p ↦ subst (λ x. AllAfter e a (if x then us else u ∷ remove_entry e' a' us)) (sym p) k.1
  | inr p ↦
      subst (λ x. AllAfter e a (if x then us else u ∷ remove_entry e' a' us)) (sym p)
        (k.0, AllAfter-remove_entry e a e' a' us k.1)
]

remove_entry-IsSorted : (e a : ℕ) (ts : List Timer) → IsSorted ts → IsSorted (remove_entry e a ts)
remove_entry-IsSorted e a [] s = tt
remove_entry-IsSorted e a (u ∷ us) s = elim (Bool-cases (is_entry e a u)) [
  | inl p ↦ subst (λ x. IsSorted (if x then us else u ∷ remove_entry e a us)) (sym p) s.1
  | inr p ↦
      subst (λ x. IsSorted (if x then us else u ∷ remove_entry e a us)) (sym p)
        (AllAfter-remove_entry u.expiration u.address e a us s.0, remove_entry-IsSorted e a us s.1)
]

has_address-remove_entry :
    (b e a : ℕ) (ts : List Timer)
    → has_address b ts ≡ false
    → has_address b (remove_entry e a ts) ≡ false
has_address-remove_entry b e a [] n = refl
has_address-remove_entry b e a (u ∷ us) n =
    ground (arith, n, has_address-remove_entry b e a us (ground (arith, n)))

remove_entry-IsDistinct :
    (e a : ℕ) (ts : List Timer) → IsDistinct ts → IsDistinct (remove_entry e a ts)
remove_entry-IsDistinct e a [] s = tt
remove_entry-IsDistinct e a (u ∷ us) s = elim (Bool-cases (is_entry e a u)) [
  | inl p ↦ subst (λ x. IsDistinct (if x then us else u ∷ remove_entry e a us)) (sym p) s.1
  | inr p ↦
      subst (λ x. IsDistinct (if x then us else u ∷ remove_entry e a us)) (sym p)
        (has_address-remove_entry u.address e a us s.0, remove_entry-IsDistinct e a us s.1)
]

-- The timer that an identity names, and that its entry is the one to remove.
record Found (i : TimerId) (ts : List Timer) : Type 0 where
  timer : Timer
  at : timer_at i.0 ts ≡ some timer
  same : timer.address ≡ i.0
  entry : has_entry timer.expiration timer.address ts ≡ true
  rest : ids (remove_entry timer.expiration timer.address ts) ≡ remove_id i (ids ts)
  sized : 1 + length (remove_entry timer.expiration timer.address ts) ≡ length ts

find : (i : TimerId) (ts : List Timer) → IsDistinct ts → contains i (ids ts) ≡ true → Found i ts
find i [] d c = absurd (ground (arith, c))
find i (u ∷ us) d c = elim (Bool-cases (u.address == i.0)) [
  | inl p ↦ record {
    timer = u;
    at = ground arith;
    same = ground arith;
    entry = ground arith;
    rest = ground (arith, c, p, d.0, no_id i us);
    sized = ground arith;
  }
  | inr p ↦
      let f = find i us d.1 (ground (arith, c)) in
      record {
        timer = f.timer;
        at = ground (arith, f.at);
        same = f.same;
        entry = ground (arith, f.entry);
        rest = ground (arith, f.rest, f.same);
        sized = ground (arith, f.sized, f.same);
      }
]

ids-IsUnique : (ts : List Timer) → IsDistinct ts → IsUnique (ids ts)
ids-IsUnique [] d = tt
ids-IsUnique (t ∷ ts) d = (no_id (id_of t) ts d.0, ids-IsUnique ts d.1)

remove-Agree :
    (i : TimerId) {ts : List Timer} {active : List TimerId}
    → Agree ts active
    → contains i active ≡ true
    → (f : Found i ts)
    → Agree (remove_entry f.timer.expiration f.timer.address ts) (remove_id i active)
remove-Agree i {ts} {active} w c f = record {
  sorted = remove_entry-IsSorted f.timer.expiration f.timer.address ts w.sorted;
  distinct = remove_entry-IsDistinct f.timer.expiration f.timer.address ts w.distinct;
  unique = remove_id-IsUnique i active w.unique;
  size = omega (arith, f.sized, length-remove_id i active c, w.size);
  member = λ j.
      contains-remove_id j i active w.unique
      ∙ ap (λ x. x && not (same_id j i)) (w.member j)
      ∙ sym (contains-remove_id j i (ids ts) (ids-IsUnique ts w.distinct))
      ∙ sym (ap (contains j) f.rest);
}

-- `cancelInThisThread` always returns. A timer that is active is in neither set afterwards, which
-- still agree, and every other timer is where it was.
pub cancel_in_this_thread-Agree :
    (i : TimerId) (q : Queue)
    → Agree q.timers q.active
    → (q' : Queue) × (cancel_in_this_thread i q ≡ ok q')
      × Agree q'.timers q'.active
      × (contains i q'.active ≡ false)
      × ((j : TimerId) → same_id j i ≡ false → contains j q'.active ≡ contains j q.active)
      × ((a : ℕ) → has_address a q.timers ≡ false → has_address a q'.timers ≡ false)
unfolding cancel_in_this_thread erase_timer
cancel_in_this_thread-Agree i q w = elim (Bool-cases (contains i q.active)) [
  | inl c ↦
      let f = find i q.timers w.distinct (sym (w.member i) ∙ c) in
      let a = remove-Agree i w c f in
      (
        record q {
          timers = remove_entry f.timer.expiration f.timer.address q.timers;
          active = remove_id i q.active;
        },
        ground (arith, c, w.size, f.at, f.entry, a.size),
        a,
        ground (arith, contains-remove_id i i q.active w.unique),
        λ j n. ground (arith, n, contains-remove_id j i q.active w.unique),
        λ a n. has_address-remove_entry a f.timer.expiration f.timer.address q.timers n,
      )
  | inr c ↦ (
    record q { canceling = if q.calling_expired then add_id i q.canceling else q.canceling },
    ground (arith, c, w.size),
    w,
    c,
    λ j n. refl,
    λ a n. n,
  )
]

-- The first timer leaves both sets.
pub first-Agree :
    (t : Timer) (ts : List Timer) (active : List TimerId)
    → Agree (t ∷ ts) active
    → (contains (id_of t) active ≡ true) × Agree ts (remove_id (id_of t) active)
first-Agree t ts active w =
    let c : contains (id_of t) active ≡ true = w.member (id_of t) ∙ ground arith in
    (
      c,
      record {
        sorted = w.sorted.1;
        distinct = w.distinct.1;
        unique = remove_id-IsUnique (id_of t) active w.unique;
        size = omega (arith, length-remove_id (id_of t) active c, w.size);
        member = λ j.
            contains-remove_id j (id_of t) active w.unique
            ∙ ap (λ x. x && not (same_id j (id_of t))) (w.member j)
            ∙ sym (contains-remove_id j (id_of t) (ids (t ∷ ts)) (ids-IsUnique (t ∷ ts) w.distinct))
            ∙ ground arith;
      },
    )
