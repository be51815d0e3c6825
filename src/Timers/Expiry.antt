-- ===== src/Timers/Expiry.antt =====
-- Net/TimerQueue.cpp: the timers that expire.
use ioloop.Prelude.{
  ℕ, ◌≤◌, ◌<◌, ◌≡◌, refl, sym, ap, subst, List, [], ◌∷◌, ◌++◌, ok, arith, true, Bool-cases, inl,
  inr,
}
use ioloop.Timers.{
  Timer, TimerId, before, Queue, split_at_bound, erase_active, is_after, get_expired, uintptr_max,
}
use ioloop.Timers.Order.{AllAfter, IsSorted, Agree}
use ioloop.Timers.Cancel.{first-Agree}

-- Every timer is due at this moment; no timer is; every address is one that a timer can have.
abbrev pub AllDue : ℕ → List Timer → Type 0
AllDue now [] = Unit {0}
AllDue now (t ∷ ts) = (t.expiration ≤ now) × AllDue now ts

abbrev pub AllLater : ℕ → List Timer → Type 0
AllLater now [] = Unit {0}
AllLater now (t ∷ ts) = (now < t.expiration) × AllLater now ts

abbrev pub AllAddresses : List Timer → Type 0
AllAddresses [] = Unit {0}
AllAddresses (t ∷ ts) = (t.address < uintptr_max) × AllAddresses ts

record Split (now : ℕ) (ts due later : List Timer) : Type 0 where
  whole : ts ≡ due ++ later
  all_due : AllDue now due
  all_later : AllLater now later

AllAfter-AllLater : (now e a : ℕ) (ts : List Timer) → now < e → AllAfter e a ts → AllLater now ts
AllAfter-AllLater now e a [] h k = tt
AllAfter-AllLater now e a (t ∷ ts) h k = (ground (arith, k.0), AllAfter-AllLater now e a ts h k.1)

split_at_bound-Split :
    (now : ℕ) (ts : List Timer)
    → IsSorted ts
    → AllAddresses ts
    → Split now ts (split_at_bound now ts).0 (split_at_bound now ts).1
split_at_bound-Split now [] s a = record { whole = refl; all_due = tt; all_later = tt }
split_at_bound-Split now (t ∷ ts) s a =
    elim (Bool-cases (before t.expiration t.address now uintptr_max)) [
      | inl p ↦
          let r = split_at_bound-Split now ts s.1 a.1 in
          let eq : split_at_bound now (t ∷ ts)
              ≡ (t ∷ (split_at_bound now ts).0, (split_at_bound now ts).1) =
            ground (arith, p) in
          subst (λ (r : List Timer × List Timer). Split now (t ∷ ts) r.0 r.1) (sym eq)
            (record {
              whole = ap (◌∷◌ t) r.whole;
              all_due = (ground (arith, p), r.all_due);
              all_later = r.all_later;
            })
      | inr p ↦
          let h : now < t.expiration = ground (arith, p, a.0) in
          let eq : split_at_bound now (t ∷ ts) ≡ ([], t ∷ ts) = ground (arith, p) in
          subst (λ (r : List Timer × List Timer). Split now (t ∷ ts) r.0 r.1) (sym eq)
            (record {
              whole = refl;
              all_due = tt;
              all_later = (h, AllAfter-AllLater now t.expiration t.address ts h s.0);
            })
    ]

erase_active-Agree :
    (xs ys : List Timer) (active : List TimerId)
    → Agree (xs ++ ys) active
    → (active' : List TimerId) × (erase_active xs active ≡ ok active') × Agree ys active'
erase_active-Agree [] ys active w = (active, refl, w)
erase_active-Agree (t ∷ xs) ys active w =
    let (c, w') = first-Agree t (xs ++ ys) active w in
    let (active', e, r) = erase_active-Agree xs ys _ w' in (active', ground (arith, c, e), r)

is_after-AllLater : (now : ℕ) (ts : List Timer) → AllLater now ts → is_after now ts ≡ true
unfolding is_after
is_after-AllLater now [] h = refl
is_after-AllLater now (t ∷ ts) h = ground (arith, h.0)

-- `getExpired` returns, and takes out of both sets exactly the timers that are due, earliest first:
-- those and the ones it leaves make up what was there, every one it leaves is due later, and the
-- sets still agree.
pub get_expired-Agree :
    (now : ℕ) (q : Queue)
    → Agree q.timers q.active
    → AllAddresses q.timers
    → (expired : List Timer) × (q' : Queue) × (get_expired now q ≡ ok (expired, q'))
      × (q.timers ≡ expired ++ q'.timers)
      × AllDue now expired
      × AllLater now q'.timers
      × Agree q'.timers q'.active
unfolding get_expired
get_expired-Agree now q w a =
    let r = split_at_bound-Split now q.timers w.sorted a in
    let (active', e, w') =
      erase_active-Agree (split_at_bound now q.timers).0 (split_at_bound now q.timers).1 q.active
        (subst (λ ts. Agree ts q.active) r.whole w) in
    (
      (split_at_bound now q.timers).0,
      record q { timers = (split_at_bound now q.timers).1; active = active' },
      ground (
        arith,
        w.size,
        e,
        w'.size,
        is_after-AllLater now (split_at_bound now q.timers).1 r.all_later,
      ),
      r.whole,
      r.all_due,
      r.all_later,
      w',
    )
