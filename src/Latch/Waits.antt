-- ===== src/Latch/Waits.antt =====
-- Net/CountDownLatch.h: which threads wait, in any run.
use ioloop.Prelude.{
  ℕ, zero, suc, ◌+◌, ◌≤◌, ◌<◌, length-take, length-drop, ◌≡◌, refl, sym, ap, ◌∙◌, subst, List, [],
  ◌∷◌, ◌++◌, branches, ◌==◌, ltb, length, arith, take, drop, length-append,
}
use ioloop.Prelude.Int.{ℤ, pos, ◌-ℤ◌, ltb_ℤ, sub_ℕ}
use ioloop.Latch.{
  Latch, new_latch, wait, go_on, wake, count_down, Act, wait_act, wake_act, go_on_act,
  count_down_act, step, run, is_zero, notify_all,
}

-- The calls of `countDown` in a run, and those of `wait`.
abbrev pub downs : List Act → ℕ
downs [] = 0
downs (count_down_act ∷ acts) = 1 + downs acts
downs (_ ∷ acts) = downs acts

abbrev pub waits : List Act → ℕ
waits [] = 0
waits (wait_act t ∷ acts) = 1 + waits acts
waits (_ ∷ acts) = waits acts

-- A latch of `n` after `d` calls of `countDown` and `w` of `wait`.
pub record Waits (n d w : ℕ) (l : Latch) : Type 0 where
  pub counted : l.count ≡ sub_ℕ n d
  pub closed : d < n → l.returned ≡ []
  pub opened : n ≤ d → l.sleeping ≡ []
  pub kept : length l.sleeping + length l.woken + length l.returned ≡ w

is_open : (n d : ℕ) (c : ℤ) → c ≡ sub_ℕ n d → ltb_ℤ (pos 0) c ≡ ltb d n
is_open n d c e = ground arith

next_count : (n d : ℕ) → sub_ℕ n d -ℤ pos 1 ≡ sub_ℕ n (1 + d)
next_count n d = ground arith

is_zero_lem : (n d : ℕ) → is_zero (sub_ℕ n d) ≡ (n == d)
is_zero_lem n d = ground arith

pub wait-Waits : (n d w t : ℕ) (l : Latch) → Waits n d w l → Waits n d (1 + w) (wait t l)
unfolding wait
wait-Waits n d w t l h =
    let test = is_open n d l.count h.counted in
    branches (Waits n d (1 + w)) (ltb_ℤ (pos 0) l.count)
      (record l { sleeping = l.sleeping ++ t ∷ [] }) (record l { returned = l.returned ++ t ∷ [] })
      (λ e. record {
        counted = h.counted;
        closed = h.closed;
        opened = λ o. absurd (ground (arith, o, sym test ∙ e));
        kept = omega (arith, h.kept, length-append l.sleeping (t ∷ []));
      })
      (λ e. record {
        counted = h.counted;
        closed = λ c. absurd (ground (arith, c, sym test ∙ e));
        opened = h.opened;
        kept = omega (arith, h.kept, length-append l.returned (t ∷ []));
      })

pub count_down-Waits : (n d w : ℕ) (l : Latch) → Waits n d w l → Waits n (1 + d) w (count_down l)
unfolding count_down
count_down-Waits n d w l h =
    let counted = ap (λ c. c -ℤ pos 1) h.counted ∙ next_count n d in
    let test = ap is_zero counted ∙ is_zero_lem n (1 + d) in
    let l' : Latch = record l { count = l.count -ℤ pos 1 } in
    branches (Waits n (1 + d) w) (is_zero (l.count -ℤ pos 1)) (notify_all l') l'
      (λ e. record {
        counted = counted;
        closed = λ c. h.closed (omega (arith, c));
        opened = λ o. refl;
        kept = omega (arith, h.kept, length-append l.woken l.sleeping);
      })
      (λ e. record {
        counted = counted;
        closed = λ c. h.closed (omega (arith, c));
        opened = λ o. h.opened (ground (arith, o, sym test ∙ e));
        kept = h.kept;
      })

left_out : (k : ℕ) → take {A = ℕ} k [] ++ drop {A = ℕ} (suc k) [] ≡ []
left_out zero = refl
left_out (suc k) = refl

pub wake-Waits : (n d w k : ℕ) (l : Latch) → Waits n d w l → Waits n d w (wake k l)
unfolding wake
wake-Waits n d w k l h = record {
  counted = h.counted;
  closed = h.closed;
  opened = λ o. ap (λ s. take k s ++ drop (suc k) s) (h.opened o) ∙ left_out k;
  kept = omega (
    arith,
    h.kept,
    length-append (take k l.sleeping) (drop (suc k) l.sleeping),
    length-append l.woken (take 1 (drop k l.sleeping)),
    length-take k l.sleeping,
    length-drop (suc k) l.sleeping,
    length-take 1 (drop k l.sleeping),
    length-drop k l.sleeping,
  );
}

pub go_on-Waits :
    (n d w : ℕ) (l : Latch) (woken : List ℕ)
    → l.woken ≡ woken
    → Waits n d w l
    → Waits n d w (go_on woken l)
unfolding go_on
go_on-Waits n d w l [] e h = h
go_on-Waits n d w l (t ∷ woken) e h =
    let m = length l.sleeping + length woken + length l.returned in
    let total : 1 + m ≡ w = omega (arith, h.kept, ap (length {A = ℕ}) e) in
    subst (λ v. Waits n d v (wait t (record l { woken = woken }))) total
      (wait-Waits n d m t (record l { woken = woken })
        record { counted = h.counted; closed = h.closed; opened = h.opened; kept = refl })

run_from :
    (n d w : ℕ) (acts : List Act) (l : Latch)
    → Waits n d w l
    → Waits n (d + downs acts) (w + waits acts) (run acts l)
unfolding run step
run_from n d w [] l h =
    subst (λ e. Waits n e (w + 0) l) (omega arith) (subst (λ v. Waits n d v l) (omega arith) h)
run_from n d w (wait_act t ∷ acts) l h =
    subst (λ v. Waits n (d + downs acts) v (run acts (wait t l))) (omega arith)
      (run_from n d (1 + w) acts (wait t l) (wait-Waits n d w t l h))
run_from n d w (wake_act k ∷ acts) l h = run_from n d w acts (wake k l) (wake-Waits n d w k l h)
run_from n d w (go_on_act ∷ acts) l h =
    run_from n d w acts (go_on l.woken l) (go_on-Waits n d w l l.woken refl h)
run_from n d w (count_down_act ∷ acts) l h =
    subst (λ e. Waits n e (w + waits acts) (run acts (count_down l))) (omega arith)
      (run_from n (1 + d) w acts (count_down l) (count_down-Waits n d w l h))

-- After any run of a latch of `n`, with spurious wake-ups: the count is `n` less the calls of
-- `countDown`; before the n-th call nobody has returned from `wait`; from it on nobody sleeps; and
-- every call of `wait` sleeps, is woken or has returned.
pub run-Waits :
    (n : ℕ) (acts : List Act) → Waits n (downs acts) (waits acts) (run acts (new_latch (pos n)))
run-Waits n acts =
    let l = run acts (new_latch (pos n)) in
    subst (λ d. Waits n d (waits acts) l) (omega arith)
      (subst (λ w. Waits n (0 + downs acts) w l) (omega arith)
        (run_from n 0 0 acts (new_latch (pos n)) record {
          counted = ground arith;
          closed = λ c. refl;
          opened = λ o. refl;
          kept = omega arith;
        }))

-- The threads that are woken test again, each once.
abbrev pub go_all : List ℕ → List Act
go_all [] = []
go_all (t ∷ woken) = go_on_act ∷ go_all woken

wait_woken : (t : ℕ) (l : Latch) → (wait t l).woken ≡ l.woken
unfolding wait
wait_woken t l = ground arith

returns_from :
    (n d w : ℕ) (l : Latch) (woken : List ℕ)
    → n ≤ d
    → l.woken ≡ woken
    → Waits n d w l
    → length (run (go_all woken) l).returned ≡ w
unfolding run step go_on wait
returns_from n d w l [] o e h =
    omega (arith, h.kept, ap (length {A = ℕ}) (h.opened o), ap (length {A = ℕ}) e)
returns_from n d w l (t ∷ woken) o e h =
    let l' = wait t (record l { woken = woken }) in
    ap (λ v. length (run (go_all woken) (go_on v l)).returned) e
    ∙ returns_from n d w l' woken o (wait_woken t (record l { woken = woken }))
        (go_on-Waits n d w l (t ∷ woken) e h)

-- Once `countDown` was called `n` times on a latch of `n`, in any run with spurious wake-ups, all
-- calls of `wait` have returned after every woken thread has tested the count once more.
pub run-opens :
    (n : ℕ) (acts : List Act)
    → n ≤ downs acts
    → length
        (run (go_all (run acts (new_latch (pos n))).woken) (run acts (new_latch (pos n)))).returned
      ≡ waits acts
run-opens n acts o =
    let l = run acts (new_latch (pos n)) in
    returns_from n (downs acts) (waits acts) l l.woken o refl (run-Waits n acts)
