-- ===== src/Http/Mount/Anchors.antt =====
-- Http/Router.hpp: the path under which a route of another router is registered.
use ioloop.Prelude.{
  ℕ, ◌-◌, ◌≡◌, refl, ap, ◌∙◌, List, [], ◌∷◌, ◌++◌, append_assoc, ok, Bool, true, false, ◌||◌,
  length, take, length-append, take-append_exact, arith,
}
use ioloop.Http.Mount.{caret, dollar, back, is_anchored, without_last, concat}

-- A regular expression with these anchors, or without any.
abbrev pub anchored : Bool → List ℕ → List ℕ
anchored true body = caret ∷ (body ++ dollar ∷ [])
anchored false body = body

back-append : (xs : List ℕ) (x : ℕ) → back (xs ++ x ∷ []) ≡ ok x
back-append [] x = refl
back-append (y ∷ []) x = refl
back-append (y ∷ z ∷ zs) x = back-append (z ∷ zs) x

back-anchored : (body : List ℕ) → back (anchored true body) ≡ ok dollar
back-anchored [] = refl
back-anchored (x ∷ xs) = back-append (x ∷ xs) dollar

is_anchored_lem : (body : List ℕ) → is_anchored (anchored true body) ≡ ok true
unfolding is_anchored
is_anchored_lem body = ground (arith, back-anchored body)

without_last_lem : (body : List ℕ) → without_last (anchored true body) ≡ caret ∷ body
without_last_lem body =
    let n : length (anchored true body) - 1 ≡ length (caret ∷ body) =
      omega (arith, length-append body (dollar ∷ [])) in
    ap (λ k. take k (anchored true body)) n
    ∙ take-append_exact (length (caret ∷ body)) (caret ∷ body) (dollar ∷ []) refl

-- The path that `concat` makes is anchored when one of the two is, and its body is the two bodies
-- one behind the other: the anchors in the middle are gone.
pub concat-anchored :
    (p q : Bool) (body1 body2 : List ℕ)
    → is_anchored (anchored p body1) ≡ ok p
    → is_anchored (anchored q body2) ≡ ok q
    → concat (anchored p body1) (anchored q body2) ≡ ok (anchored (p || q) (body1 ++ body2))
unfolding concat
concat-anchored true true b1 b2 h k = ground (
  arith,
  h,
  k,
  without_last_lem b1,
  append_assoc b1 b2 (dollar ∷ []),
  append_assoc (caret ∷ b1) b2 (dollar ∷ []),
)
concat-anchored true false b1 b2 h k = ground (arith, h, k, without_last_lem b1)
concat-anchored false true b1 b2 h k = ground (arith, h, k, append_assoc b1 b2 (dollar ∷ []))
concat-anchored false false b1 b2 h k = ground (arith, h, k)
