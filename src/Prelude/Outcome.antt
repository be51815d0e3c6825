-- ===== src/Prelude/Outcome.antt =====
-- Outcomes of C++ code: a value, or how the call was left without one.
use mathlib.Core.Bool.{Bool, true, false}
use mathlib.Core.Path.{◌≡◌, refl}
use native.Mathlib.Omega.{arith}

-- A failed `assert` of a debug build, the `std::length_error` of a vector, an access outside
-- an object, a loop that has not ended within its fuel, a call of an empty `std::function`, and the
-- exception of a call of asio that takes no error code.
pub data Fault : Type 0 where
  assertion length_error out_of_range out_of_fuel bad_function_call system_error : Fault

-- What a call leaves behind: how it was cut short, or its value.
pub data Result {ℓ} (A : Type ℓ) : Type ℓ where
  err : Fault → Result A
  ok : A → Result A

infixl 5 ◌>>=◌ ◌>>◌
abbrev pub ◌>>=◌ {ℓ κ} : {A : Type ℓ} {B : Type κ} → Result A → (A → Result B) → Result B
err fault >>= next = err fault
ok value >>= next = next value

abbrev pub ◌>>◌ {ℓ} : {B : Type ℓ} → Result (Unit {0}) → Result B → Result B
first >> second = first >>= λ done. second

-- `assert(b)`
abbrev pub assert : Bool → Result (Unit {0})
assert true = ok tt
assert false = err assertion

-- The parts of a sequence that gives a value.
pub bind-ok :
    {A : Type 0} {B : Type 0} (o : Result A) (f : A → Result B) (y : B)
    → (o >>= f) ≡ ok y
    → (x : A) × (o ≡ ok x) × (f x ≡ ok y)
bind-ok (err fault) f y e = absurd (ground (arith, e))
bind-ok (ok x) f y e = (x, refl, e)

pub ok_same : {A : Type 0} (x y : A) → ok x ≡ ok y → x ≡ y
ok_same x y e = ground (arith, e)
