-- ===== src/Prelude/Words.antt =====
-- `size_t` and `int32_t` as native numbers with their wrap-around.
use Prim.Native.Nat.{ℕ, ◌+◌, ◌-◌, ◌%◌, ◌^◌}
use ioloop.Prelude.Tests.{ltb, leb, if◌then◌else◌}
use ioloop.Prelude.Int.{ℤ, pos, negsuc}

abbrev pub size_mod : ℕ
size_mod = 2 ^ 64

abbrev pub add64 : ℕ → ℕ → ℕ
add64 a b = (a + b) % size_mod

abbrev pub sub64 : ℕ → ℕ → ℕ
sub64 a b = (a + size_mod - b) % size_mod

-- A 32-bit pattern read as `int32_t`.
abbrev pub signed32 : ℕ → ℤ
signed32 w = if leb (2 ^ 31) w then negsuc (2 ^ 32 - (w + 1)) else pos w

-- `static_cast<int>` of a `size_t`, as a bit pattern.
abbrev pub low32 : ℕ → ℕ
low32 n = n % 2 ^ 32

-- An `int` converted to `size_t`: the sign bit fills the upper half.
abbrev pub extend64 : ℕ → ℕ
extend64 w = if ltb w (2 ^ 31) then w else w + (2 ^ 64 - 2 ^ 32)
