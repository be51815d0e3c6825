-- ===== src/Buffer/Ints/BigEndian.antt =====
-- The byte order of the network, most significant byte first: a concrete `socket_ops`.
use ioloop.Prelude.{ℕ, ◌+◌, ◌*◌, ◌/◌, ◌%◌, ◌^◌, ◌<◌, ◌≡◌, refl, [], ◌∷◌, arith, get_or}
use ioloop.Buffer.Ints.{ByteOrder}

pub digit32 :
    (x : ℕ)
    → x < 2 ^ 32
    → (x / 2 ^ 24 % 256 * 2 ^ 24 + x / 2 ^ 16 % 256 * 2 ^ 16 + x / 2 ^ 8 % 256 * 2 ^ 8 + x % 256)
      ≡ x
digit32 x h = omega arith

pub digit16 : (x : ℕ) → x < 2 ^ 16 → (x / 2 ^ 8 % 256 * 2 ^ 8 + x % 256) ≡ x
digit16 x h = omega arith

abbrev pub big_endian : ByteOrder
big_endian = record {
  bytes32 = λ x. (x / 2 ^ 24 % 256) ∷ (x / 2 ^ 16 % 256) ∷ (x / 2 ^ 8 % 256) ∷ (x % 256) ∷ [];
  host32 =
      λ bs. get_or bs 0 0 * 2 ^ 24 + get_or bs 1 0 * 2 ^ 16 + get_or bs 2 0 * 2 ^ 8 + get_or bs 3 0;
  bytes16 = λ x. (x / 2 ^ 8 % 256) ∷ (x % 256) ∷ [];
  host16 = λ bs. get_or bs 0 0 * 2 ^ 8 + get_or bs 1 0;
  length_bytes32 = λ x. refl;
  length_bytes16 = λ x. refl;
  host32_bytes32 = digit32;
  host16_bytes16 = digit16;
}
