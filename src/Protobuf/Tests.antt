-- ===== src/Protobuf/Tests.antt =====
-- Net/ProtobufCodec.cpp: the theorems with a small message library.
use ioloop.Prelude.{
  ℕ, ◌+◌, ◌≡◌, refl, List, [], ◌∷◌, ◌++◌, none, some, ok, err, out_of_fuel, arith, replicate,
  length, get_or, ◌==◌, if◌then◌else◌,
}
use ioloop.Buffer.{Buffer}
use ioloop.Buffer.Contents.{Holds}
use ioloop.Buffer.Ints.BigEndian.{big_endian}
use ioloop.Protobuf.{Library, deliver, on_message, send}
use ioloop.Protobuf.Hang.{on_message_partial_hangs}
use ioloop.Protobuf.Wire.Send.{on_message-send}

-- One type of message, "Q", that holds one byte; the checksum is the sum of the bytes.
abbrev sum : List ℕ → ℕ
sum [] = 0
sum (x ∷ xs) = x + sum xs

abbrev library : Library ℕ
library = record {
  type_name = λ m. 81 ∷ [];
  byte_size = λ m. 1;
  serialize = λ m. m ∷ [];
  find_prototype = λ name. if get_or name 0 0 == 81 then some 0 else none;
  parse_from_array = λ m bytes. get_or bytes 0 0;
  adler32 = sum;
  byte_size-eq-length = λ m. refl;
  name_nonempty = λ m. omega arith;
  prototype = λ m. 0;
  find_prototype-type_name = λ m. refl;
  parse_from_array-serialize = λ m. refl;
}

abbrev holding : List ℕ → Buffer
holding xs = record { store = replicate 8 0 ++ xs; reader = 8; writer = 8 + length xs }

on_message-send_example :
    (b c : Buffer) × (send big_endian library 7 ≡ ok b)
    × (on_message big_endian library 2 b ≡ ok (deliver 7 ∷ [], c))
    × Holds c []
on_message-send_example = on_message-send big_endian library 7 2 (omega arith) (omega arith)

-- Fifteen of the nineteen bytes that the header announces.
abbrev cut : List ℕ
cut = 0 ∷ 0 ∷ 0 ∷ 15 ∷ replicate 11 1

on_message_partial_hangs_example : on_message big_endian library 9 (holding cut) ≡ err out_of_fuel
on_message_partial_hangs_example =
    on_message_partial_hangs big_endian library 9 (record { valid = omega arith; bytes = refl })
      (omega arith) (omega arith) (omega arith) (omega arith)

-- A checksum that is not right.
abbrev damaged : List ℕ
damaged = 0 ∷ 0 ∷ 0 ∷ 11 ∷ replicate 11 1
