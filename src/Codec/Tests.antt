-- ===== src/Codec/Tests.antt =====
-- Net/Codec.cpp: the theorems at concrete streams.
use ioloop.Prelude.{ℕ, ◌+◌, ◌≡◌, refl, List, [], ◌∷◌, ◌++◌, ok, arith, replicate, length}
use ioloop.Buffer.{Buffer, append, retrieve}
use ioloop.Buffer.Contents.{Holds}
use ioloop.Buffer.Ints.{peek_int32}
use ioloop.Buffer.Ints.BigEndian.{big_endian}
use ioloop.Codec.{Event, deliver, on_message, is_invalid}
use ioloop.Codec.Frames.{short}
use ioloop.Codec.Stream.{frames, on_message-frames, on_message-chunks}

abbrev messages : List (List ℕ)
messages = (7 ∷ 8 ∷ []) ∷ (9 ∷ []) ∷ []

abbrev front : List ℕ
front = replicate 8 0

abbrev holding : List ℕ → Buffer
holding xs = record { store = front ++ xs; reader = 8; writer = 8 + length xs }

abbrev stream : List ℕ
stream = frames big_endian messages ++ (0 ∷ 0 ∷ [])

stream-Holds : Holds (holding stream) stream
stream-Holds = record { valid = omega arith; bytes = refl }

on_message-frames_example :
    (c : Buffer) × (on_message big_endian 20 (holding stream)
      ≡ ok (deliver (7 ∷ 8 ∷ []) ∷ deliver (9 ∷ []) ∷ [], c))
    × Holds c (0 ∷ 0 ∷ [])
on_message-frames_example =
    on_message-frames big_endian messages 20 (omega arith) (short (omega arith)) stream-Holds
      (omega arith)

abbrev first_part : List ℕ
first_part = 0 ∷ 0 ∷ 0 ∷ 2 ∷ 7 ∷ 8 ∷ 0 ∷ []

abbrev left_over : Buffer
left_over = record (holding first_part) { reader = 14 }

on_message-chunks_example :
    (es : List Event) × (rest : List ℕ) × (c c' d' : Buffer) × (append
        (0 ∷ 0 ∷ 1 ∷ 9 ∷ [])
        4
        left_over
      ≡ ok c)
    × (on_message big_endian 20 c ≡ ok (es, c'))
    × Holds c' rest
    × (on_message big_endian 20 (holding (first_part ++ (0 ∷ 0 ∷ 1 ∷ 9 ∷ [])))
        ≡ ok (deliver (7 ∷ 8 ∷ []) ∷ es, d'))
    × Holds d' rest
unfolding on_message is_invalid retrieve peek_int32
on_message-chunks_example =
    on_message-chunks big_endian 20 (0 ∷ 0 ∷ 1 ∷ 9 ∷ []) {es = deliver (7 ∷ 8 ∷ []) ∷ []}
      {b = holding first_part} {b' = left_over} {d = holding (first_part ++ (0 ∷ 0 ∷ 1 ∷ 9 ∷ []))}
      (record { valid = omega arith; bytes = refl }) (record { valid = omega arith; bytes = refl })
      (omega arith) refl tt (omega arith)
