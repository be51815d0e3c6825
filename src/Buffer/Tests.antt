-- ===== src/Buffer/Tests.antt =====
-- Net/Buffer.cpp: runs, and the theorems at concrete buffers.
use ioloop.Prelude.{◌≡◌, refl, List, [], ◌∷◌, ◌++◌, none, ok, arith, replicate, map}
use ioloop.Buffer.{
  Buffer, append, prepend, make_space, has_written, ensure_writable_bytes, retrieve_as_string,
}
use ioloop.Buffer.Contents.{Holds, append-Holds, prepend-Holds, retrieve_as_string-Holds, Extends}
use ioloop.Buffer.Refine.{
  put, get, make_room, unput, run, queue_run, queue_call, Agrees, run-Agrees,
}
use ioloop.Buffer.Ints.BigEndian.{big_endian}
use ioloop.Buffer.Ints.Fields.{
  Field, int8, int16, int32, kind, write_fields, read_fields, read_fields-write_fields,
}

abbrev fresh : Buffer
fresh = record { store = replicate 16 0; reader = 8; writer = 8 }

-- Three bytes, with twelve in front of them.
abbrev used : Buffer
used = record { store = replicate 12 0 ++ (1 ∷ 2 ∷ 3 ∷ 0 ∷ []); reader = 12; writer = 15 }

fresh-Holds : Holds fresh []
fresh-Holds = record { valid = omega arith; bytes = refl }

used-Holds : Holds used (1 ∷ 2 ∷ 3 ∷ [])
used-Holds = record { valid = omega arith; bytes = refl }

-- The second append finds its room by moving the bytes to the front.
moves :
    append (4 ∷ 5 ∷ 6 ∷ []) 3 used
    ≡ ok (record {
      store = (0 ∷ 0 ∷ 0 ∷ 0 ∷ 0 ∷ 0 ∷ 0 ∷ 0 ∷ 1 ∷ 2 ∷ 3 ∷ 4 ∷ 5 ∷ 6 ∷ 3 ∷ 0 ∷ []);
      reader = 8;
      writer = 14;
    })
unfolding append ensure_writable_bytes make_space has_written
moves = refl

append-Holds_example :
    (b : Buffer) × (append (4 ∷ 5 ∷ []) 2 used ≡ ok b)
    × Holds b (1 ∷ 2 ∷ 3 ∷ 4 ∷ 5 ∷ [])
    × Extends used 2 b
append-Holds_example = append-Holds (4 ∷ 5 ∷ []) used-Holds (omega arith)

prepend-Holds_example :
    (b : Buffer) × (prepend (9 ∷ []) 1 used ≡ ok b) × Holds b (9 ∷ 1 ∷ 2 ∷ 3 ∷ [])
prepend-Holds_example = prepend-Holds (9 ∷ []) used-Holds (omega arith)

retrieve_as_string-Holds_example :
    (b : Buffer) × (retrieve_as_string 2 used ≡ ok (1 ∷ 2 ∷ [], b)) × Holds b (3 ∷ [])
retrieve_as_string-Holds_example = retrieve_as_string-Holds 2 used-Holds (omega arith)

run-Agrees_example :
    Agrees (run (put (4 ∷ []) ∷ get 2 ∷ make_room 100 ∷ unput 1 ∷ get 9 ∷ []) used) none
unfolding queue_run queue_call
run-Agrees_example =
    run-Agrees (put (4 ∷ []) ∷ get 2 ∷ make_room 100 ∷ unput 1 ∷ get 9 ∷ []) used-Holds
      (omega arith)

abbrev message : List Field
message = int32 70000 ∷ int8 7 ∷ int16 513 ∷ []

read_fields-write_fields_example :
    (c d : Buffer) × (write_fields big_endian message fresh ≡ ok c)
    × (read_fields big_endian (map kind message) c ≡ ok (70000 ∷ 7 ∷ 513 ∷ [], d))
    × Holds d []
read_fields-write_fields_example =
    read_fields-write_fields big_endian message (omega arith) fresh-Holds (omega arith)
