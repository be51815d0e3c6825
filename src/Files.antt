-- ===== src/Files.antt =====
-- File/File.h and File/File.cpp: reading and writing a whole buffer. A file is its bytes; what the
-- kernel answers to each system call is an argument.
pub mod Transfer
pub mod Descriptor
mod Tests
use ioloop.Prelude.{
  ℕ, ◌+◌, ◌-◌, min, List, [], ◌∷◌, ◌++◌, Result, ok, err, out_of_fuel, Bool, true, false, ltb, ◌==◌,
  if◌then◌else◌, length, take, drop, replicate,
}

-- A call is answered with up to so many bytes, or fails with EINTR, with EAGAIN or EWOULDBLOCK, or
-- with another error, which is logged.
pub data Answer : Type 0 where
  transfer : ℕ → Answer
  interrupted would_block failed : Answer

-- `pwrite` of these bytes at an offset; a gap is filled with zeros.
abbrev pub put_at : ℕ → List ℕ → List ℕ → List ℕ
put_at offset bytes file =
    (take offset file ++ replicate (offset - length file) 0)
    ++ (bytes ++ drop (offset + length bytes) file)

-- `write` of a file that is open with APPEND goes to its end.
abbrev pub put : Bool → ℕ → List ℕ → List ℕ → List ℕ
put appends offset bytes file = if appends then file ++ bytes else put_at offset bytes file

-- The rest of `writeAll`, when `write_bytes` bytes of `buf` are written.
pub write_all_from : Bool → List ℕ → ℕ → List Answer → List ℕ → Result (ℕ × List ℕ)
write_all_from appends buf write_bytes [] file =
    if ltb write_bytes (length buf) then err out_of_fuel else ok (write_bytes, file)
write_all_from appends buf write_bytes (a ∷ answers) file = elim (ltb write_bytes (length buf)) [
  | false ↦ ok (write_bytes, file)
  | true ↦ elim a [
    | transfer k ↦
        let n = min k (length buf - write_bytes) in
        elim (n == 0) [
          | true ↦ ok (write_bytes, file)
          | false ↦
              write_all_from appends buf (write_bytes + n) answers
                (put appends write_bytes (take n (drop write_bytes buf)) file)
        ]
    | interrupted ↦ write_all_from appends buf write_bytes answers file
    | would_block ↦ ok (write_bytes, file)
    | failed ↦ ok (write_bytes, file)
  ]
]

-- The number of bytes written, and the file.
pub write_all : Bool → List ℕ → List Answer → List ℕ → Result (ℕ × List ℕ)
unfolding write_all_from
write_all appends buf answers file = write_all_from appends buf 0 answers file

-- The rest of `readAll`, when these bytes are read.
pub read_all_from : ℕ → List ℕ → List Answer → List ℕ → Result (List ℕ)
read_all_from count bytes [] file = if ltb (length bytes) count then err out_of_fuel else ok bytes
read_all_from count bytes (a ∷ answers) file = elim (ltb (length bytes) count) [
  | false ↦ ok bytes
  | true ↦ elim a [
    | transfer k ↦
        let n = min k (min (count - length bytes) (length file - length bytes)) in
        elim (n == 0) [
          | true ↦ ok bytes
          | false ↦ read_all_from count (bytes ++ take n (drop (length bytes) file)) answers file
        ]
    | interrupted ↦ read_all_from count bytes answers file
    | would_block ↦ ok bytes
    | failed ↦ ok bytes
  ]
]

pub read_all : ℕ → List Answer → List ℕ → Result (List ℕ)
unfolding read_all_from
read_all count answers file = read_all_from count [] answers file
