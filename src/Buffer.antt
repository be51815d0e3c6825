-- ===== src/Buffer.antt =====
-- Net/Buffer.h and Net/Buffer.cpp: a byte buffer with room before and behind its readable bytes.
-- A pointer into the vector is its index. The children prove what a client may know.
pub mod Space
pub mod Contents
pub mod Refine
pub mod Ints
mod Tests
use ioloop.Prelude.{
  ℕ, ◌+◌, ◌-◌, ◌^◌, ◌≤◌, List, [], ◌∷◌, ◌++◌, Result, ok, err, Fault, length_error, out_of_range,
  assert, ◌>>=◌, ◌>>◌, ltb, leb, if◌then◌else◌, ◌==◌, add64, sub64, take, drop, length, replicate,
  low32, extend64,
}

pub record Buffer : Type 0 where
  pub store : List ℕ
  pub reader : ℕ
  pub writer : ℕ

abbrev pub cheap_prepend : ℕ
cheap_prepend = 8

abbrev pub initial_size : ℕ
initial_size = 1024

-- `std::vector<char>::max_size()`
abbrev pub max_store : ℕ
max_store = 2 ^ 63 - 1

-- `std::vector<char>::resize`, which fills up with zeros.
pub resize : List ℕ → ℕ → Result (List ℕ)
resize xs n =
    if ltb max_store n
    then err length_error
    else ok (if leb n (length xs) then take n xs else xs ++ replicate (n - length xs) 0)

-- `std::copy` of `data` to index `i`.
abbrev pub blit : List ℕ → ℕ → List ℕ → List ℕ
blit xs i bytes = take i xs ++ (bytes ++ drop (i + length bytes) xs)

unfoldable pub create : ℕ → Result Buffer
unfolding resize
create size = do
  store ← resize [] (add64 cheap_prepend size)
  ok (record { store = store; reader = cheap_prepend; writer = cheap_prepend })

pub swap : Buffer × Buffer → Buffer × Buffer
swap (a, b) = (b, a)

abbrev pub readable_bytes : Buffer → ℕ
readable_bytes b = sub64 b.writer b.reader

abbrev pub writable_bytes : Buffer → ℕ
writable_bytes b = sub64 (length b.store) b.writer

abbrev pub prependable_bytes : Buffer → ℕ
prependable_bytes b = b.reader

-- The bytes from `peek()` on.
abbrev pub peek : Buffer → List ℕ
peek b = drop b.reader b.store

pub retrieve_all : Buffer → Buffer
retrieve_all b = record b { reader = cheap_prepend; writer = cheap_prepend }

unfoldable pub retrieve : ℕ → Buffer → Result Buffer
unfolding retrieve_all
retrieve len b = do
  assert (leb len (readable_bytes b))
  ok (
      if ltb len (readable_bytes b)
      then record b { reader = add64 b.reader len }
      else retrieve_all b)

pub retrieve_until : ℕ → Buffer → Result Buffer
retrieve_until end b = do
  assert (leb b.reader end)
  assert (leb end b.writer)
  retrieve (sub64 end b.reader) b

pub retrieve_as_string : ℕ → Buffer → Result (List ℕ × Buffer)
retrieve_as_string len b = do
  assert (leb len (readable_bytes b))
  let result = take len (peek b)
  b' ← retrieve len b
  ok (result, b')

pub retrieve_all_as_string : Buffer → Result (List ℕ × Buffer)
retrieve_all_as_string b = retrieve_as_string (readable_bytes b) b

pub make_space : ℕ → Buffer → Result Buffer
unfolding resize
make_space len b =
    if ltb (add64 (writable_bytes b) (prependable_bytes b)) (add64 len cheap_prepend)
    then (do store ← resize b.store (add64 b.writer len); ok (record b { store = store }))
    else (do
      assert (ltb cheap_prepend b.reader)
      let readable = readable_bytes b
      ok (record {
        store = blit b.store cheap_prepend (take readable (peek b));
        reader = cheap_prepend;
        writer = add64 cheap_prepend readable;
      }))

unfoldable pub ensure_writable_bytes : ℕ → Buffer → Result Buffer
ensure_writable_bytes len b = do
  b' ← if ltb (writable_bytes b) len then make_space len b else ok b
  assert (leb len (writable_bytes b'))
  ok b'

unfoldable pub has_written : ℕ → Buffer → Result Buffer
has_written len b = do
  assert (leb len (writable_bytes b))
  ok (record b { writer = add64 b.writer len })

pub unwrite : ℕ → Buffer → Result Buffer
unwrite len b = do
  assert (leb len (readable_bytes b))
  ok (record b { writer = sub64 b.writer len })

-- `append(data, len)`, where `data` lists the bytes that stand behind the pointer.
unfoldable pub append : List ℕ → ℕ → Buffer → Result Buffer
append bytes len b = do
  b' ← ensure_writable_bytes len b
  if leb len (length bytes)
      then has_written len (record b' { store = blit b'.store b'.writer (take len bytes) })
      else err out_of_range

pub prepend : List ℕ → ℕ → Buffer → Result Buffer
prepend bytes len b = do
  assert (leb len (prependable_bytes b))
  let start = sub64 b.reader len
  if leb len (length bytes)
      then ok (record b { store = blit b.store start (take len bytes); reader = start })
      else err out_of_range

-- `toStringPiece` holds its length as an `int`.
pub to_string_piece : Buffer → List ℕ × ℕ
to_string_piece b = (peek b, low32 (readable_bytes b))

pub shrink : ℕ → Buffer → Result Buffer
unfolding swap
shrink reserve b = do
  other ← create initial_size
  other' ← ensure_writable_bytes (add64 (readable_bytes b) reserve) other
  let (bytes, len) = to_string_piece b
  other'' ← append bytes (extend64 len) other'
  ok (swap (b, other'')).0
