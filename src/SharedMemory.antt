-- ===== src/SharedMemory.antt =====
-- Memory/SharedMemory.cpp: blocks of shared memory, each a mapping with its size in front. What
-- `mmap` answers is an argument; `pages` rounds a length up to whole pages.
use ioloop.Prelude.{
  ℕ, ◌+◌, ◌-◌, ◌*◌, ◌%◌, ◌^◌, ◌≤◌, ◌<◌, List, [], ◌∷◌, ◌++◌, Option, none, some, Result, ok, err,
  out_of_range, ◌>>=◌, Bool, true, false, ◌||◌, ltb, ◌==◌, if◌then◌else◌, length, take, drop,
  replicate,
}
pub mod Realloc

-- `sizeof(SharedMemory)`
abbrev pub header_size : ℕ
header_size = 8

-- A mapping: its address, the `size_` in its header, and the bytes behind the header.
pub record Block : Type 0 where
  pub base : ℕ
  pub size : ℕ
  pub bytes : List ℕ

abbrev pub Memory : Type 0
Memory = List Block

abbrev pub find_block : ℕ → Memory → Option Block
find_block base [] = none
find_block base (b ∷ bs) = if b.base == base then some b else find_block base bs

abbrev pub put_block : Block → Memory → Memory
put_block b [] = []
put_block b (c ∷ cs) = let rest = put_block b cs in if c.base == b.base then b ∷ cs else c ∷ rest

-- `munmap`
abbrev pub remove_block : ℕ → Memory → Memory
remove_block base [] = []
remove_block base (b ∷ bs) =
    let rest = remove_block base bs in if b.base == base then bs else b ∷ rest

-- `fetch_object`
abbrev pub object_of : ℕ → ℕ
object_of ptr = ptr - header_size

abbrev pub block_at : Option Block → Result Block
block_at none = err out_of_range
block_at (some b) = ok b

-- `memcpy` of the first `n` bytes of one block to another.
abbrev pub copy : ℕ → List ℕ → List ℕ → Result (List ℕ)
copy n source target =
    if ltb (length source) n || ltb (length target) n
    then err out_of_range
    else ok (take n source ++ drop n target)

module _ (pages : ℕ → ℕ) where
  -- A new block of so many bytes with its header; `size_t` wraps around.
  abbrev pub new_block : ℕ → ℕ → Block
  new_block base size =
      let whole = (size + header_size) % 2 ^ 64 in
      record { base = base; size = whole; bytes = replicate (pages whole - header_size) 0 }

  -- `alloc`, and the pointer behind the header.
  unfoldable pub alloc : ℕ → Option ℕ → Memory → Option ℕ × Memory
  alloc size none m = (none, m)
  alloc size (some base) m = (some (base + header_size), new_block base size ∷ m)

  unfoldable pub shm_malloc : ℕ → Option ℕ → Memory → Option ℕ × Memory
  shm_malloc size answer m = alloc size answer m

  unfoldable pub shm_calloc : ℕ → ℕ → Option ℕ → Memory → Option ℕ × Memory
  shm_calloc num size answer m = alloc ((num * size) % 2 ^ 64) answer m

  -- `free`, where `munmap` succeeds.
  unfoldable pub free : ℕ → Memory → Result Memory
  free ptr m = do b ← block_at (find_block (object_of ptr) m); ok (remove_block b.base m)

  abbrev realloc_to : Option ℕ → Block → ℕ → Memory → Result (Option ℕ × Memory)
  realloc_to none old ptr m = ok (none, m)
  realloc_to (some new_ptr) old ptr m = do
    new ← block_at (find_block (object_of new_ptr) m)
    bytes ← copy old.size old.bytes new.bytes
    m' ← free ptr (put_block (record new { bytes = bytes }) m)
    ok (some new_ptr, m')

  unfoldable pub realloc : ℕ → ℕ → Option ℕ → Memory → Result (Option ℕ × Memory)
  unfolding shm_malloc alloc free
  realloc ptr new_size answer m = do
    old ← block_at (find_block (object_of ptr) m)
    let (new_ptr, m') = shm_malloc new_size answer m
    realloc_to new_ptr old ptr m'

  -- `ShmProtect`: how many bytes are protected, from the header on.
  unfoldable pub shm_protect : ℕ → Memory → Result ℕ
  shm_protect addr m = do b ← block_at (find_block (object_of addr) m); ok b.size

  unfoldable pub shm_map_free : ℕ → Memory → Result Memory
  shm_map_free ptr m = free ptr m
