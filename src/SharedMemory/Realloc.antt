-- ===== src/SharedMemory/Realloc.antt =====
-- Memory/SharedMemory.cpp: what `Realloc` copies, and what `free` gives back.
use ioloop.Prelude.{
  ℕ, ◌+◌, ◌-◌, ◌%◌, ◌^◌, ◌≤◌, ◌<◌, ◌≡◌, ◌≢◌, refl, ◌∷◌, ◌++◌, some, ok, err, out_of_range, length,
  take, drop, length-replicate, arith,
}
use ioloop.SharedMemory.{
  header_size, Block, Memory, find_block, remove_block, object_of, new_block, alloc, shm_malloc,
  free, realloc,
}

module _ (pages : ℕ → ℕ) where
  -- A block that was allocated is given back by `free`, and the memory is as it was.
  pub free-alloc :
      (size base : ℕ) (m : Memory)
      → (ptr : ℕ) × (m' : Memory) × (alloc pages size (some base) m ≡ (some ptr, m'))
        × (free pages ptr m' ≡ ok m)
  unfolding alloc free
  free-alloc size base m = (base + header_size, new_block pages base size ∷ m, refl, ground arith)

  -- `Realloc` copies as many bytes as the old block has with its header, from behind the header: it
  -- writes behind the end of the new mapping as soon as that has fewer bytes than the old block with
  -- two headers, as when a block becomes smaller by a page.
  pub realloc_shrinks :
      (ptr size base : ℕ) (old : Block) (m : Memory)
      → find_block (object_of ptr) m ≡ some old
      → 0 < old.size
      → pages ((size + header_size) % 2 ^ 64) < old.size + header_size
      → realloc pages ptr size (some base) m ≡ err out_of_range
  unfolding realloc shm_malloc alloc
  realloc_shrinks ptr size base old m f p h =
      let n : ℕ = pages ((size + header_size) % 2 ^ 64) in
      ground (arith, f, p, h, length-replicate {A = ℕ} (n - header_size) 0)

  -- Where both mappings have room for that many bytes, the new block starts with the bytes of the
  -- old one, and the old block is given back.
  pub realloc_keeps :
      (ptr size base : ℕ) (old : Block) (m : Memory)
      → find_block (object_of ptr) m ≡ some old
      → base ≢ old.base
      → old.base ≡ object_of ptr
      → old.size ≤ length old.bytes
      → old.size + header_size ≤ pages ((size + header_size) % 2 ^ 64)
      → let new = new_block pages base size in
        realloc pages ptr size (some base) m
        ≡ ok (
          some (base + header_size),
          record new { bytes = take old.size old.bytes ++ drop old.size new.bytes }
              ∷ remove_block old.base m,
        )
  unfolding realloc shm_malloc alloc free
  realloc_keeps ptr size base old m f other at room fits =
      let n : ℕ = pages ((size + header_size) % 2 ^ 64) in
      ground (arith, f, other, at, room, fits, length-replicate {A = ℕ} (n - header_size) 0)
