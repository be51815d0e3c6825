-- ===== src/Buffer/Space.antt =====
-- Net/Buffer.cpp: the index invariant, and how `ensureWritableBytes` finds room.
use ioloop.Prelude.{
  ◌^◌, min, dec_lt, ℕ, ◌+◌, ◌-◌, ◌≤◌, ◌<◌, ◌≡◌, refl, List, ◌++◌, ok, arith, take, drop, length,
  length-append, length-take, length-drop, length-replicate, replicate, take-append_le,
  drop-append_le, take-append_exact, drop-append_exact,
}
use ioloop.Buffer.{
  Buffer, max_store, cheap_prepend, cheap_prepend, resize, make_space, ensure_writable_bytes, blit,
}

-- The indices stand in order within the vector.
pub record IsValid (b : Buffer) : Type 0 where
  pub ordered : b.reader ≤ b.writer
  pub inside : b.writer ≤ length b.store
  pub fits : length b.store ≤ max_store
  pub headroom : cheap_prepend ≤ length b.store

-- The bytes between the two indices.
abbrev pub contents : Buffer → List ℕ
contents b = take (b.writer - b.reader) (drop b.reader b.store)

pub length-contents : (b : Buffer) → IsValid b → length (contents b) ≡ b.writer - b.reader
length-contents b v =
    omega (
      arith,
      length-take (b.writer - b.reader) (drop b.reader b.store),
      length-drop b.reader b.store,
    )

pub length-blit :
    (xs : List ℕ) (i : ℕ) (ys : List ℕ)
    → i + length ys ≤ length xs
    → length (blit xs i ys) ≡ length xs
length-blit xs i ys h = omega (
  arith,
  length-append (take i xs) (ys ++ drop (i + length ys) xs),
  length-append ys (drop (i + length ys) xs),
  length-take i xs,
  length-drop (i + length ys) xs,
)

-- Growing keeps what stands between the indices.
contents-grow :
    (xs : List ℕ) (r w k : ℕ)
    → r ≤ w
    → w ≤ length xs
    → take (w - r) (drop r (xs ++ replicate k 0)) ≡ take (w - r) (drop r xs)
contents-grow xs r w k h i =
    rw (drop-append_le r xs (replicate k 0) (omega arith))
      (take-append_le (w - r) (drop r xs) (replicate k 0) (omega (arith, length-drop r xs)))

-- So does moving it to the front.
contents-blit :
    (xs : List ℕ) (i n : ℕ) (ys : List ℕ)
    → i ≤ length xs
    → n ≡ length ys
    → take n (drop i (blit xs i ys)) ≡ ys
contents-blit xs i n ys h e =
    rw
      (drop-append_exact i (take i xs) (ys ++ drop (i + length ys) xs)
        (omega (arith, length-take i xs)))
      (take-append_exact n ys _ e)

-- What `ensureWritableBytes(len)` returns: the same bytes, with room for `len` more.
pub record HasRoom (b : Buffer) (len : ℕ) (b' : Buffer) : Type 0 where
  pub valid : IsValid b'
  pub same : contents b' ≡ contents b
  pub room : b'.writer + len ≤ length b'.store
  pub low : b'.writer ≤ b.writer
  pub grown : length b.store ≤ length b'.store
  pub front : min b.reader 8 ≤ b'.reader

length-grow : (xs : List ℕ) (n : ℕ) → length xs ≤ n → length (xs ++ replicate (n - length xs) 0) ≡ n
length-grow xs n h = omega (
  arith,
  length-append xs (replicate (n - length xs) 0),
  length-replicate {A = ℕ} (n - length xs) 0,
)

make_space-grows :
    (b : Buffer) (len : ℕ)
    → IsValid b
    → b.writer + len ≤ max_store
    → length b.store < b.writer + len
    → length b.store - b.writer + b.reader < len + 8
    → (b' : Buffer) × (make_space len b ≡ ok b') × HasRoom b len b'
unfolding make_space resize
make_space-grows b len v h i j = (
  record b { store = b.store ++ replicate (b.writer + len - length b.store) 0 },
  ground arith,
  record {
    valid = ground (arith, length-grow b.store (b.writer + len));
    same = contents-grow b.store b.reader b.writer _ v.ordered v.inside;
    room = omega (arith, length-grow b.store (b.writer + len));
    low = omega arith;
    grown = omega (arith, length-grow b.store (b.writer + len));
    front = omega arith;
  },
)

make_space-moves :
    (b : Buffer) (len : ℕ)
    → IsValid b
    → b.writer + len ≤ max_store
    → length b.store < b.writer + len
    → len + 8 ≤ length b.store - b.writer + b.reader
    → (b' : Buffer) × (make_space len b ≡ ok b') × HasRoom b len b'
unfolding make_space
make_space-moves b len v h i j = (
  record { store = blit b.store 8 (contents b); reader = 8; writer = 8 + (b.writer - b.reader) },
  ground arith,
  record {
    valid = ground (arith, size, length-contents b v);
    same =
        contents-blit b.store 8 (8 + (b.writer - b.reader) - 8) (contents b) (omega (arith, v))
          (omega (arith, length-contents b v));
    room = omega (arith, size);
    low = omega (arith, v);
    grown = omega (arith, size);
    front = omega arith;
  },
)
  where
    size : length (blit b.store 8 (contents b)) ≡ length b.store
    size = length-blit b.store 8 (contents b) (omega (arith, length-contents b v))

-- `ensureWritableBytes(len)` succeeds whenever the vector could grow that far, whichever way it
-- finds the room.
pub ensure_writable_bytes-HasRoom :
    (b : Buffer) (len : ℕ)
    → IsValid b
    → b.writer + len ≤ max_store
    → (b' : Buffer) × (ensure_writable_bytes len b ≡ ok b') × HasRoom b len b'
unfolding ensure_writable_bytes
ensure_writable_bytes-HasRoom b len v h = elim (dec_lt (length b.store) (b.writer + len)) [
  | no p ↦ (
    b,
    ground arith,
    record {
      valid = v;
      same = refl;
      room = omega arith;
      low = omega arith;
      grown = omega arith;
      front = omega arith;
    },
  )
  | yes p ↦ elim (dec_lt (length b.store - b.writer + b.reader) (len + 8)) [
    | yes q ↦ let (b', e, r) = make_space-grows b len v h p q in (b', ground (arith, r), r)
    | no q ↦
        let (b', e, r) = make_space-moves b len v h p (omega arith) in (b', ground (arith, r), r)
  ]
]

-- A `len` just below `2 ^ 64`: `makeSpace` computes a size that lies below the end of the data, the
-- vector loses its last bytes, and both tests of `ensureWritableBytes` wrap around and pass.
pub ensure_writable_bytes_shrinks :
    (b : Buffer) (k : ℕ)
    → IsValid b
    → 8 < k
    → k ≤ b.writer
    → k < 2 ^ 31
    → ensure_writable_bytes (2 ^ 64 - k) b ≡ ok (record b { store = take (b.writer - k) b.store })
unfolding ensure_writable_bytes make_space resize
ensure_writable_bytes_shrinks b k v eight fit small =
    ground (arith, v.ordered, v.inside, v.fits, length-take (b.writer - k) b.store)
