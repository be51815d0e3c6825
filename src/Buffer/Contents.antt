-- ===== src/Buffer/Contents.antt =====
-- Net/Buffer.cpp: each operation seen as an operation on the readable bytes.
use ioloop.Prelude.{
  take-append-drop, min, max, ℕ, ◌+◌, ◌-◌, ◌≤◌, ◌<◌, ◌≡◌, refl, sym, ap, ◌∙◌, List, [], ◌++◌, ok,
  err, assertion, arith, dec_lt, take, drop, length, length-take, length-drop, length-replicate,
  replicate, take_all, take-take, take-append_exact, drop-append_exact, take-append_add,
  drop-append_le, drop-take, drop-drop, drop_all, drop_all,
}
use ioloop.Buffer.{
  retrieve_all_as_string, readable_bytes, ensure_writable_bytes, Buffer, peek, max_store, create,
  retrieve, retrieve_all, retrieve_as_string, has_written, append, prepend, resize, blit,
}
use ioloop.Buffer.Space.{
  IsValid, contents, length-contents, length-blit, ensure_writable_bytes-HasRoom,
}

-- A well-formed buffer with these readable bytes.
pub record Holds (b : Buffer) (xs : List ℕ) : Type 0 where
  pub valid : IsValid b
  pub bytes : contents b ≡ xs

-- How far an operation that writes `n` bytes moves the end of the data and of the vector.
pub record Extends (b : Buffer) (n : ℕ) (b' : Buffer) : Type 0 where
  pub reach : b'.writer ≤ b.writer + n
  pub grown : length b.store ≤ length b'.store
  pub front : min b.reader 8 ≤ b'.reader

pub Holds-length : {b : Buffer} {xs : List ℕ} → Holds b xs → b.writer - b.reader ≡ length xs
Holds-length {b} h = sym (length-contents b h.valid) ∙ ap length h.bytes

contents-blit_end :
    (xs : List ℕ) (r w n : ℕ) (ys : List ℕ)
    → r ≤ w
    → w + length ys ≤ length xs
    → n ≡ length ys
    → take (w + n - r) (drop r (blit xs w ys)) ≡ take (w - r) (drop r xs) ++ ys
contents-blit_end xs r w n ys h i e =
    rw
      (
        drop-append_le r (take w xs) (ys ++ drop (w + length ys) xs)
            (omega (arith, length-take w xs)),
        drop-take r w xs,
        take-append_add (w + n - r) n (take (w - r) (drop r xs)) (ys ++ drop (w + length ys) xs)
            (omega (arith, length-take (w - r) (drop r xs), length-drop r xs)),
      )
      (ap (λ l. take (w - r) (drop r xs) ++ l) (take-append_exact n ys _ e))

contents-blit_front :
    (xs : List ℕ) (s r w : ℕ) (ys : List ℕ)
    → r ≤ w
    → r ≤ length xs
    → s + length ys ≡ r
    → take (w - s) (drop s (blit xs s ys)) ≡ ys ++ take (w - r) (drop r xs)
contents-blit_front xs s r w ys h i e =
    rw
      (
        drop-append_exact s (take s xs) (ys ++ drop (s + length ys) xs)
            (omega (arith, length-take s xs)),
        take-append_add (w - s) (w - r) ys (drop (s + length ys) xs) (omega arith),
        e,
      )
      refl

-- `Buffer(initialSize)` is empty.
pub create-Holds :
    (n : ℕ) → n + 8 ≤ max_store → (b : Buffer) × (create n ≡ ok b) × Holds b [] × (b.writer ≡ 8)
unfolding create resize
create-Holds n h = (
  record { store = replicate (8 + n) 0; reader = 8; writer = 8 },
  ground arith,
  record { valid = omega (arith, length-replicate {A = ℕ} (8 + n) 0); bytes = refl },
  refl,
)

-- Behind `peek()` stand the readable bytes, and then what the vector holds further on.
pub peek-split : {b : Buffer} {xs : List ℕ} → Holds b xs → peek b ≡ xs ++ drop (length xs) (peek b)
peek-split {b} {xs} h =
    sym (take-append-drop (length xs) (peek b))
    ∙ ap (λ l. l ++ drop (length xs) (peek b))
        (ap (λ k. take k (peek b)) (sym (Holds-length h)) ∙ h.bytes)

-- Only the first `len` bytes behind the pointer matter.
pub append-take :
    (ys : List ℕ) (n : ℕ) (b : Buffer) → n ≤ length ys → append ys n b ≡ append (take n ys) n b
unfolding append
append-take ys n b h = ground (arith, length-take n ys, take-take n n ys)

-- `append` puts the bytes behind those that are there, and fails only when the vector cannot grow.
pub append-Holds :
    {b : Buffer} {xs : List ℕ} (ys : List ℕ)
    → Holds b xs
    → b.writer + length ys ≤ max_store
    → (b' : Buffer) × (append ys (length ys) b ≡ ok b')
      × Holds b' (xs ++ ys)
      × Extends b (length ys) b'
unfolding append has_written
append-Holds {b} {xs} ys h fit =
    let (c, e, r) = ensure_writable_bytes-HasRoom b (length ys) h.valid fit in
    let size = length-blit c.store c.writer ys r.room in
    let whole = take_all (length ys) ys (omega arith) in
    (
      record c { store = blit c.store c.writer ys; writer = c.writer + length ys },
      ground (arith, r, whole, size),
      record {
        valid = ground (arith, size, r);
        bytes =
            contents-blit_end c.store c.reader c.writer (length ys) ys r.valid.ordered r.room refl
            ∙ ap (λ l. l ++ ys) (r.same ∙ h.bytes);
      },
      ground (arith, size, r),
    )

-- `prepend` puts the bytes in front, as long as the room in front suffices.
pub prepend-Holds :
    {b : Buffer} {xs : List ℕ} (ys : List ℕ)
    → Holds b xs
    → length ys ≤ b.reader
    → (b' : Buffer) × (prepend ys (length ys) b ≡ ok b') × Holds b' (ys ++ xs)
unfolding prepend
prepend-Holds {b} {xs} ys h fit =
    let start = b.reader - length ys in
    let size = length-blit b.store start ys (omega (arith, h.valid)) in
    let whole = take_all (length ys) ys (omega arith) in
    (
      record b { store = blit b.store start ys; reader = start },
      ground (arith, h.valid, whole),
      record {
        valid = ground (arith, size, h.valid);
        bytes =
            contents-blit_front b.store start b.reader b.writer ys h.valid.ordered
              (omega (arith, h.valid)) (omega arith)
            ∙ ap (λ l. ys ++ l) h.bytes;
      },
    )

contents-retrieve :
    (xs : List ℕ) (r w n : ℕ)
    → take (w - (r + n)) (drop (r + n) xs) ≡ drop n (take (w - r) (drop r xs))
contents-retrieve xs r w n =
    rw (drop-take n (w - r) (drop r xs), drop-drop n r xs)
      (ap (λ k. take k (drop (r + n) xs)) (omega arith))

-- `retrieve(len)` drops the first `len` readable bytes.
pub retrieve-Holds :
    {b : Buffer} {xs : List ℕ} (n : ℕ)
    → Holds b xs
    → n ≤ length xs
    → (b' : Buffer) × (retrieve n b ≡ ok b') × Holds b' (drop n xs) × (b'.writer ≤ max b.writer 8)
unfolding retrieve retrieve_all
retrieve-Holds {b} {xs} n h fit = elim (dec_lt n (b.writer - b.reader)) [
  | yes p ↦ (
    record b { reader = b.reader + n },
    ground (arith, Holds-length h, h.valid),
    record {
      valid = omega (arith, h.valid);
      bytes = contents-retrieve b.store b.reader b.writer n ∙ ap (drop n) h.bytes;
    },
    omega arith,
  )
  | no p ↦ (
    record b { reader = 8; writer = 8 },
    ground (arith, Holds-length h, h.valid),
    record {
      valid = omega (arith, h.valid);
      bytes = sym (drop_all n xs (omega (arith, Holds-length h)));
    },
    omega arith,
  )
]

-- Asking for more than there is fails the assertion.
pub retrieve_too_much :
    {b : Buffer} {xs : List ℕ} (n : ℕ) → Holds b xs → length xs < n → retrieve n b ≡ err assertion
unfolding retrieve
retrieve_too_much n h over = ground (arith, Holds-length h, h.valid)

-- The bytes from `peek()` on begin with the readable ones.
pub peek-take :
    {b : Buffer} {xs : List ℕ} (n : ℕ) → Holds b xs → n ≤ length xs → take n (peek b) ≡ take n xs
peek-take {b} n h fit =
    sym (take-take n (b.writer - b.reader) (peek b) (omega (arith, Holds-length h)))
    ∙ ap (take n) h.bytes

-- `retrieveAsString(len)` takes the first `len` readable bytes away and returns them.
pub retrieve_as_string-Holds :
    {b : Buffer} {xs : List ℕ} (n : ℕ)
    → Holds b xs
    → n ≤ length xs
    → (b' : Buffer) × (retrieve_as_string n b ≡ ok (take n xs, b')) × Holds b' (drop n xs)
unfolding retrieve_as_string
retrieve_as_string-Holds {b} {xs} n h fit =
    let (b', e, r, _) = retrieve-Holds n h fit in
    (b', ground (arith, Holds-length h, h.valid, peek-take n h fit), r)

-- `append` is what writing behind `ensureWritableBytes` and calling `hasWritten` comes to.
pub append_in_place :
    (ys : List ℕ) (b c : Buffer)
    → ensure_writable_bytes (length ys) b ≡ ok c
    → append ys (length ys) b
      ≡ has_written (length ys) (record c { store = blit c.store c.writer ys })
unfolding append
append_in_place ys b c e = ground (arith, take_all (length ys) ys)

-- Bytes written to `beginWrite()`, within the vector, become readable by `hasWritten`.
pub has_written-Holds :
    {b : Buffer} {xs : List ℕ} (ys : List ℕ)
    → Holds b xs
    → b.writer + length ys ≤ length b.store
    → (c : Buffer) × (has_written (length ys) (record b { store = blit b.store b.writer ys })
        ≡ ok c)
      × Holds c (xs ++ ys)
      × (c.writer ≡ b.writer + length ys)
      × (length c.store ≡ length b.store)
      × (c.reader ≡ b.reader)
unfolding has_written
has_written-Holds {b} {xs} ys h room =
    let size = length-blit b.store b.writer ys room in
    (
      record b { store = blit b.store b.writer ys; writer = b.writer + length ys },
      ground (arith, h.valid, size),
      record {
        valid = ground (arith, size, h.valid);
        bytes =
            contents-blit_end b.store b.reader b.writer (length ys) ys h.valid.ordered room refl
            ∙ ap (λ l. l ++ ys) h.bytes;
      },
      refl,
      size,
      refl,
    )

pub retrieve_all_as_string-Holds :
    {b : Buffer} {xs : List ℕ}
    → Holds b xs
    → (b' : Buffer) × (retrieve_all_as_string b ≡ ok (xs, b'))
unfolding retrieve_all_as_string
retrieve_all_as_string-Holds {b} {xs} h =
    let size : readable_bytes b ≡ length xs = omega (arith, Holds-length h, h.valid) in
    let (b', e, _) = retrieve_as_string-Holds (length xs) h (omega arith) in
    (
      b',
      ap (λ n. retrieve_as_string n b) size
          ∙ e
          ∙ ap (λ l. ok (l, b')) (take_all (length xs) xs (omega arith)),
    )
