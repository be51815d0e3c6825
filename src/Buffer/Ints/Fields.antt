-- ===== src/Buffer/Ints/Fields.antt =====
-- Net/Buffer.cpp: integers of any widths come back as they were written.
use ioloop.Prelude.{
  subst, take, ℕ, ◌+◌, ◌^◌, ◌≤◌, ◌<◌, ◌≡◌, refl, sym, ◌∙◌, List, [], ◌∷◌, ◌++◌, append-nil,
  append_assoc, Result, ok, ◌>>=◌, arith, length, length-append, map, take-append_exact,
  drop-append_exact,
}
use ioloop.Buffer.{append, prepend, Buffer, max_store}
use ioloop.Buffer.Contents.{
  Holds, Holds-length, append-Holds, retrieve-Holds, peek-take, Extends, prepend-Holds,
}
use ioloop.Buffer.Ints.{
  ByteOrder, append_int8, append_int16, append_int32, prepend_int32, peek_int32, peek_int16,
  read_int8, read_int16, read_int32,
}

-- A field of a message, and its width alone.
pub data Field : Type 0 where
  int8 int16 int32 : ℕ → Field

pub data Kind : Type 0 where
  byte short long : Kind

abbrev pub kind : Field → Kind
kind (int8 x) = byte
kind (int16 x) = short
kind (int32 x) = long

abbrev pub value : Field → ℕ
value (int8 x) = x
value (int16 x) = x
value (int32 x) = x

abbrev pub Fits : Field → Type 0
Fits (int8 x) = x < 2 ^ 8
Fits (int16 x) = x < 2 ^ 16
Fits (int32 x) = x < 2 ^ 32

abbrev pub AllFit : List Field → Type 0
AllFit [] = Unit {0}
AllFit (f ∷ fs) = Fits f × AllFit fs

module _ (net : ByteOrder) where
  abbrev pub encode : Field → List ℕ
  encode (int8 x) = x ∷ []
  encode (int16 x) = net.bytes16 x
  encode (int32 x) = net.bytes32 x

  abbrev pub encode_all : List Field → List ℕ
  encode_all [] = []
  encode_all (f ∷ fs) = encode f ++ encode_all fs

  pub write_field : Field → Buffer → Result Buffer
  write_field (int8 x) b = append_int8 x b
  write_field (int16 x) b = append_int16 net x b
  write_field (int32 x) b = append_int32 net x b

  pub write_fields : List Field → Buffer → Result Buffer
  write_fields [] b = ok b
  write_fields (f ∷ fs) b = write_field f b >>= write_fields fs

  pub read_field : Kind → Buffer → Result (ℕ × Buffer)
  read_field byte b = read_int8 b
  read_field short b = read_int16 net b
  read_field long b = read_int32 net b

  pub read_fields : List Kind → Buffer → Result (List ℕ × Buffer)
  read_fields [] b = ok ([], b)
  read_fields (k ∷ ks) b = do
    (x, b') ← read_field k b
    (xs, b'') ← read_fields ks b'
    ok (x ∷ xs, b'')

  pub write_field-Holds :
      {b : Buffer} {xs : List ℕ} (f : Field)
      → Holds b xs
      → b.writer + length (encode f) ≤ max_store
      → (b' : Buffer) × (write_field f b ≡ ok b')
        × Holds b' (xs ++ encode f)
        × Extends b (length (encode f)) b'
  unfolding write_field append_int8 append_int16 append_int32
  write_field-Holds (int8 x) h fit = append-Holds (x ∷ []) h fit
  write_field-Holds (int16 x) h fit =
      let (b', e, r, x') = append-Holds (net.bytes16 x) h fit in
      (b', (rw net.length_bytes16 at e), r, x')
  write_field-Holds (int32 x) h fit =
      let (b', e, r, x') = append-Holds (net.bytes32 x) h fit in
      (b', (rw net.length_bytes32 at e), r, x')

  pub write_fields-Holds :
      (fs : List Field) {b : Buffer} {xs : List ℕ}
      → Holds b xs
      → b.writer + length (encode_all fs) ≤ max_store
      → (b' : Buffer) × (write_fields fs b ≡ ok b') × Holds b' (xs ++ encode_all fs)
  unfolding write_fields
  write_fields-Holds [] {b} {xs} h fit = (b, refl, rw append-nil h)
  write_fields-Holds (f ∷ fs) {b} {xs} h fit =
      let size = length-append (encode f) (encode_all fs) in
      let (c, e, r, x) = write_field-Holds f h (omega (arith, size)) in
      let (d, e', r') = write_fields-Holds fs r (omega (arith, size, x)) in
      (d, rw (e, ◌>>=◌) e', rw append_assoc at r')

  -- What one step of a reader needs: the value at the front is the field's.
  read_field-Holds :
      {b : Buffer} (f : Field) (rest : List ℕ)
      → Fits f
      → Holds b (encode f ++ rest)
      → (b' : Buffer) × (read_field (kind f) b ≡ ok (value f, b')) × Holds b' rest
  unfolding read_field read_int8 read_int16 read_int32 peek_int16 peek_int32
  read_field-Holds {b} (int8 x) rest fits h =
      let (b', e, r, _) = retrieve-Holds 1 h (omega arith) in
      (b', ground (arith, Holds-length h, h.valid, peek-take 1 h (omega arith), e, x), r)
  read_field-Holds {b} (int16 x) rest fits h =
      let n = net.length_bytes16 x in
      let size = length-append (net.bytes16 x) rest in
      let (b', e, r, _) = retrieve-Holds 2 h (omega (arith, n, size)) in
      let front =
        peek-take 2 h (omega (arith, n, size)) ∙ take-append_exact 2 (net.bytes16 x) rest (sym n) in
      (
        b',
        ground (arith, Holds-length h, h.valid, front, e, n, size, net.host16_bytes16 x fits),
        rw (drop-append_exact 2 (net.bytes16 x) rest (sym n)) at r,
      )
  read_field-Holds {b} (int32 x) rest fits h =
      let n = net.length_bytes32 x in
      let size = length-append (net.bytes32 x) rest in
      let (b', e, r, _) = retrieve-Holds 4 h (omega (arith, n, size)) in
      let front =
        peek-take 4 h (omega (arith, n, size)) ∙ take-append_exact 4 (net.bytes32 x) rest (sym n) in
      (
        b',
        ground (arith, Holds-length h, h.valid, front, e, n, size, net.host32_bytes32 x fits),
        rw (drop-append_exact 4 (net.bytes32 x) rest (sym n)) at r,
      )

  -- Reading with the widths that were written gives the values back, and leaves what follows.
  pub read_fields-encode_all :
      (fs : List Field) (rest : List ℕ) {b : Buffer}
      → AllFit fs
      → Holds b (encode_all fs ++ rest)
      → (b' : Buffer) × (read_fields (map kind fs) b ≡ ok (map value fs, b')) × Holds b' rest
  unfolding read_fields
  read_fields-encode_all [] rest {b} fits h = (b, refl, h)
  read_fields-encode_all (f ∷ fs) rest {b} fits h =
      let (c, e, r) = read_field-Holds f (encode_all fs ++ rest) fits.0 (rw append_assoc at h) in
      let (d, e', r') = read_fields-encode_all fs rest fits.1 r in (d, ground (arith, e, e'), r')

  -- Fields of any widths that are written to an empty buffer are read back in order, and use it up.
  pub read_fields-write_fields :
      (fs : List Field) {b : Buffer}
      → AllFit fs
      → Holds b []
      → b.writer + length (encode_all fs) ≤ max_store
      → (c d : Buffer) × (write_fields fs b ≡ ok c)
        × (read_fields (map kind fs) c ≡ ok (map value fs, d))
        × Holds d []
  read_fields-write_fields fs fits h fit =
      let (c, e, r) = write_fields-Holds fs h fit in
      let (d, e', r') = read_fields-encode_all fs [] fits (rw append-nil r) in (c, d, e, e', r')

  -- `peekInt32` on a buffer whose bytes begin with an encoded integer returns it.
  pub peek_int32-Holds :
      {b : Buffer} (x : ℕ) (rest : List ℕ)
      → x < 2 ^ 32
      → Holds b (net.bytes32 x ++ rest)
      → peek_int32 net b ≡ ok x
  unfolding peek_int32
  peek_int32-Holds x rest fits h =
      let n = net.length_bytes32 x in
      let size = length-append (net.bytes32 x) rest in
      let front =
        peek-take 4 h (omega (arith, n, size)) ∙ take-append_exact 4 (net.bytes32 x) rest (sym n) in
      ground (arith, Holds-length h, h.valid, front, n, size, net.host32_bytes32 x fits)

  -- `prependInt32` puts a header in front of what is there, where `peekInt32` finds it.
  pub peek_int32-prepend_int32 :
      {b : Buffer} {xs : List ℕ} (x : ℕ)
      → x < 2 ^ 32
      → Holds b xs
      → 4 ≤ b.reader
      → (c : Buffer) × (prepend_int32 net x b ≡ ok c)
        × Holds c (net.bytes32 x ++ xs)
        × (peek_int32 net c ≡ ok x)
  unfolding prepend_int32
  peek_int32-prepend_int32 {b} {xs} x fits h room =
      let n = net.length_bytes32 x in
      let (c, e, r) = prepend-Holds (net.bytes32 x) h (omega (arith, n)) in
      (c, subst (λ k. prepend (net.bytes32 x) k b ≡ ok c) n e, r, peek_int32-Holds x xs fits r)

module _ (net : ByteOrder) where
  -- `peekInt32` reads the first four readable bytes.
  pub peek_int32-take :
      {b : Buffer} {xs : List ℕ}
      → Holds b xs
      → 4 ≤ length xs
      → peek_int32 net b ≡ ok (net.host32 (take 4 xs))
  unfolding peek_int32
  peek_int32-take {b} {xs} h four = ground (arith, Holds-length h, h.valid, peek-take 4 h four)

  pub append_int32-Holds :
      {b : Buffer} {xs : List ℕ} (x : ℕ)
      → Holds b xs
      → b.writer + 4 ≤ max_store
      → (c : Buffer) × (append_int32 net x b ≡ ok c) × Holds c (xs ++ net.bytes32 x) × Extends b 4 c
  unfolding append_int32
  append_int32-Holds {b} {xs} x h fit =
      subst
        (λ k.
          (c : Buffer) × (append (net.bytes32 x) k b ≡ ok c)
          × Holds c (xs ++ net.bytes32 x)
          × Extends b k c)
        (net.length_bytes32 x)
        (append-Holds (net.bytes32 x) h (omega (arith, net.length_bytes32 x)))
