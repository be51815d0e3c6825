-- ===== src/Connection/Inbound.antt =====
-- Net/TcpConnection.cpp: the read of a header and then of the body that it announces.
use ioloop.Prelude.{
  length-take, ℕ, ◌+◌, ◌-◌, ◌^◌, ◌≤◌, ◌<◌, ◌≡◌, refl, ◌∙◌, List, [], ◌++◌, some, Result, ok, ◌>>=◌,
  arith, length, take, take_all,
}
use ioloop.Buffer.{Buffer, max_store}
use ioloop.Buffer.Space.{ensure_writable_bytes-HasRoom, ensure_writable_bytes_shrinks}
use ioloop.Buffer.Contents.{Holds, has_written-Holds}
use ioloop.Buffer.Ints.{ByteOrder}
use ioloop.Buffer.Ints.Fields.{peek_int32-take}
use ioloop.Connection.{Conn, idle, body, on_header, on_body, receive, read_header}

-- Bytes that fit behind the data are appended where they are.
pub receive-Holds :
    {b : Buffer} {ys : List ℕ} (xs : List ℕ)
    → Holds b ys
    → b.writer + length xs ≤ length b.store
    → (c : Buffer) × (receive xs b ≡ ok c)
      × Holds c (ys ++ xs)
      × (c.writer ≡ b.writer + length xs)
      × (length c.store ≡ length b.store)
      × (c.reader ≡ b.reader)
unfolding receive
receive-Holds {b} {ys} xs h room =
    let (c, e, r, w, s, f) = has_written-Holds xs h room in
    (c, ground (arith, e, h.valid), r, w, s, f)

module _ (net : ByteOrder) where
  -- A header that says `-k` passes all tests when `k` lies above 8 and not above the bytes in the
  -- vector before the body: the vector is cut to end `k` bytes before the end of the data, and a
  -- read of `2 ^ 64 - k` bytes is started there.
  pub on_header_shrinks :
      (xs : List ℕ) (k : ℕ) (c : Conn)
      → Holds c.input []
      → length xs ≡ 4
      → c.input.writer + 4 ≤ length c.input.store
      → net.host32 xs ≡ 2 ^ 32 - k
      → 8 < k
      → k ≤ c.input.writer + 4
      → k < 2 ^ 31
      → (d : Conn) × (on_header net (some xs) c ≡ ok d)
        × (d.reading ≡ body (2 ^ 64 - k))
        × (length d.input.store + k ≡ d.input.writer)
  unfolding on_header
  on_header_shrinks xs k c h four room value eight fit small =
      let (b, e, r, w, s, f) = receive-Holds xs h (omega (arith, four)) in
      let p = peek_int32-take net r (omega (arith, four)) in
      let g = ensure_writable_bytes_shrinks b k r.valid eight (omega (arith, four, w)) small in
      (
        record c {
          input = record b { store = take (b.writer - k) b.store };
          reading = body (2 ^ 64 - k);
        },
        ground (arith, e, p, g, value, take_all 4 xs (omega (arith, four))),
        refl,
        omega (arith, length-take (b.writer - k) b.store, r.valid.inside, fit, w, four, eight),
      )

  -- With all input consumed, the header of a message of `n` bytes makes room for it, and its body
  -- is read: the callback finds header and body in the input buffer, and then the next header is
  -- read.
  pub on_header-on_body :
      (callback : Conn → Result Conn) (m : List ℕ) (c : Conn)
      → Holds c.input []
      → length m < 2 ^ 31
      → c.input.writer + 4 ≤ length c.input.store
      → c.input.writer + 4 + length m ≤ max_store
      → (d : Conn) × (b : Buffer) × (on_header net (some (net.bytes32 (length m))) c ≡ ok d)
        × (d.reading ≡ body (length m))
        × Holds b (net.bytes32 (length m) ++ m)
        × (on_body callback (some m) d
            ≡ (callback (record c { input = b; reading = idle }) >>= λ e. ok (read_header e)))
  unfolding on_header on_body
  on_header-on_body callback m c h small room fit =
      let four = net.length_bytes32 (length m) in
      let (b, e, r, w, s, f) = receive-Holds (net.bytes32 (length m)) h (omega (arith, four)) in
      let p = peek_int32-take net r (omega (arith, four)) in
      let (b', e', g) =
        ensure_writable_bytes-HasRoom b (length m) r.valid (omega (arith, four, w)) in
      let h' : Holds b' (net.bytes32 (length m)) = record {
        valid = g.valid;
        bytes = g.same ∙ r.bytes;
      } in
      let (b'', e'', r'', _, _, _) = receive-Holds m h' g.room in
      (
        record c { input = b'; reading = body (length m) },
        b'',
        ground (
          arith,
          e,
          p,
          e',
          net.host32_bytes32 (length m) (omega arith),
          take_all 4 (net.bytes32 (length m)) (omega (arith, four)),
        ),
        refl,
        r'',
        ground (arith, e''),
      )
