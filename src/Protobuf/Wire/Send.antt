-- ===== src/Protobuf/Wire/Send.antt =====
-- Net/ProtobufCodec.cpp: `send` builds the bytes that `onMessage` reads.
use ioloop.Prelude.{
  ℕ, ◌+◌, ◌^◌, ◌≤◌, ◌<◌, ◌≡◌, sym, ap, subst, ◌∙◌, List, [], ◌∷◌, ◌++◌, append_assoc, ok, arith,
  length, take, low32, length-append, take_all, append-nil,
}
use ioloop.Buffer.{
  Buffer, peek, readable_bytes, create, append, prepend, ensure_writable_bytes, has_written, blit,
}
use ioloop.Buffer.Space.{ensure_writable_bytes-HasRoom}
use ioloop.Buffer.Contents.{
  Holds, Holds-length, create-Holds, append-Holds, prepend-Holds, append_in_place, peek-take,
}
use ioloop.Buffer.Ints.{ByteOrder, append_int32}
use ioloop.Buffer.Ints.Fields.{append_int32-Holds}
use ioloop.Protobuf.{Library, deliver, send, on_message}
use ioloop.Protobuf.Wire.{
  name_size, payload, check_sum, body, wire, length-payload, length-body, on_message-wires,
}

module _ (net : ByteOrder) {Message : Type 0} (lib : Library Message) where
  send_steps :
      (m : Message) (b₀ b₁ b₂ b₃ b₄ b₅ b₆ : Buffer) (ps : List ℕ) (n : ℕ)
      → length (lib.type_name m) + 1 < 2 ^ 31
      → 4 + (length (lib.type_name m) + 1) + length (lib.serialize m) + 4 ≡ n
      → n < 2 ^ 31
      → create 1024 ≡ ok b₀
      → append_int32 net (length (lib.type_name m) + 1) b₀ ≡ ok b₁
      → append (lib.type_name m ++ 0 ∷ []) (length (lib.type_name m) + 1) b₁ ≡ ok b₂
      → ensure_writable_bytes (length (lib.serialize m)) b₂ ≡ ok b₃
      → has_written
          (length (lib.serialize m))
          (record b₃ { store = blit b₃.store b₃.writer (lib.serialize m) })
        ≡ ok b₄
      → take (readable_bytes b₄) (peek b₄) ≡ ps
      → append_int32 net (low32 (lib.adler32 ps)) b₄ ≡ ok b₅
      → readable_bytes b₅ ≡ n
      → prepend (net.bytes32 n) 4 b₅ ≡ ok b₆
      → send net lib m ≡ ok b₆
  unfolding send
  send_steps m b₀ b₁ b₂ b₃ b₄ b₅ b₆ ps n small size fit h₀ h₁ h₂ h₃ h₄ hp h₅ hn h₆ =
      ground (arith, lib.byte_size-eq-length m)

  -- The buffer once the name is written.
  record Head (m : Message) : Type 0 where
    b₀ : Buffer
    b₁ : Buffer
    b₂ : Buffer
    made : create 1024 ≡ ok b₀
    sized : append_int32 net (name_size net lib m) b₀ ≡ ok b₁
    named : append (lib.type_name m ++ 0 ∷ []) (name_size net lib m) b₁ ≡ ok b₂
    holds : Holds b₂ (net.bytes32 (name_size net lib m) ++ (lib.type_name m ++ 0 ∷ []))
    reach : b₂.writer ≤ 12 + name_size net lib m
    front : 8 ≤ b₂.reader

  head : (m : Message) → length (body net lib m) ≤ 67108864 → Head m
  head m small =
      let n = length-append (lib.type_name m) (0 ∷ []) in
      let sizes = length-payload net lib m in
      let total = length-body net lib m in
      let (b₀, e₀, h₀, w₀) = create-Holds 1024 (omega arith) in
      let (b₁, e₁, h₁, x₁) = append_int32-Holds net (name_size net lib m) h₀ (omega (arith, w₀)) in
      let (b₂, e₂, h₂, x₂) =
        append-Holds (lib.type_name m ++ 0 ∷ []) h₁ (omega (arith, w₀, x₁, total, sizes, n)) in
      record {
        b₀ = b₀;
        b₁ = b₁;
        b₂ = b₂;
        made = e₀;
        sized = e₁;
        named = subst (λ k. append (lib.type_name m ++ 0 ∷ []) k b₁ ≡ ok b₂) n e₂;
        holds = h₂;
        reach = omega (arith, w₀, x₁, x₂, n);
        front = omega (arith, Holds-length h₀, h₀.valid, w₀, x₁, x₂);
      }

  -- The buffer once everything but the length in front is written.
  record Rest (m : Message) (b₂ : Buffer) : Type 0 where
    b₃ : Buffer
    b₄ : Buffer
    b₅ : Buffer
    room : ensure_writable_bytes (length (lib.serialize m)) b₂ ≡ ok b₃
    written :
        has_written
          (length (lib.serialize m))
          (record b₃ { store = blit b₃.store b₃.writer (lib.serialize m) })
        ≡ ok b₄
    summed : take (readable_bytes b₄) (peek b₄) ≡ payload net lib m
    checked : append_int32 net (check_sum net lib m) b₄ ≡ ok b₅
    holds : Holds b₅ (body net lib m)
    front : 8 ≤ b₅.reader

  rest : (m : Message) → length (body net lib m) ≤ 67108864 → (h : Head m) → Rest m h.b₂
  rest m small h =
      let sizes = length-payload net lib m in
      let total = length-body net lib m in
      let (b₃, e₃, r₃) =
        ensure_writable_bytes-HasRoom h.b₂ (length (lib.serialize m)) h.holds.valid
          (omega (arith, h.reach, total, sizes)) in
      let (b₄, e₄, h₄, x₄) =
        append-Holds (lib.serialize m) h.holds (omega (arith, h.reach, total, sizes)) in
      let h₄' =
        subst (Holds b₄)
          (append_assoc (net.bytes32 (name_size net lib m)) (lib.type_name m ++ 0 ∷ [])
            (lib.serialize m))
          h₄ in
      let (b₅, e₅, h₅, x₅) =
        append_int32-Holds net (check_sum net lib m) h₄'
          (omega (arith, h.reach, x₄, total, sizes)) in
      record {
        b₃ = b₃;
        b₄ = b₄;
        b₅ = b₅;
        room = e₃;
        written = sym (append_in_place (lib.serialize m) h.b₂ b₃ e₃) ∙ e₄;
        summed =
            ap (λ k. take k (peek b₄)) {x = readable_bytes b₄} {y = length (payload net lib m)}
              (omega (arith, Holds-length h₄', h₄'.valid))
            ∙ peek-take (length (payload net lib m)) h₄' (omega arith)
            ∙ take_all (length (payload net lib m)) (payload net lib m) (omega arith);
        checked = e₅;
        holds = h₅;
        front = omega (arith, h.front, x₄, x₅);
      }

  -- `send` gives the connection exactly the frame of the message.
  pub send-Holds :
      (m : Message)
      → length (body net lib m) ≤ 67108864
      → (b : Buffer) × (send net lib m ≡ ok b) × Holds b (wire net lib m)
  send-Holds m small =
      let h = head m small in
      let r = rest m small h in
      let n = length (body net lib m) in
      let (b₆, e₆, h₆) =
        prepend-Holds (net.bytes32 n) r.holds (omega (arith, r.front, net.length_bytes32 n)) in
      (
        b₆,
        send_steps m h.b₀ h.b₁ h.b₂ r.b₃ r.b₄ r.b₅ b₆ (payload net lib m) n
            (omega (arith, length-body net lib m, length-payload net lib m))
            (omega (arith, length-body net lib m, length-payload net lib m)) (omega arith) h.made
            h.sized h.named r.room r.written r.summed r.checked
            (omega (arith, Holds-length r.holds, r.holds.valid))
            (subst (λ k. prepend (net.bytes32 n) k r.b₅ ≡ ok b₆) (net.length_bytes32 n) e₆),
        h₆,
      )

  -- What `send` builds for a message whose frame announces at most 67108864 bytes, the limit of
  -- `onMessage`, `onMessage` delivers as that message, and uses up; two rounds of fuel are enough.
  pub on_message-send :
      (m : Message) (fuel : ℕ)
      → length (body net lib m) ≤ 67108864
      → 1 < fuel
      → (b c : Buffer) × (send net lib m ≡ ok b)
        × (on_message net lib fuel b ≡ ok (deliver m ∷ [], c))
        × Holds c []
  on_message-send m fuel small enough =
      let (b, e, h) = send-Holds m small in
      let (c, e', h') =
        on_message-wires net lib (m ∷ []) fuel (small, tt) (omega arith)
          (subst (Holds b) (sym (append-nil (wire net lib m ++ [])))
            (subst (Holds b) (sym (append-nil (wire net lib m))) h))
          enough in
      (b, c, e, e', h')
