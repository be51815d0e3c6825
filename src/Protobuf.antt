-- ===== src/Protobuf.antt =====
-- Net/ProtobufCodec.h and Net/ProtobufCodec.cpp: `ProtobufCodec`, frames of a length, a type name,
-- a serialised message and a checksum. protobuf and zlib are parameters.
pub mod Hang
pub mod Wire
mod Tests
use ioloop.Prelude.{
  ℕ, zero, suc, ◌+◌, ◌*◌, ◌-◌, ◌<◌, ◌≡◌, List, [], ◌∷◌, ◌++◌, ◌||◌, ◌&&◌, not, Option, none, some,
  Result, ok, err, out_of_fuel, assert, ◌>>=◌, ◌>>◌, ltb, leb, ◌==◌, if◌then◌else◌, take, drop,
  length, low32, extend64, sub64, add64, signed32, Bool, true, false,
}
use ioloop.Prelude.Int.{pos, ltb_ℤ}
use ioloop.Buffer.{
  Buffer, readable_bytes, peek, retrieve, create, append, prepend, ensure_writable_bytes,
  has_written, blit, initial_size,
}
use ioloop.Buffer.Ints.{ByteOrder, peek_int32, append_int32}

-- What the codec uses of protobuf and zlib: a message's type name, size and bytes, the registry of
-- prototypes, `ParseFromArray`, and `adler32(1, data, len)`.
pub record Library (Message : Type 0) : Type 0 where
  pub type_name : Message → List ℕ
  pub byte_size : Message → ℕ
  pub serialize : Message → List ℕ
  pub find_prototype : List ℕ → Option Message
  pub parse_from_array : Message → List ℕ → Message
  pub adler32 : List ℕ → ℕ
  pub byte_size-eq-length : (m : Message) → byte_size m ≡ length (serialize m)
  pub name_nonempty : (m : Message) → 0 < length (type_name m)
  pub prototype : Message → Message
  pub find_prototype-type_name : (m : Message) → find_prototype (type_name m) ≡ some (prototype m)
  pub parse_from_array-serialize : (m : Message) → parse_from_array (prototype m) (serialize m) ≡ m

abbrev pub header_len : ℕ
header_len = 4

abbrev pub min_message_len : ℕ
min_message_len = 2 * header_len + 2

abbrev pub max_message_len : ℕ
max_message_len = 64 * 1024 * 1024

-- `messageCallback_(conn, message)` and `conn->shutdown()`.
pub data Event (Message : Type 0) : Type 0 where
  deliver : Message → Event Message
  shut_down : Event Message

pub is_invalid : ℕ → Bool
is_invalid body_len =
    ltb_ℤ (pos max_message_len) (signed32 body_len)
    || ltb_ℤ (signed32 body_len) (pos min_message_len)

module _ (net : ByteOrder) {Message : Type 0} (lib : Library Message) where
  pub network_to_host32 : List ℕ → ℕ
  network_to_host32 buf = net.host32 (take 4 buf)

  pub create_message : List ℕ → Option Message
  create_message name = lib.find_prototype name

  -- A name of at least one character, and room for it before the checksum.
  pub is_named : ℕ → ℕ → Bool
  is_named name_len len =
      not (ltb_ℤ (signed32 name_len) (pos 2))
      && leb (extend64 name_len) (sub64 len (2 * header_len))

  pub parse : List ℕ → ℕ → Option Message
  unfolding network_to_host32 create_message is_named
  parse bytes len =
      let expected_check_sum = network_to_host32 (drop (sub64 len header_len) bytes) in
      let check_sum = low32 (lib.adler32 (take (sub64 len header_len) bytes)) in
      let name_len = network_to_host32 bytes in
      if check_sum == expected_check_sum
      then if is_named name_len len
        then elim (create_message (take (name_len - 1) (drop header_len bytes))) [
          | none ↦ none
          | some message ↦ some (
              lib.parse_from_array message (
                take (sub64 (sub64 len (extend64 name_len)) (2 * header_len))
                  (drop (header_len + name_len) bytes)))
        ]
        else none
      else none

  -- The loop has no way out where a frame is not complete, or does not parse.
  pub on_message : ℕ → Buffer → Result (List (Event Message) × Buffer)
  unfolding is_invalid
  on_message zero b = err out_of_fuel
  on_message (suc fuel) b = elim (leb (min_message_len + header_len) (readable_bytes b)) [
    | false ↦ ok ([], b)
    | true ↦ peek_int32 net b >>= λ body_len. elim (is_invalid body_len) [
      | true ↦ ok (shut_down ∷ [], b)
      | false ↦ elim (leb (extend64 (low32 (body_len + header_len))) (readable_bytes b)) [
        | false ↦ on_message fuel b
        | true ↦ elim (parse (drop header_len (peek b)) (extend64 body_len)) [
          | none ↦ on_message fuel b
          | some message ↦ (do
            b' ← retrieve (extend64 (low32 (body_len + header_len))) b
            (events, rest) ← on_message fuel b'
            ok (deliver message ∷ events, rest))
        ]
      ]
    ]
  ]

  -- The buffer that `send` hands to the connection.
  pub send : Message → Result Buffer
  send message = do
    b₀ ← create initial_size
    let type_name = lib.type_name message
    let name_len = low32 (length type_name + 1)
    b₁ ← append_int32 net name_len b₀
    b₂ ← append (type_name ++ 0 ∷ []) (extend64 name_len) b₁
    let byte_size = lib.byte_size message
    b₃ ← ensure_writable_bytes byte_size b₂
    let written = lib.serialize message
    assert (length written == byte_size)
    b₄ ← has_written byte_size (record b₃ { store = blit b₃.store b₃.writer written })
    let check_sum = low32 (lib.adler32 (take (readable_bytes b₄) (peek b₄)))
    b₅ ← append_int32 net check_sum b₄
    assert
        (readable_bytes b₅ == add64 (add64 (header_len + extend64 name_len) byte_size) header_len)
    prepend (net.bytes32 (low32 (readable_bytes b₅))) 4 b₅
