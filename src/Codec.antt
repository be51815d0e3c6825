-- ===== src/Codec.antt =====
-- Net/Codec.h and Net/Codec.cpp: `LengthHeaderCodec`, frames of a length and that many bytes.
-- The callbacks that it makes are recorded in order.
pub mod Frames
pub mod Stream
mod Tests
use ioloop.Prelude.{
  ℕ, zero, suc, ◌+◌, List, [], ◌∷◌, ◌||◌, Result, ok, err, out_of_fuel, ◌>>=◌, ltb, leb,
  if◌then◌else◌, take, low32, extend64, signed32, Bool,
}
use ioloop.Prelude.Int.{pos, ltb_ℤ}
use ioloop.Buffer.{Buffer, readable_bytes, peek, retrieve}
use ioloop.Buffer.Ints.{ByteOrder, peek_int32}

abbrev pub header_len : ℕ
header_len = 4

abbrev pub max_message_len : ℕ
max_message_len = 65536

abbrev pub min_message_len : ℕ
min_message_len = 0

-- `messageCallback_(conn, s)` and `conn->shutdown()`.
pub data Event : Type 0 where
  deliver : List ℕ → Event
  shut_down : Event

-- `bodyLen > kMaxMessageLen || bodyLen < kMinMessageLen`
pub is_invalid : ℕ → Bool
is_invalid body_len =
    ltb_ℤ (pos max_message_len) (signed32 body_len)
    || ltb_ℤ (signed32 body_len) (pos min_message_len)

module _ (net : ByteOrder) where
  pub on_message : ℕ → Buffer → Result (List Event × Buffer)
  on_message zero b = err out_of_fuel
  on_message (suc fuel) b =
      if ltb header_len (readable_bytes b)
      then (do
        body_len ← peek_int32 net b
        if is_invalid body_len
            then ok (shut_down ∷ [], b)
            else if leb (extend64 (low32 (body_len + header_len))) (readable_bytes b)
            then (do
              b' ← retrieve header_len b
              let s = take body_len (peek b')
              b'' ← retrieve (extend64 body_len) b'
              (events, rest) ← on_message fuel b''
              ok (deliver s ∷ events, rest))
            else ok ([], b))
      else ok ([], b)
