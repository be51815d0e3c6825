-- ===== src/Protobuf/Hang.antt =====
-- Net/ProtobufCodec.cpp: the buffers on which the loop of `onMessage` never ends.
use ioloop.Prelude.{
  ℕ, zero, suc, ◌+◌, ◌≤◌, ◌<◌, ◌≡◌, refl, List, none, err, out_of_fuel, arith, length, take, drop,
  ltb, ◌||◌,
}
use ioloop.Buffer.{Buffer, peek}
use ioloop.Buffer.Contents.{Holds, Holds-length}
use ioloop.Buffer.Ints.{ByteOrder}
use ioloop.Buffer.Ints.Fields.{peek_int32-take}
use ioloop.Protobuf.{Library, on_message, parse, is_invalid}

pub is_invalid_lem : (w : ℕ) → is_invalid w ≡ (ltb 67108864 w || ltb w 10)
unfolding is_invalid
is_invalid_lem w = ground arith

module _ (net : ByteOrder) {Message : Type 0} (lib : Library Message) where
  -- When at least 14 bytes are in the buffer, which is what the loop waits for, and the header
  -- announces an allowed length, 10 to 67108864 bytes, of which a part is still missing, the loop
  -- goes round for ever: whatever the fuel, it runs out.
  pub on_message_partial_hangs :
      (fuel : ℕ) {b : Buffer} {xs : List ℕ}
      → Holds b xs
      → 14 ≤ length xs
      → 10 ≤ net.host32 (take 4 xs)
      → net.host32 (take 4 xs) ≤ 67108864
      → length xs < net.host32 (take 4 xs) + 4
      → on_message net lib fuel b ≡ err out_of_fuel
  unfolding on_message
  on_message_partial_hangs zero h p q r s = refl
  on_message_partial_hangs (suc fuel) {b} {xs} h p q r s = ground (
    arith,
    Holds-length h,
    h.valid,
    peek_int32-take net h (omega arith),
    is_invalid_lem (net.host32 (take 4 xs)),
    on_message_partial_hangs fuel h p q r s,
  )

  -- So does a complete frame that does not parse: a wrong checksum, or a type that is not known.
  pub on_message_unparsed_hangs :
      (fuel : ℕ) {b : Buffer} {xs : List ℕ}
      → Holds b xs
      → 14 ≤ length xs
      → 10 ≤ net.host32 (take 4 xs)
      → net.host32 (take 4 xs) ≤ 67108864
      → net.host32 (take 4 xs) + 4 ≤ length xs
      → parse net lib (drop 4 (peek b)) (net.host32 (take 4 xs)) ≡ none
      → on_message net lib fuel b ≡ err out_of_fuel
  unfolding on_message
  on_message_unparsed_hangs zero h p q r s e = refl
  on_message_unparsed_hangs (suc fuel) {b} {xs} h p q r s e = ground (
    arith,
    Holds-length h,
    h.valid,
    peek_int32-take net h (omega arith),
    is_invalid_lem (net.host32 (take 4 xs)),
    on_message_unparsed_hangs fuel h p q r s e,
  )
