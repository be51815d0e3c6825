-- ===== src/Codec/Frames.antt =====
-- Net/Codec.cpp: what `onMessage` makes of the bytes of a buffer.
use ioloop.Prelude.{
  ℕ, zero, suc, ◌+◌, ◌≤◌, ◌<◌, ◌≡◌, ap, ◌∙◌, List, [], ◌∷◌, Result, ok, arith, dec_lt, take, drop,
  length, length-drop, ltb, drop-drop,
}
use ioloop.Buffer.{Buffer, readable_bytes, peek, retrieve}
use ioloop.Buffer.Contents.{Holds, Holds-length, retrieve-Holds, peek-take}
use ioloop.Buffer.Ints.{ByteOrder, peek_int32}
use ioloop.Buffer.Ints.Fields.{peek_int32-take}
use ioloop.Codec.{Event, deliver, shut_down, on_message, is_invalid}

pub is_invalid_lem : (w : ℕ) → is_invalid w ≡ ltb 65536 w
unfolding is_invalid
is_invalid_lem w = ground arith

module _ (net : ByteOrder) where
  -- The length that the first four bytes announce.
  abbrev pub header : List ℕ → ℕ
  header xs = net.host32 (take 4 xs)

  -- The frames at the front of a byte stream, and what is left behind them.
  pub data Decodes : List ℕ → List Event → List ℕ → Type 0 where
    short : {xs : List ℕ} → length xs ≤ 4 → Decodes xs [] xs
    bad : {xs : List ℕ} → 4 < length xs → 65536 < header xs → Decodes xs (shut_down ∷ []) xs
    partial :
        {xs : List ℕ}
        → 4 < length xs
        → header xs ≤ 65536
        → length xs < header xs + 4
        → Decodes xs [] xs
    frame :
        {xs : List ℕ} {es : List Event} {rest : List ℕ}
        → 4 < length xs
        → header xs ≤ 65536
        → header xs + 4 ≤ length xs
        → Decodes (drop (header xs + 4) xs) es rest
        → Decodes xs (deliver (take (header xs) (drop 4 xs)) ∷ es) rest

  readable-length : {b : Buffer} {xs : List ℕ} → Holds b xs → readable_bytes b ≡ length xs
  readable-length h = omega (arith, Holds-length h, h.valid)

  -- A call that ended: what it delivered, and the bytes that it left.
  pub record Handles (xs : List ℕ) (r : Result (List Event × Buffer)) : Type 0 where
    pub events : List Event
    pub buffer : Buffer
    pub rest : List ℕ
    pub returns : r ≡ ok (events, buffer)
    pub holds : Holds buffer rest
    pub decodes : Decodes xs events rest

  -- One round that finds a whole frame, by the calls that it makes.
  on_message_round :
      (fuel : ℕ) (b c d b' : Buffer) (w n : ℕ) (es : List Event)
      → readable_bytes b ≡ n
      → 4 < n
      → peek_int32 net b ≡ ok w
      → w ≤ 65536
      → w + 4 ≤ n
      → retrieve 4 b ≡ ok c
      → retrieve w c ≡ ok d
      → on_message net fuel d ≡ ok (es, b')
      → on_message net (suc fuel) b ≡ ok (deliver (take w (peek c)) ∷ es, b')
  unfolding on_message
  on_message_round fuel b c d b' w n es hn long hw small whole hc hd he =
      ground (arith, is_invalid_lem w)

  Handles-frame :
      (fuel : ℕ) {b : Buffer} {xs : List ℕ}
      → Holds b xs
      → 4 < length xs
      → header xs ≤ 65536
      → header xs + 4 ≤ length xs
      → ((d : Buffer)
          → Holds d (drop (header xs + 4) xs)
          → Handles (drop (header xs + 4) xs) (on_message net fuel d))
      → Handles xs (on_message net (suc fuel) b)
  Handles-frame fuel {b} {xs} h p q r again =
      let w = header xs in
      let (c, e, k, _) = retrieve-Holds 4 h (omega arith) in
      let (d, e', k', _) = retrieve-Holds w k (omega (arith, length-drop 4 xs)) in
      let sum : drop w (drop 4 xs) ≡ drop (w + 4) xs =
        drop-drop w 4 xs ∙ ap (λ m. drop m xs) {x = 4 + w} {y = w + 4} (omega arith) in
      let s = peek-take w k (omega (arith, length-drop 4 xs)) in
      finish c d e e' s (again d (rw sum at k'))
    where
      finish :
          (c d : Buffer)
          → retrieve 4 b ≡ ok c
          → retrieve (header xs) c ≡ ok d
          → take (header xs) (peek c) ≡ take (header xs) (drop 4 xs)
          → Handles (drop (header xs + 4) xs) (on_message net fuel d)
          → Handles xs (on_message net (suc fuel) b)
      finish c d e e' s tail = record {
        events = deliver (take (header xs) (drop 4 xs)) ∷ tail.events;
        buffer = tail.buffer;
        rest = tail.rest;
        returns =
            on_message_round fuel b c d tail.buffer (header xs) (length xs) tail.events
              (readable-length h) p (peek_int32-take net h (omega arith)) q r e e' tail.returns
            ∙ ap (λ m. ok (deliver m ∷ tail.events, tail.buffer)) s;
        holds = tail.holds;
        decodes = frame p q r tail.decodes;
      }

  -- `onMessage` ends, delivers the frames that the buffer begins with, and leaves the rest there.
  pub on_message-Handles :
      (fuel : ℕ) {b : Buffer} {xs : List ℕ}
      → Holds b xs
      → length xs < fuel
      → Handles xs (on_message net fuel b)
  unfolding on_message
  on_message-Handles zero h enough = elim enough [ ]
  on_message-Handles (suc fuel) {b} {xs} h enough = elim (dec_lt 4 (length xs)) [
    | no p ↦ record {
      events = [];
      buffer = b;
      rest = xs;
      returns = ground (arith, readable-length h);
      holds = h;
      decodes = short (omega arith);
    }
    | yes p ↦
        let peeked = peek_int32-take net h (omega arith) in
        elim (dec_lt 65536 (header xs)) [
          | yes q ↦ record {
            events = shut_down ∷ [];
            buffer = b;
            rest = xs;
            returns = ground (arith, readable-length h, peeked, is_invalid_lem (header xs));
            holds = h;
            decodes = bad p q;
          }
          | no q ↦ elim (dec_lt (length xs) (header xs + 4)) [
            | yes r ↦ record {
              events = [];
              buffer = b;
              rest = xs;
              returns = ground (arith, readable-length h, peeked, is_invalid_lem (header xs));
              holds = h;
              decodes = partial p (omega arith) r;
            }
            | no r ↦
                Handles-frame fuel h p (omega arith) (omega arith)
                  (λ d k. on_message-Handles fuel k (omega (arith, length-drop (header xs + 4) xs)))
          ]
        ]
  ]
