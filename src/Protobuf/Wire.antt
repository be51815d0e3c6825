-- ===== src/Protobuf/Wire.antt =====
-- Net/ProtobufCodec.cpp: the bytes of a message, and `parse` on them.
pub mod Send
use ioloop.Prelude.{
  max, ℕ, zero, suc, ◌+◌, ◌-◌, ◌*◌, ◌^◌, ◌≤◌, ◌<◌, ◌≡◌, refl, sym, ap, subst, ◌∙◌, List, [], ◌∷◌,
  ◌++◌, append_assoc, Option, none, some, Result, ok, err, arith, length, take, drop, low32,
  extend64, sub64, length-append, length-take, take-append_exact, drop-append_exact, take-append_le,
  drop-drop, take-append-drop, map,
}
use ioloop.Buffer.{Buffer, peek, retrieve, readable_bytes}
use ioloop.Buffer.Contents.{Holds, Holds-length, retrieve-Holds, peek-take, peek-split}
use ioloop.Buffer.Ints.{ByteOrder, peek_int32}
use ioloop.Buffer.Ints.Fields.{peek_int32-take}
use ioloop.Protobuf.{
  Library, Event, deliver, on_message, parse, network_to_host32, is_named, create_message,
}
use ioloop.Protobuf.Hang.{is_invalid_lem}

module _ (net : ByteOrder) {Message : Type 0} (lib : Library Message) where
  -- The size of a type name with the zero behind it.
  abbrev pub name_size : Message → ℕ
  name_size m = length (lib.type_name m) + 1

  abbrev pub payload : Message → List ℕ
  payload m = net.bytes32 (name_size m) ++ ((lib.type_name m ++ 0 ∷ []) ++ lib.serialize m)

  abbrev pub check_sum : Message → ℕ
  check_sum m = low32 (lib.adler32 (payload m))

  abbrev pub body : Message → List ℕ
  body m = payload m ++ net.bytes32 (check_sum m)

  abbrev pub wire : Message → List ℕ
  wire m = net.bytes32 (length (body m)) ++ body m

  pub length-payload :
      (m : Message) → length (payload m) ≡ 4 + name_size m + length (lib.serialize m)
  length-payload m = omega (
    arith,
    length-append (net.bytes32 (name_size m)) ((lib.type_name m ++ 0 ∷ []) ++ lib.serialize m),
    net.length_bytes32 (name_size m),
    length-append (lib.type_name m ++ 0 ∷ []) (lib.serialize m),
    length-append (lib.type_name m) (0 ∷ []),
  )

  pub length-body : (m : Message) → length (body m) ≡ length (payload m) + 4
  length-body m = omega (
    arith,
    length-append (payload m) (net.bytes32 (check_sum m)),
    net.length_bytes32 (check_sum m),
  )

  regroup :
      (m : Message) (tail : List ℕ)
      → body m ++ tail
        ≡ net.bytes32 (name_size m)
          ++ (lib.type_name m ++ (0 ∷ (lib.serialize m ++ (net.bytes32 (check_sum m) ++ tail))))
  regroup m tail = simp append_assoc

  -- The steps of `parse` that succeed, over their parts.
  parse_step :
      (bytes : List ℕ) (len name_len : ℕ) (name content : List ℕ) (message : Message) {adler : ℕ}
      → lib.adler32 (take (sub64 len 4) bytes) ≡ adler
      → net.host32 (take 4 (drop (sub64 len 4) bytes)) ≡ low32 adler
      → net.host32 (take 4 bytes) ≡ name_len
      → 2 ≤ name_len
      → name_len + 8 ≤ len
      → len ≤ 67108864
      → take (name_len - 1) (drop 4 bytes) ≡ name
      → lib.find_prototype name ≡ some message
      → take (sub64 (sub64 len name_len) 8) (drop (4 + name_len) bytes) ≡ content
      → parse net lib bytes len ≡ some (lib.parse_from_array message content)
  unfolding parse
  parse_step bytes len name_len name content message ha hc hn two fits small hname hfind hcontent =
      ground arith

  -- `parse` finds the message in its own bytes, whatever stands behind them.
  pub parse-body :
      (m : Message) (tail : List ℕ)
      → length (body m) ≤ 67108864
      → parse net lib (body m ++ tail) (length (body m)) ≡ some m
  unfolding parse
  parse-body m tail small =
      parse_step (body m ++ tail) len (name_size m) (lib.type_name m) (lib.serialize m)
        (lib.prototype m) (ap lib.adler32 checked) expected named
        (omega (arith, lib.name_nonempty m)) (omega (arith, length-body m, length-payload m))
        (omega (arith, length-body m, length-payload m, small)) name_is
        (lib.find_prototype-type_name m) rest
      ∙ ap some (lib.parse_from_array-serialize m)
    where
      len : ℕ
      len = length (body m)

      sum : sub64 len 4 ≡ length (payload m)
      sum = omega (arith, length-body m)

      checked : take (sub64 len 4) (body m ++ tail) ≡ payload m
      checked =
          ap (λ k. k)
            (rw (append_assoc (payload m) (net.bytes32 (check_sum m)) tail)
              (take-append_exact (sub64 len 4) (payload m) (net.bytes32 (check_sum m) ++ tail) sum))

      expected : net.host32 (take 4 (drop (sub64 len 4) (body m ++ tail))) ≡ check_sum m
      expected =
          rw
            (
              append_assoc (payload m) (net.bytes32 (check_sum m)) tail,
              drop-append_exact (sub64 len 4) (payload m) (net.bytes32 (check_sum m) ++ tail) sum,
              take-append_exact 4 (net.bytes32 (check_sum m)) tail
                  (sym (net.length_bytes32 (check_sum m))),
            )
            (net.host32_bytes32 (check_sum m) (omega arith))

      named : net.host32 (take 4 (body m ++ tail)) ≡ name_size m
      named =
          rw
            (
              regroup m tail,
              take-append_exact 4 (net.bytes32 (name_size m))
                  (lib.type_name m
                    ++ (0 ∷ (lib.serialize m ++ (net.bytes32 (check_sum m) ++ tail))))
                  (sym (net.length_bytes32 (name_size m))),
            )
            (net.host32_bytes32 (name_size m) (omega (arith, length-body m, length-payload m)))

      name_is : take (name_size m - 1) (drop 4 (body m ++ tail)) ≡ lib.type_name m
      name_is =
          rw
            (
              regroup m tail,
              drop-append_exact 4 (net.bytes32 (name_size m))
                  (lib.type_name m
                    ++ (0 ∷ (lib.serialize m ++ (net.bytes32 (check_sum m) ++ tail))))
                  (sym (net.length_bytes32 (name_size m))),
            )
            (take-append_exact (name_size m - 1) (lib.type_name m) _ (omega arith))

      behind :
          drop (4 + name_size m) (body m ++ tail)
          ≡ lib.serialize m ++ (net.bytes32 (check_sum m) ++ tail)
      behind =
          sym (drop-drop (name_size m) 4 (body m ++ tail))
          ∙ ap (drop (name_size m)) (
              ap (drop 4) (regroup m tail)
              ∙ drop-append_exact 4 (net.bytes32 (name_size m))
                  (lib.type_name m
                    ++ (0 ∷ (lib.serialize m ++ (net.bytes32 (check_sum m) ++ tail))))
                  (sym (net.length_bytes32 (name_size m)))
              ∙ sym (
                  append_assoc (lib.type_name m) (0 ∷ [])
                    (lib.serialize m ++ (net.bytes32 (check_sum m) ++ tail))))
          ∙ drop-append_exact (name_size m) (lib.type_name m ++ 0 ∷ [])
              (lib.serialize m ++ (net.bytes32 (check_sum m) ++ tail))
              (omega (arith, length-append (lib.type_name m) (0 ∷ [])))

      rest :
          take (sub64 (sub64 len (name_size m)) 8) (drop (4 + name_size m) (body m ++ tail))
          ≡ lib.serialize m
      rest = rw behind (
          take-append_exact _ (lib.serialize m) (net.bytes32 (check_sum m) ++ tail)
            (omega (arith, length-body m, length-payload m, small)))

  -- One round of the loop on a frame that parses.
  on_message_round :
      (fuel : ℕ) (b c d : Buffer) (w n : ℕ) (m : Message) (es : List (Event Message))
      → readable_bytes b ≡ n
      → 14 ≤ n
      → peek_int32 net b ≡ ok w
      → 10 ≤ w
      → w ≤ 67108864
      → w + 4 ≤ n
      → parse net lib (drop 4 (peek b)) w ≡ some m
      → retrieve (w + 4) b ≡ ok c
      → on_message net lib fuel c ≡ ok (es, d)
      → on_message net lib (suc fuel) b ≡ ok (deliver m ∷ es, d)
  unfolding on_message
  on_message_round fuel b c d w n m es hn enough hw low high whole hp hc he =
      ground (arith, is_invalid_lem w)

  abbrev pub wires : List Message → List ℕ
  wires [] = []
  wires (m ∷ ms) = wire m ++ wires ms

  abbrev pub AllSized : List Message → Type 0
  AllSized [] = Unit {0}
  AllSized (m ∷ ms) = (length (body m) ≤ 67108864) × AllSized ms

  -- What one whole frame at the front comes to: the calls of one round.
  record Frame (b : Buffer) (m : Message) (rest : List ℕ) : Type 0 where
    left : Buffer
    holds : Holds left rest
    round :
        (fuel : ℕ) (d : Buffer) (es : List (Event Message))
        → on_message net lib fuel left ≡ ok (es, d)
        → on_message net lib (suc fuel) b ≡ ok (deliver m ∷ es, d)

  wire-Frame :
      {b : Buffer} (m : Message) (rest : List ℕ)
      → length (body m) ≤ 67108864
      → Holds b (wire m ++ rest)
      → Frame b m rest
  wire-Frame {b} m rest small h = record {
    left = taken.0;
    holds = subst (Holds taken.0) cut taken.2;
    round = λ fuel d es e.
        on_message_round fuel b taken.0 d w (length (wire m ++ rest)) m es readable
          (omega (arith, sizes, size, length-body m, length-payload m, lib.name_nonempty m)) peeked
          (omega (arith, length-body m, length-payload m, lib.name_nonempty m)) small
          (omega (arith, sizes, size)) parsed taken.1 e;
  }
    where
      w : ℕ
      w = length (body m)

      size : length (wire m) ≡ 4 + length (body m)
      size = omega (arith, length-append (net.bytes32 w) (body m), net.length_bytes32 w)

      sizes : length (wire m ++ rest) ≡ length (wire m) + length rest
      sizes = length-append (wire m) rest

      readable : readable_bytes b ≡ length (wire m ++ rest)
      readable = omega (arith, Holds-length h, h.valid)

      assoc : (tail : List ℕ) → wire m ++ tail ≡ net.bytes32 w ++ (body m ++ tail)
      assoc tail = append_assoc (net.bytes32 w) (body m) tail

      peeked : peek_int32 net b ≡ ok w
      peeked =
          peek_int32-take net h (omega (arith, sizes, size))
          ∙ ap ok (
              ap net.host32 (
                ap (take 4) (assoc rest)
                ∙ take-append_exact 4 (net.bytes32 w) (body m ++ rest) (sym (net.length_bytes32 w)))
              ∙ net.host32_bytes32 w (omega arith))

      behind :
          (b' : List ℕ)
          → b' ≡ (wire m ++ rest) ++ drop (length (wire m ++ rest)) b'
          → drop 4 b' ≡ body m ++ (rest ++ drop (length (wire m ++ rest)) b')
      behind b' e =
          ap (drop 4) (e ∙ append_assoc (wire m) rest _ ∙ assoc _)
          ∙ drop-append_exact 4 (net.bytes32 w) _ (sym (net.length_bytes32 w))

      parsed : parse net lib (drop 4 (peek b)) w ≡ some m
      parsed = ap (λ k. parse net lib k w) (behind (peek b) (peek-split h)) ∙ parse-body m _ small

      taken :
          (c : Buffer) × (retrieve (w + 4) b ≡ ok c)
          × Holds c (drop (w + 4) (wire m ++ rest))
          × (c.writer ≤ max b.writer 8)
      taken = retrieve-Holds (w + 4) h (omega (arith, sizes, size))

      cut : drop (w + 4) (wire m ++ rest) ≡ rest
      cut = drop-append_exact (w + 4) (wire m) rest (omega (arith, size))

  -- A buffer of whole messages is handled by one call, which delivers them in order, and keeps the
  -- fewer than 14 bytes behind them.
  pub on_message-wires :
      (ms : List Message) {rest : List ℕ} {b : Buffer} (fuel : ℕ)
      → AllSized ms
      → length rest < 14
      → Holds b (wires ms ++ rest)
      → length ms < fuel
      → (c : Buffer) × (on_message net lib fuel b ≡ ok (map deliver ms, c)) × Holds c rest
  unfolding on_message
  on_message-wires ms zero sized short h enough = elim enough [ ]
  on_message-wires [] {b = b} (suc fuel) sized short h enough =
      (b, ground (arith, Holds-length h, h.valid), h)
  on_message-wires (m ∷ ms) {rest} {b} (suc fuel) sized short h enough =
      let f =
        wire-Frame m (wires ms ++ rest) sized.0
          (subst (Holds b) (append_assoc (wire m) (wires ms) rest) h) in
      let (c, e, h') = on_message-wires ms fuel sized.1 short f.holds (omega arith) in
      (c, f.round fuel c (map deliver ms) e, h')
