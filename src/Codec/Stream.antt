-- ===== src/Codec/Stream.antt =====
-- Net/Codec.cpp: whole messages through `onMessage`, however the bytes arrive.
use ioloop.Prelude.{
  drop-drop, ℕ, ◌+◌, ◌≤◌, ◌<◌, ◌≡◌, refl, sym, ap, ◌∙◌, subst, List, [], ◌∷◌, ◌++◌, append_assoc,
  Result, ok, arith, take, drop, length, length-append, length-drop, map, take-append_exact,
  drop-append_exact, drop-append_le, take-append_le,
}
use ioloop.Buffer.{Buffer, append, max_store}
use ioloop.Buffer.Contents.{Holds, append-Holds}
use ioloop.Buffer.Ints.{ByteOrder}
use ioloop.Codec.{Event, deliver, shut_down, on_message}
use ioloop.Codec.Frames.{Decodes, short, bad, partial, frame, header, on_message-Handles}

-- No event closes the connection.
abbrev pub AllDelivered : List Event → Type 0
AllDelivered [] = Unit {0}
AllDelivered (deliver m ∷ es) = AllDelivered es
AllDelivered (shut_down ∷ es) = ⊥

-- The messages that the codec takes one at a time.
abbrev pub AllSized : List (List ℕ) → Type 0
AllSized [] = Unit {0}
AllSized (m ∷ ms) = (0 < length m) × (length m ≤ 65536) × AllSized ms

module _ (net : ByteOrder) where
  abbrev pub frames : List (List ℕ) → List ℕ
  frames [] = []
  frames (m ∷ ms) = net.bytes32 (length m) ++ (m ++ frames ms)

  -- The bytes determine what is delivered.
  pub Decodes-unique :
      {xs : List ℕ} {es : List Event} {rest : List ℕ} {es' : List Event} {rest' : List ℕ}
      → Decodes net xs es rest
      → Decodes net xs es' rest'
      → (es ≡ es') × (rest ≡ rest')
  Decodes-unique (short h) (short h') = (refl, refl)
  Decodes-unique (short h) (bad p q) = absurd (omega arith)
  Decodes-unique (short h) (partial p q r) = absurd (omega arith)
  Decodes-unique (short h) (frame p q r d) = absurd (omega arith)
  Decodes-unique (bad p q) (short h) = absurd (omega arith)
  Decodes-unique (bad p q) (bad p' q') = (refl, refl)
  Decodes-unique (bad p q) (partial p' q' r) = absurd (omega arith)
  Decodes-unique (bad p q) (frame p' q' r d) = absurd (omega arith)
  Decodes-unique (partial p q r) (short h) = absurd (omega arith)
  Decodes-unique (partial p q r) (bad p' q') = absurd (omega arith)
  Decodes-unique (partial p q r) (partial p' q' r') = (refl, refl)
  Decodes-unique (partial p q r) (frame p' q' r' d) = absurd (omega arith)
  Decodes-unique (frame p q r d) (short h) = absurd (omega arith)
  Decodes-unique (frame p q r d) (bad p' q') = absurd (omega arith)
  Decodes-unique (frame p q r d) (partial p' q' r') = absurd (omega arith)
  Decodes-unique {xs} (frame p q r d) (frame p' q' r' d') =
      let (e, f) = Decodes-unique d d' in
      (ap (◌∷◌ (deliver (take (header net xs) (drop 4 xs)))) e, f)

  -- `frame` with the parts of the stream named.
  frame_of :
      {xs : List ℕ} {es : List Event} {rest : List ℕ} (w : ℕ) (m tail : List ℕ)
      → header net xs ≡ w
      → 4 < length xs
      → w ≤ 65536
      → w + 4 ≤ length xs
      → take w (drop 4 xs) ≡ m
      → drop (w + 4) xs ≡ tail
      → Decodes net tail es rest
      → Decodes net xs (deliver m ∷ es) rest
  frame_of {xs} {es} {rest} w m tail e p q r em et d =
      subst (λ k. Decodes net xs (deliver k ∷ es) rest) (ap (λ k. take k (drop 4 xs)) e ∙ em)
        (frame p (omega arith) (omega arith)
          (subst (λ t. Decodes net t es rest) (sym (ap (λ k. drop (k + 4) xs) e ∙ et)) d))

  -- More bytes behind a stream are decoded after what is left of it.
  pub Decodes-append :
      {xs : List ℕ} {es : List Event} {rest : List ℕ} (ys : List ℕ) {es' : List Event}
      {rest' : List ℕ}
      → Decodes net xs es rest
      → AllDelivered es
      → Decodes net (rest ++ ys) es' rest'
      → Decodes net (xs ++ ys) (es ++ es') rest'
  Decodes-append ys (short h) all next = next
  Decodes-append ys (bad p q) all next = absurd all
  Decodes-append ys (partial p q r) all next = next
  Decodes-append {xs} ys (frame p q r d) all next =
      frame_of (header net xs) (take (header net xs) (drop 4 xs))
        (drop (header net xs + 4) xs ++ ys) (ap net.host32 (take-append_le 4 xs ys (omega arith)))
        (omega (arith, length-append xs ys)) q (omega (arith, length-append xs ys))
        (ap (take (header net xs)) (drop-append_le 4 xs ys (omega arith))
          ∙ take-append_le (header net xs) (drop 4 xs) ys (omega (arith, length-drop 4 xs)))
        (drop-append_le (header net xs + 4) xs ys r) (Decodes-append ys d all next)

  Decodes-frame :
      (m rest : List ℕ) {es : List Event} {left : List ℕ}
      → 4 < length (net.bytes32 (length m) ++ (m ++ rest))
      → length m ≤ 65536
      → Decodes net rest es left
      → Decodes net (net.bytes32 (length m) ++ (m ++ rest)) (deliver m ∷ es) left
  Decodes-frame m rest more small d =
      let n = net.length_bytes32 (length m) in
      let size = length-append (net.bytes32 (length m)) (m ++ rest) in
      let tail : drop 4 (net.bytes32 (length m) ++ (m ++ rest)) ≡ m ++ rest =
        drop-append_exact 4 (net.bytes32 (length m)) (m ++ rest) (sym n) in
      frame_of (length m) m rest
        (ap net.host32 (take-append_exact 4 (net.bytes32 (length m)) (m ++ rest) (sym n))
          ∙ net.host32_bytes32 (length m) (omega arith))
        more small (omega (arith, n, size, length-append m rest))
        (ap (take (length m)) tail ∙ take-append_exact (length m) m rest refl)
        (ap (λ k. drop k (net.bytes32 (length m) ++ (m ++ rest))) {x = length m + 4}
            {y = 4 + length m} (omega arith)
          ∙ sym (drop-drop (length m) 4 (net.bytes32 (length m) ++ (m ++ rest)))
          ∙ ap (drop (length m)) tail
          ∙ drop-append_exact (length m) m rest refl)
        d

  pub Decodes-frames :
      (ms : List (List ℕ)) {rest : List ℕ}
      → AllSized ms
      → Decodes net rest [] rest
      → Decodes net (frames ms ++ rest) (map deliver ms) rest
  Decodes-frames [] h d = d
  Decodes-frames (m ∷ ms) {rest} h d =
      let tail = Decodes-frames ms h.2 d in
      let size = length-append (net.bytes32 (length m)) (m ++ (frames ms ++ rest)) in
      let regroup : net.bytes32 (length m) ++ (m ++ (frames ms ++ rest)) ≡ frames (m ∷ ms) ++ rest =
        ap (◌++◌ (net.bytes32 (length m))) (sym (append_assoc m (frames ms) rest))
        ∙ sym (append_assoc (net.bytes32 (length m)) (m ++ frames ms) rest) in
      subst (λ k. Decodes net k (map deliver (m ∷ ms)) rest) regroup
        (Decodes-frame m (frames ms ++ rest)
          (omega (arith, net.length_bytes32 (length m), size, length-append m (frames ms ++ rest)))
          h.1 tail)

  -- A buffer of whole messages, none empty and none too long, and the beginning of another is
  -- handled by one call: it delivers exactly those messages in order and keeps that beginning.
  pub on_message-frames :
      (ms : List (List ℕ)) {rest : List ℕ} {b : Buffer} (fuel : ℕ)
      → AllSized ms
      → Decodes net rest [] rest
      → Holds b (frames ms ++ rest)
      → length (frames ms ++ rest) < fuel
      → (c : Buffer) × (on_message net fuel b ≡ ok (map deliver ms, c)) × Holds c rest
  on_message-frames ms {rest} fuel sized begun h enough =
      let r = on_message-Handles net fuel h enough in
      let (e, f) = Decodes-unique r.decodes (Decodes-frames ms sized begun) in
      (r.buffer, r.returns ∙ ap (λ es. ok (es, r.buffer)) e, subst (Holds r.buffer) f r.holds)

  Decodes-length :
      {xs : List ℕ} {es : List Event} {rest : List ℕ}
      → Decodes net xs es rest
      → length rest ≤ length xs
  Decodes-length (short h) = omega arith
  Decodes-length (bad p q) = omega arith
  Decodes-length (partial p q r) = omega arith
  Decodes-length {xs} (frame p q r d) =
      omega (arith, Decodes-length d, length-drop (header net xs + 4) xs)

  returned :
      {es es' : List Event} {b b' : Buffer}
      → ◌≡◌ {A = Result (List Event × Buffer)} (ok (es, b)) (ok (es', b'))
      → (es ≡ es') × (b ≡ b')
  returned e = (ground arith, ground arith)

  -- However a stream is cut in two: where a call on the first part has delivered `es` and closed
  -- nothing, a call after the second part has arrived delivers what one call on the whole
  -- stream delivers behind `es`, and leaves the same bytes.
  pub on_message-chunks :
      (fuel : ℕ) (ys : List ℕ) {xs : List ℕ} {es : List Event} {b b' d : Buffer}
      → Holds b xs
      → Holds d (xs ++ ys)
      → length (xs ++ ys) < fuel
      → on_message net fuel b ≡ ok (es, b')
      → AllDelivered es
      → b'.writer + length ys ≤ max_store
      → (es' : List Event) × (rest : List ℕ) × (c c' d' : Buffer) × (append ys (length ys) b'
          ≡ ok c)
        × (on_message net fuel c ≡ ok (es', c'))
        × Holds c' rest
        × (on_message net fuel d ≡ ok (es ++ es', d'))
        × Holds d' rest
  on_message-chunks fuel ys {xs} {es} {b} {b'} {d} h hd enough e all fit =
      let first = on_message-Handles net fuel h (omega (arith, length-append xs ys)) in
      let (e₁, e₂) = returned (sym first.returns ∙ e) in
      let left = Decodes-length first.decodes in
      let (c, ec, hc, _) = append-Holds ys (subst (λ k. Holds k first.rest) e₂ first.holds) fit in
      let second =
        on_message-Handles net fuel hc
          (omega (arith, length-append xs ys, length-append first.rest ys)) in
      let whole = on_message-Handles net fuel hd enough in
      let (f₁, f₂) = Decodes-unique whole.decodes (
        Decodes-append ys (subst (λ k. Decodes net xs k first.rest) e₁ first.decodes) all
          second.decodes) in
      (
        second.events,
        second.rest,
        c,
        second.buffer,
        whole.buffer,
        ec,
        second.returns,
        second.holds,
        whole.returns ∙ ap (λ k. ok (k, whole.buffer)) f₁,
        subst (Holds whole.buffer) f₂ whole.holds,
      )

  -- An empty message behind whole ones is not delivered: its header stays in the buffer, although
  -- a length of zero is allowed.
  pub on_message_empty_tail :
      (ms : List (List ℕ)) {b : Buffer} (fuel : ℕ)
      → AllSized ms
      → Holds b (frames ms ++ net.bytes32 0)
      → length (frames ms ++ net.bytes32 0) < fuel
      → (c : Buffer) × (on_message net fuel b ≡ ok (map deliver ms, c)) × Holds c (net.bytes32 0)
  on_message_empty_tail ms fuel sized h enough =
      on_message-frames ms fuel sized (short (omega (arith, net.length_bytes32 0))) h enough
