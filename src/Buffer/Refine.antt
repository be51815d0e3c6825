-- ===== src/Buffer/Refine.antt =====
-- Net/Buffer.cpp: a buffer under any sequence of calls, against the byte queue that it stands for.
use ioloop.Prelude.{
  ℕ, ◌+◌, ◌-◌, ◌^◌, ◌≤◌, ◌<◌, max, ◌≡◌, refl, ap, ◌∙◌, List, [], ◌∷◌, ◌++◌, Option, none, some,
  Result, ok, err, assertion, arith, dec_le, take, drop, length, length-drop, leb, if◌then◌else◌,
  ◌>>=◌, take_all, le→leb, lt→leb,
}
use ioloop.Buffer.{
  Buffer, max_store, initial_size, append, retrieve, retrieve_all, unwrite, shrink, peek,
  readable_bytes, create, swap, to_string_piece, ensure_writable_bytes,
}
use ioloop.Buffer.Space.{IsValid, ensure_writable_bytes-HasRoom}
use ioloop.Buffer.Contents.{
  Holds, Holds-length, append-Holds, retrieve-Holds, peek-take, create-Holds, append-take,
  retrieve_too_much,
}

-- `retrieveAll` forgets every byte.
pub retrieve_all-Holds : (b : Buffer) → IsValid b → Holds (retrieve_all b) []
unfolding retrieve_all
retrieve_all-Holds b v = record { valid = omega (arith, v); bytes = refl }

-- `unwrite(len)` takes the last `len` bytes back.
pub unwrite-Holds :
    {b : Buffer} {xs : List ℕ} (n : ℕ)
    → Holds b xs
    → n ≤ length xs
    → (b' : Buffer) × (unwrite n b ≡ ok b')
      × Holds b' (take (length xs - n) xs)
      × (b'.writer ≤ max b.writer 8)
unfolding unwrite
unwrite-Holds {b} {xs} n h fit = (
  record b { writer = b.writer - n },
  ground (arith, Holds-length h, h.valid),
  record {
    valid = ground (arith, Holds-length h, h.valid);
    bytes =
        ap (λ k. take k (peek b)) {x = b.writer - n - b.reader} {y = length xs - n}
          (omega (arith, Holds-length h))
        ∙ peek-take (length xs - n) h (omega arith);
  },
  omega arith,
)

unwrite_too_much :
    {b : Buffer} {xs : List ℕ} (n : ℕ) → Holds b xs → length xs < n → unwrite n b ≡ err assertion
unfolding unwrite
unwrite_too_much n h over = ground (arith, Holds-length h, h.valid)

pub data Op : Type 0 where
  put : List ℕ → Op
  get : ℕ → Op
  clear : Op
  unput : ℕ → Op
  make_room : ℕ → Op

pub call : Op → Buffer → Result Buffer
call (put ys) b = append ys (length ys) b
call (get n) b = retrieve n b
call clear b = ok (retrieve_all b)
call (unput n) b = unwrite n b
call (make_room n) b = ensure_writable_bytes n b

pub run : List Op → Buffer → Result Buffer
run [] b = ok b
run (o ∷ os) b = call o b >>= run os

-- The same calls on a plain queue of bytes; `none` where too many bytes are asked for.
unfoldable pub queue_call : Op → List ℕ → Option (List ℕ)
queue_call (put ys) xs = some (xs ++ ys)
queue_call (get n) xs = if leb n (length xs) then some (drop n xs) else none
queue_call clear xs = some []
queue_call (unput n) xs = if leb n (length xs) then some (take (length xs - n) xs) else none
queue_call (make_room n) xs = some xs

unfoldable pub queue_run : List Op → List ℕ → Option (List ℕ)
queue_run [] xs = some xs
queue_run (o ∷ os) xs = elim (queue_call o xs) [ none ↦ none | some ys ↦ queue_run os ys ]

abbrev pub put_size : Op → ℕ
put_size (put ys) = length ys
put_size (make_room n) = n
put_size _ = 0

abbrev pub put_total : List Op → ℕ
put_total [] = 0
put_total (o ∷ os) = put_size o + put_total os

-- The buffer holds what the queue does, and its assertion fails where the queue refuses.
abbrev pub Agrees : Result Buffer → Option (List ℕ) → Type 0
Agrees (ok b) (some xs) = Holds b xs
Agrees (err f) none = f ≡ assertion
Agrees _ _ = ⊥

-- The same for one call, with the bound on where the data end.
abbrev CallAgrees : Buffer → ℕ → Result Buffer → Option (List ℕ) → Type 0
CallAgrees b n (ok b') (some xs) = Holds b' xs × (max b'.writer 8 ≤ max b.writer 8 + n)
CallAgrees b n (err f) none = f ≡ assertion
CallAgrees b n _ _ = ⊥

call-Agrees :
    {b : Buffer} {xs : List ℕ} (o : Op)
    → Holds b xs
    → b.writer + put_size o ≤ max_store
    → CallAgrees b (put_size o) (call o b) (queue_call o xs)
unfolding call queue_call
call-Agrees {b} {xs} (put ys) h fit =
    let (b', e, r, x) = append-Holds ys h fit in rw e (r, omega (arith, x))
call-Agrees {b} {xs} (get n) h fit = elim (dec_le n (length xs)) [
  | yes p ↦ let (b', e, r, x) = retrieve-Holds n h p in rw (e, le→leb _ _ p) (r, omega arith)
  | no p ↦ rw (retrieve_too_much n h (omega arith), lt→leb n (length xs) (omega arith)) refl
]
call-Agrees {b} {xs} clear h fit =
    (retrieve_all-Holds b h.valid, unfold retrieve_all in omega arith)
call-Agrees {b} {xs} (unput n) h fit = elim (dec_le n (length xs)) [
  | yes p ↦ let (b', e, r, x) = unwrite-Holds n h p in rw (e, le→leb _ _ p) (r, omega arith)
  | no p ↦ rw (unwrite_too_much n h (omega arith), lt→leb n (length xs) (omega arith)) refl
]
call-Agrees {b} {xs} (make_room n) h fit =
    let (b', e, room) = ensure_writable_bytes-HasRoom b n h.valid fit in
    rw e (record { valid = room.valid; bytes = room.same ∙ h.bytes }, omega (arith, room))

-- Any sequence of calls of append, retrieve, retrieveAll, unwrite and ensureWritableBytes on a buffer
-- does what it does on the queue, where the last one changes nothing, and fails an assertion where
-- the queue has too few bytes, if the vector may grow by all that is appended and reserved.
pub run-Agrees :
    (os : List Op) {b : Buffer} {xs : List ℕ}
    → Holds b xs
    → max b.writer 8 + put_total os ≤ max_store
    → Agrees (run os b) (queue_run os xs)
unfolding run queue_run
run-Agrees [] h fit = h
run-Agrees (o ∷ os) {b} {xs} h fit =
    go (call o b) (queue_call o xs) (λ c ys k e. run-Agrees os k e) (call-Agrees o h (omega arith))
  where
    go :
        (r : Result Buffer) (q : Option (List ℕ))
        → ((c : Buffer) (ys : List ℕ)
            → Holds c ys
            → max c.writer 8 + put_total os ≤ max_store
            → Agrees (run os c) (queue_run os ys))
        → CallAgrees b (put_size o) r q
        → Agrees (r >>= run os) (elim q [ none ↦ none | some ys ↦ queue_run os ys ])
    go (ok c) (some ys) rest k = rest c ys k.0 (omega arith)
    go (ok c) none rest k = absurd k
    go (err f) none rest k = k
    go (err f) (some ys) rest k = absurd k

-- `shrink` as the calls that it makes.
shrink_steps :
    (b c d e : Buffer) (n reserve : ℕ)
    → readable_bytes b ≡ n
    → n < 2 ^ 31
    → n + reserve ≤ max_store
    → create initial_size ≡ ok c
    → ensure_writable_bytes (n + reserve) c ≡ ok d
    → append (peek b) n d ≡ ok e
    → shrink reserve b ≡ ok e
unfolding shrink swap to_string_piece
shrink_steps b c d e n reserve hr hn hs hc hd he = ground arith

-- `shrink(reserve)` keeps the bytes and leaves room for `reserve` more. The bound of `int` is that
-- of the `StringPiece` that it copies from.
pub shrink-Holds :
    {b : Buffer} {xs : List ℕ} (reserve : ℕ)
    → Holds b xs
    → length xs < 2 ^ 31
    → length xs + reserve + 8 ≤ max_store
    → (b' : Buffer) × (shrink reserve b ≡ ok b')
      × Holds b' xs
      × (b'.writer + reserve ≤ length b'.store)
unfolding shrink swap
shrink-Holds {b} {xs} reserve h small fit =
    let n = length xs in
    let (c, e, r, w) = create-Holds 1024 (omega arith) in
    let (d, f, room) = ensure_writable_bytes-HasRoom c (n + reserve) r.valid (omega arith) in
    let whole : take n (peek b) ≡ xs = peek-take n h (omega arith) ∙ take_all n xs (omega arith) in
    let (b', g, s, x) =
      append-Holds xs (record { valid = room.valid; bytes = room.same ∙ r.bytes })
        (omega (arith, w, room)) in
    let read : append (peek b) n d ≡ ok b' =
      append-take (peek b) n d (omega (arith, Holds-length h, length-drop b.reader b.store))
      ∙ (rw whole g) in
    (
      b',
      shrink_steps b c d b' n reserve (omega (arith, Holds-length h)) small (omega arith) e f read,
      s,
      omega (arith, x, room),
    )
