-- ===== src/Connection/Stream.antt =====
-- Net/TcpConnection.cpp: what is accepted for sending goes to the socket once and in order.
use ioloop.Prelude.{
  max, ◌≢◌, ℕ, ◌+◌, ◌^◌, ◌≤◌, ◌<◌, ◌≡◌, refl, sym, ap, ap₂, ◌∙◌, subst, List, [], ◌∷◌, ◌++◌,
  append-nil, append_assoc, none, some, ok, arith, Bool, true, false, length, length-append, take,
  drop, take_all, drop-append_exact, ◌==◌, if◌then◌else◌,
}
use ioloop.Buffer.{Buffer, readable_bytes, peek, max_store, append, retrieve}
use ioloop.Buffer.Space.{contents}
use ioloop.Buffer.Contents.{Holds, Holds-length, append-Holds, retrieve-Holds, peek-take}
use ioloop.Connection.Steps.{starts_empty}
use ioloop.Connection.{
  Conn, State, send_in_this_thread, on_write, shutdown_in_this_thread, later_writes,
}

-- At most one write is under way, of bytes that stand at the front of the output buffer, and one is
-- not under way when the buffer is empty.
abbrev pub IsUnderWay : List (List ℕ) → List ℕ → Type 0
IsUnderWay [] xs = Unit {0}
IsUnderWay (s ∷ []) xs = (0 < length s) × (more : List ℕ) × (xs ≡ s ++ more)
IsUnderWay (s ∷ t ∷ rest) xs = ⊥

pub record OutInv (c : Conn) : Type 0 where
  pub pending : List ℕ
  pub holds : Holds c.output pending
  pub under_way : IsUnderWay c.in_flight pending

-- Everything accepted so far: what is written, and what waits in the output buffer.
abbrev pub stream : Conn → List ℕ
stream c = c.wire ++ contents c.output

-- A step that accepts `bs` keeps the invariant and adds them at the end of the stream.
pub record Accepts (c : Conn) (bs : List ℕ) (c' : Conn) : Type 0 where
  pub inv : OutInv c'
  pub extends : stream c' ≡ stream c ++ bs

readable-length : {b : Buffer} {xs : List ℕ} → Holds b xs → readable_bytes b ≡ length xs
readable-length h = omega (arith, Holds-length h, h.valid)

whole : {b : Buffer} {xs : List ℕ} → Holds b xs → take (readable_bytes b) (peek b) ≡ xs
whole {b} {xs} h =
    ap (λ k. take k (peek b)) (readable-length h)
    ∙ peek-take (length xs) h (omega arith)
    ∙ take_all (length xs) xs (omega arith)

-- A connection whose output side is left alone.
pub Accepts-same :
    {c : Conn} (c' : Conn)
    → OutInv c
    → c'.output ≡ c.output
    → c'.in_flight ≡ c.in_flight
    → c'.wire ≡ c.wire
    → Accepts c [] c'
Accepts-same {c} c' v o f w = record {
  inv = record {
    pending = v.pending;
    holds = subst (λ b. Holds b v.pending) (sym o) v.holds;
    under_way = subst (λ k. IsUnderWay k v.pending) (sym f) v.under_way;
  };
  extends = ap₂ (λ p q. p ++ contents q) w o ∙ sym (append-nil (stream c));
}

-- The append of `sendInThisThread`, and the write that it starts on an idle connection.
send_in_this_thread_steps :
    (m : List ℕ) (c c' : Conn) (b : Buffer)
    → c.state ≢ State.disconnected
    → length m < 2 ^ 31
    → append m (length m) c.output ≡ ok b
    → send_in_this_thread m c ≡ ok c'
    → (c'.output ≡ b)
      × (c'.wire ≡ c.wire)
      × (c'.in_flight ≡ (
          if readable_bytes c.output == 0
          then c.in_flight ++ take (readable_bytes b) (peek b) ∷ []
          else c.in_flight))
unfolding send_in_this_thread
send_in_this_thread_steps m c c' b live small e r = (ground arith, ground arith, ground arith)

grow-IsUnderWay : (f : List (List ℕ)) (xs ys : List ℕ) → IsUnderWay f xs → IsUnderWay f (xs ++ ys)
grow-IsUnderWay [] xs ys u = tt
grow-IsUnderWay (s ∷ []) xs ys u = (u.0, u.1 ++ ys, ap (λ l. l ++ ys) u.2 ∙ append_assoc s u.1 ys)
grow-IsUnderWay (s ∷ t ∷ rest) xs ys u = u

-- A write that starts when none is under way.
start-IsUnderWay :
    (f : List (List ℕ)) (s xs : List ℕ)
    → f ≡ []
    → s ≡ xs
    → 0 < length xs
    → IsUnderWay (f ++ s ∷ []) xs
start-IsUnderWay f s xs e q l =
    subst (λ g. IsUnderWay (g ++ s ∷ []) xs) (sym e)
      (omega (arith, l, ap length q), [], sym q ∙ sym (append-nil s))

idle_flight : (f : List (List ℕ)) (xs : List ℕ) → length xs ≡ 0 → IsUnderWay f xs → f ≡ []
idle_flight [] xs e u = refl
idle_flight (s ∷ []) xs e u = absurd (omega (arith, e, u.0, ap length u.2, length-append s u.1))
idle_flight (s ∷ t ∷ rest) xs e u = absurd u

-- On a connection that is not closed `sendInThisThread` accepts the whole message.
pub send_in_this_thread-Accepts :
    {c : Conn} {c' : Conn} (m : List ℕ)
    → OutInv c
    → c.state ≢ State.disconnected
    → length m < 2 ^ 31
    → c.output.writer + length m ≤ max_store
    → starts_empty m c ≡ false
    → send_in_this_thread m c ≡ ok c'
    → Accepts c m c'
send_in_this_thread-Accepts {c} {c'} m v live small fit full r =
    let (b, e, h, x) = append-Holds m v.holds fit in
    let (o, w, f) = send_in_this_thread_steps m c c' b live small e r in
    record {
      inv = record {
        pending = v.pending ++ m;
        holds = subst (λ k. Holds k (v.pending ++ m)) (sym o) h;
        under_way =
            subst (λ k. IsUnderWay k (v.pending ++ m)) (sym f)
              (started b h (readable_bytes c.output == 0) refl);
      };
      extends =
          ap₂ ◌++◌ w (ap contents o ∙ h.bytes ∙ ap (λ l. l ++ m) (sym v.holds.bytes))
          ∙ sym (append_assoc c.wire (contents c.output) m);
    }
  where
    started :
        (b : Buffer)
        → Holds b (v.pending ++ m)
        → (is_idle : Bool) → (readable_bytes c.output == 0) ≡ is_idle
        → IsUnderWay
            (if is_idle then c.in_flight ++ take (readable_bytes b) (peek b) ∷ [] else c.in_flight)
            (v.pending ++ m)
    started b h true e =
        let nothing : length v.pending ≡ 0 = ground (arith, e, readable-length v.holds) in
        let some_bytes : 0 < length m = ground (arith, e, full) in
        start-IsUnderWay c.in_flight (take (readable_bytes b) (peek b)) (v.pending ++ m)
          (idle_flight c.in_flight v.pending nothing v.under_way) (whole h)
          (omega (arith, some_bytes, length-append v.pending m))
    started b h false e = grow-IsUnderWay c.in_flight v.pending m v.under_way

on_write_steps :
    (n : ℕ) (s : List ℕ) (rest : List (List ℕ)) (c c' : Conn) (b : Buffer)
    → c.in_flight ≡ s ∷ rest
    → retrieve n c.output ≡ ok b
    → on_write (some n) c ≡ ok c'
    → (c'.output ≡ b)
      × (c'.wire ≡ c.wire ++ take n s)
      × (c'.in_flight
          ≡ (if readable_bytes b == 0 then rest else rest ++ take (readable_bytes b) (peek b) ∷ []))
unfolding on_write shutdown_in_this_thread
on_write_steps n s rest c c' b f e r = (ground arith, ground arith, ground arith)

-- A write that completes moves its bytes from the output buffer to the socket.
pub on_write-Accepts :
    {c : Conn} {c' : Conn} (s : List ℕ) (rest : List (List ℕ))
    → OutInv c
    → c.in_flight ≡ s ∷ rest
    → on_write (some (length s)) c ≡ ok c'
    → Accepts c [] c'
on_write-Accepts {c} {c'} s rest v f r = record {
  inv = record {
    pending = more;
    holds = subst (λ k. Holds k more) (sym o) left;
    under_way = subst (λ k. IsUnderWay k more) (sym g) (started (readable_bytes b == 0) refl);
  };
  extends =
      ap₂ ◌++◌ (w ∙ ap (λ l. c.wire ++ l) (take_all (length s) s (omega arith)))
        (ap contents o ∙ left.bytes)
      ∙ append_assoc c.wire s more
      ∙ ap (λ l. c.wire ++ l) (sym split ∙ sym v.holds.bytes)
      ∙ sym (append-nil (stream c));
}
  where
    front : (rest ≡ []) × (more : List ℕ) × (v.pending ≡ s ++ more)
    front = only rest (subst (λ k. IsUnderWay k v.pending) f v.under_way)
      where
        only :
            (later : List (List ℕ))
            → IsUnderWay (s ∷ later) v.pending
            → (later ≡ []) × (more : List ℕ) × (v.pending ≡ s ++ more)
        only [] u = (refl, u.1, u.2)
        only (t ∷ later) u = absurd u

    more : List ℕ
    more = front.1

    split : v.pending ≡ s ++ more
    split = front.2

    taken :
        (b : Buffer) × (retrieve (length s) c.output ≡ ok b)
        × Holds b (drop (length s) v.pending)
        × (b.writer ≤ max c.output.writer 8)
    taken = retrieve-Holds (length s) v.holds (omega (arith, ap length split, length-append s more))

    b : Buffer
    b = taken.0

    left : Holds b more
    left =
        subst (Holds b) (ap (drop (length s)) split ∙ drop-append_exact (length s) s more refl)
          taken.2

    steps :
        (c'.output ≡ b)
        × (c'.wire ≡ c.wire ++ take (length s) s)
        × (c'.in_flight ≡ (
            if readable_bytes b == 0 then rest else rest ++ take (readable_bytes b) (peek b) ∷ []))
    steps = on_write_steps (length s) s rest c c' b f taken.1 r

    o : c'.output ≡ b
    o = steps.0

    w : c'.wire ≡ c.wire ++ take (length s) s
    w = steps.1

    g :
        c'.in_flight
        ≡ (if readable_bytes b == 0 then rest else rest ++ take (readable_bytes b) (peek b) ∷ [])
    g = steps.2

    started :
        (done : Bool)
        → (readable_bytes b == 0) ≡ done
        → IsUnderWay (if done then rest else rest ++ take (readable_bytes b) (peek b) ∷ []) more
    started true e = subst (λ k. IsUnderWay k more) (sym front.0) tt
    started false e =
        start-IsUnderWay rest (take (readable_bytes b) (peek b)) more front.0 (whole left)
          (ground (arith, e, readable-length left))

later-IsUnderWay :
    (f : List (List ℕ)) (xs : List ℕ) → IsUnderWay f xs → IsUnderWay (later_writes f) xs
later-IsUnderWay [] xs u = tt
later-IsUnderWay (s ∷ []) xs u = tt
later-IsUnderWay (s ∷ t ∷ rest) xs u = absurd u

-- A write that fails leaves its bytes in the output buffer.
pub on_write_failed-Accepts :
    {c : Conn} {c' : Conn} → OutInv c → on_write none c ≡ ok c' → Accepts c [] c'
unfolding on_write
on_write_failed-Accepts {c} {c'} v r = record {
  inv = record {
    pending = v.pending;
    holds = subst (λ b. Holds b v.pending) (sym same) v.holds;
    under_way =
        subst (λ k. IsUnderWay k v.pending) (sym gone)
          (later-IsUnderWay c.in_flight v.pending v.under_way);
  };
  extends = ap₂ (λ p q. p ++ contents q) kept same ∙ sym (append-nil (stream c));
}
  where
    same : c'.output ≡ c.output
    same = ground arith

    gone : c'.in_flight ≡ later_writes c.in_flight
    gone = ground arith

    kept : c'.wire ≡ c.wire
    kept = ground arith
