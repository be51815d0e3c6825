-- ===== src/TcpServer/Safety.antt =====
-- Net/TcpServer.cpp: the calls that make a connection and run its first functions.
use ioloop.Prelude.{
  same_text, ℕ, zero, suc, ◌+◌, ◌%◌, ◌^◌, ◌<◌, ◌≡◌, ◌⊎◌, refl, sym, ap, ◌∙◌, subst, List, [], ◌∷◌,
  ◌++◌, Option, none, some, Result, ok, ◌>>=◌, bind-ok, ok_same, Bool, true, ◌==◌, if◌then◌else◌,
  length, length-append, get_elem?, arith, Bool-cases, inl, inr,
}
use ioloop.LoopPool
use ioloop.LoopPool.{LoopPool, get_next_loop_of}
use ioloop.Connection.{Conn, new_connection, connect_established, connect_destroyed}
use ioloop.Connection.Life.{
  closes, Later-established, Later-destroyed, established_closes, destroyed_closes, new_closes,
}
use ioloop.TcpServer.{
  established_task, Object, assign, conn_name, TcpServer, start, accept, new_connection_of,
  established, destroyed, put, object_at,
}
use ioloop.TcpServer.Names.{same_name}
use ioloop.TcpServer.Entries.{entries, removals-append, Named, entries-assign}
use ioloop.TcpServer.Invariant.{naming, Held, Holds, no_pending}
use ioloop.TcpServer.Removal.{other-Holds, put-Holds}

-- The parts of a server that the invariant does not read.
pub frame-Holds :
    (s : TcpServer) (b : Bool) (n : ℕ) (p : LoopPool)
    → Holds no_pending s
    → Holds no_pending (record s { started = b; accepts = n; pool = p })
frame-Holds s b n p h = record {
  short = h.short;
  few = h.few;
  numbered = h.numbered;
  mapped = h.mapped;
  unknown = h.unknown;
  held = λ j o e.
      let m = h.held j o e in
      record {
        named = m.named;
        closed_once = m.closed_once;
        balance = m.balance;
        removing = m.removing;
      };
}

pub start-Holds :
    (new_loop : ℕ → ℕ) (s s' : TcpServer)
    → start new_loop s ≡ ok s'
    → Holds no_pending s
    → Holds no_pending s'
unfolding start accept
start-Holds new_loop s s' e h = elim (Bool-cases s.started) [
  | inl p ↦ subst (Holds no_pending) (ok_same s s' (ground (arith, e, p))) h
  | inr p ↦
      let goes_on : LoopPool → Result TcpServer =
        λ pool. ok (record s { started = true; accepts = s.accepts + 1; pool = pool }) in
      let rest : (LoopPool.run new_loop s.pool >>= goes_on) ≡ ok s' = ground (arith, e, p) in
      let (pool, q, f) = bind-ok (LoopPool.run new_loop s.pool) goes_on s' rest in
      subst (Holds no_pending) (ok_same _ s' f) (frame-Holds s true (s.accepts + 1) pool h)
]

pub established-Holds :
    (i : ℕ) (s s' : TcpServer) → established i s ≡ ok s' → Holds no_pending s → Holds no_pending s'
unfolding established
established-Holds i s s' e h = from (get_elem? s.objects i) refl e
  where
    from :
        (found : Option Object)
        → get_elem? s.objects i ≡ found
        → (object_at found >>= λ o. connect_established o.conn >>= λ conn. ok (put i o conn s))
          ≡ ok s'
        → Holds no_pending s'
    from none f k = absurd (ground (arith, k))
    from (some o) f k =
        let (conn, c, same) = bind-ok (connect_established o.conn) _ s' k in
        subst (Holds no_pending) (ok_same (put i o conn s) s' same) (
          put-Holds i o conn s no_pending f (Later-established o.conn conn c)
            (omega (arith, established_closes o.conn conn c)) (λ j n. refl) h)

pub destroyed-Holds :
    (i : ℕ) (s s' : TcpServer) → destroyed i s ≡ ok s' → Holds no_pending s → Holds no_pending s'
unfolding destroyed
destroyed-Holds i s s' e h = from (get_elem? s.objects i) refl e
  where
    from :
        (found : Option Object)
        → get_elem? s.objects i ≡ found
        → (object_at found >>= λ o. connect_destroyed o.conn >>= λ conn. ok (put i o conn s))
          ≡ ok s'
        → Holds no_pending s'
    from none f k = absurd (ground (arith, k))
    from (some o) f k =
        let (conn, c, same) = bind-ok (connect_destroyed o.conn) _ s' k in
        subst (Holds no_pending) (ok_same (put i o conn s) s' same) (
          put-Holds i o conn s no_pending f (Later-destroyed o.conn conn c)
            (omega (arith, destroyed_closes o.conn conn c)) (λ j n. refl) h)

-- A connection that was added is the last, and the others are where they were.
get_elem?-last :
    (xs : List Object) (x : Object) (j : ℕ) (y : Object)
    → get_elem? (xs ++ x ∷ []) j ≡ some y
    → ((j < length xs) × (get_elem? xs j ≡ some y)) ⊎ ((j ≡ length xs) × (x ≡ y))
get_elem?-last [] x zero y e = inr (refl, ground (arith, e))
get_elem?-last [] x (suc j) y e = absurd (ground (arith, e))
get_elem?-last (z ∷ zs) x zero y e = inl (omega arith, e)
get_elem?-last (z ∷ zs) x (suc j) y e = elim (get_elem?-last zs x j y e) [
  | inl (l, f) ↦ inl (omega (arith, l), f)
  | inr (l, f) ↦ inr (omega (arith, l), f)
]

-- The server with a connection added.
abbrev added : ℕ → Conn → TcpServer → TcpServer
added loop conn s =
    let o : Object = record {
      name = conn_name s.name s.ip_port s.next_conn_id;
      loop = loop;
      conn = conn;
    } in
    record s {
      next_conn_id = (s.next_conn_id + 1) % 2 ^ 32;
      connections = assign o.name (length s.objects) s.connections;
      objects = s.objects ++ o ∷ [];
    }

added-Holds :
    (loop : ℕ) (conn : Conn) (s : TcpServer)
    → closes conn.notices ≡ 0
    → suc (length s.objects) < 2 ^ 31
    → Holds no_pending s
    → Holds no_pending (added loop conn s)
added-Holds loop conn s fresh room h =
    let i : ℕ = length s.objects in
    let nm : conn_name s.name s.ip_port s.next_conn_id ≡ naming s i =
      ap (conn_name s.name s.ip_port) h.numbered in
    let d : (a b : ℕ) → a < suc i → b < suc i → same_text (naming s a) (naming s b) ≡ (a == b) =
      λ a b p q.
        same_name s.name s.ip_port (suc a) (suc b) h.short (omega (arith, p, room))
          (omega (arith, q, room))
        ∙ ground arith in
    let same : assign (naming s i) i s.connections ≡ (added loop conn s).connections =
      ap (λ m. assign m i s.connections) (sym nm) in
    let size : length (added loop conn s).objects ≡ suc i = omega (
      arith,
      length-append s.objects (
          (record { name = conn_name s.name s.ip_port s.next_conn_id; loop = loop; conn = conn })
          ∷ []),
    ) in
    let counted : (j : ℕ)
        → entries j (added loop conn s).connections
          ≡ (if i == j then 1 else entries j s.connections) =
      λ j.
        ap (entries j) (sym same)
        ∙ (entries-assign (naming s) (suc i) d i j s.connections refl h.mapped).0 in
    let mapped = (entries-assign (naming s) (suc i) d i 0 s.connections refl h.mapped).1 in
    record {
      short = h.short;
      few = omega (arith, size, room);
      numbered = omega (arith, size, room, h.numbered);
      mapped =
          subst (λ n. Named (naming s) n (added loop conn s).connections) (sym size)
            (subst (Named (naming s) (suc i)) same mapped);
      unknown = λ j p. h.unknown j (omega (arith, p, size));
      held = λ j o e. elim (get_elem?-last s.objects _ j o e) [
        | inl (l, f) ↦
            let m = h.held j o f in
            record {
              named = m.named;
              closed_once = m.closed_once;
              balance = ground (arith, counted j, l, m.balance);
              removing = m.removing;
            }
        | inr (l, f) ↦ subst (Held 0 (added loop conn s) j) f (record {
          named = nm ∙ ap (naming s) (sym l);
          closed_once = omega (arith, fresh);
          balance = ground (arith, counted j, l, fresh, h.unknown j (omega (arith, l)));
          removing = omega (arith, h.unknown j (omega (arith, l)));
        })
      ];
    }

-- A function that no invariant is about is posted.
posted-Holds :
    (i : ℕ) (s : TcpServer)
    → Holds no_pending s
    → Holds no_pending (record s { posted = s.posted ++ established_task i ∷ [] })
posted-Holds i s h =
    other-Holds (s.posted ++ established_task i ∷ []) s
      (λ j. removals-append j s.posted (established_task i ∷ []) ∙ omega arith) h

pub new_connection-Holds :
    (fd : ℕ) (s s' : TcpServer)
    → suc (length s.objects) < 2 ^ 31
    → new_connection_of fd s ≡ ok s'
    → Holds no_pending s
    → Holds no_pending s'
unfolding new_connection_of
new_connection-Holds fd s s' room e h =
    let (loop, q, e₁) = bind-ok (get_next_loop_of fd s.pool) _ s' e in
    let (conn, c, e₂) = bind-ok (new_connection s.has_connection_callback true) _ s' e₁ in
    let fresh = new_closes s.has_connection_callback true conn c in
    let grown = added-Holds loop conn s fresh room h in
    elim (Bool-cases (loop == s.base_loop)) [
      | inl p ↦
          established-Holds (length s.objects) (added loop conn s) s' (ground (arith, e₂, p)) grown
      | inr p ↦
          let f : ok (record (added loop conn s) {
            posted = s.posted ++ established_task (length s.objects) ∷ [];
          })
              ≡ ok s' =
            ground (arith, e₂, p) in
          subst (Holds no_pending) (ok_same _ s' f)
            (posted-Holds (length s.objects) (added loop conn s) grown)
    ]
