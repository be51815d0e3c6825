-- ===== src/TcpServer/Removal.antt =====
-- Net/TcpServer.cpp: the removal of a connection from the map.
use ioloop.Prelude.{
  ℕ_discrete, ℕ, ◌+◌, ◌≤◌, ◌<◌, ◌≡◌, ◌≢◌, refl, sym, ap, ◌∙◌, subst, List, [], ◌∷◌, ◌++◌, some, ok,
  ltb, length, get_elem?, set, length-set, get_elem?-set_self, get_elem?-set_ne, arith, Bool-cases,
  inl, inr,
}
use Prim.{yes, no}
use ioloop.Connection.{Conn}
use ioloop.Connection.Life.{closes, Later}
use ioloop.TcpServer.{
  Task, remove_task, destroyed_task, Object, erase, count, TcpServer,
  remove_connection_in_this_thread, put,
}
use ioloop.TcpServer.Entries.{
  entries, removals, removals-append, Named, count-entries, erase-Named, entries-erase,
}
use ioloop.TcpServer.Invariant.{
  naming, Held, Holds, no_pending, pending_at, get_elem?-lt, different,
}

-- A pending removal is made: the assertion holds, the connection leaves the map, and its
-- `connectDestroyed` is posted.
pub record Removed (i : ℕ) (s s' : TcpServer) : Type 0 where
  pub runs : remove_connection_in_this_thread i s ≡ ok s'
  pub gone : entries i s'.connections ≡ 0
  pub posts : s'.posted ≡ s.posted ++ destroyed_task i ∷ []
  pub holds : Holds no_pending s'

pub remove-Holds :
    (i : ℕ) (o : Object) (s : TcpServer)
    → get_elem? s.objects i ≡ some o
    → Holds (pending_at i) s
    → (s' : TcpServer) × Removed i s s'
unfolding remove_connection_in_this_thread
remove-Holds i o s e h =
    let n : ℕ = length s.objects in
    let l : i < n = get_elem?-lt s.objects i o e in
    let d = different s h.short h.few in
    let k = h.held i o e in
    let at : pending_at i i ≡ 1 = ground arith in
    let limit : closes o.conn.notices ≤ 1 = ground (arith, k.closed_once) in
    let once : entries i s.connections ≡ 1 = omega (arith, k.balance, k.removing, at, limit) in
    let counted = count-entries (naming s) n d i s.connections l h.mapped in
    let counts : count o.name s.connections ≡ 1 =
      ap (λ m. count m s.connections) k.named ∙ counted ∙ once in
    let erased : erase o.name s.connections ≡ erase (naming s i) s.connections =
      ap (λ m. erase m s.connections) k.named in
    let gone = entries-erase (naming s) n d i in
    let s' : TcpServer = record s {
      connections = erase (naming s i) s.connections;
      posted = s.posted ++ destroyed_task i ∷ [];
    } in
    (
      s',
      record {
        runs = ground (arith, e, counts, erased);
        gone = gone i s.connections l h.mapped ∙ ground arith;
        posts = refl;
        holds = record {
          short = h.short;
          few = h.few;
          numbered = h.numbered;
          mapped = erase-Named (naming s) n d i s.connections l h.mapped;
          unknown = λ j p.
              removals-append j s.posted (destroyed_task i ∷ []) ∙ omega (arith, h.unknown j p);
          held = λ j o' e'.
              let m = h.held j o' e' in
              let r = removals-append j s.posted (destroyed_task i ∷ []) in
              let g = gone j s.connections l h.mapped in
              let limit' : closes o'.conn.notices ≤ 1 = ground (arith, m.closed_once) in
              record {
                named = m.named;
                closed_once = m.closed_once;
                balance = ground (arith, g, r, m.balance, m.removing, limit');
                removing = ground (arith, g, r, m.balance, m.removing, limit');
              };
        };
      },
    )

-- A removal is posted instead.
pub post-Holds :
    (i : ℕ) (o : Object) (s : TcpServer)
    → get_elem? s.objects i ≡ some o
    → Holds (pending_at i) s
    → Holds no_pending (record s { posted = s.posted ++ remove_task i ∷ [] })
post-Holds i o s e h =
    let l = get_elem?-lt s.objects i o e in
    record {
      short = h.short;
      few = h.few;
      numbered = h.numbered;
      mapped = h.mapped;
      unknown = λ j p.
          removals-append j s.posted (remove_task i ∷ []) ∙ ground (arith, l, p, h.unknown j p);
      held = λ j o' e'.
          let m = h.held j o' e' in
          let r = removals-append j s.posted (remove_task i ∷ []) in
          record {
            named = m.named;
            closed_once = m.closed_once;
            balance = ground (arith, r, m.balance);
            removing = ground (arith, r, m.removing);
          };
    }

-- The oldest, or any other, posted removal is taken to be made.
pub taken-Holds :
    (before : List Task) (i : ℕ) (after : List Task) (s : TcpServer)
    → s.posted ≡ before ++ remove_task i ∷ after
    → Holds no_pending s
    → (i < length s.objects) × Holds (pending_at i) (record s { posted = before ++ after })
taken-Holds before i after s e h =
    let split : (j : ℕ) → removals j s.posted ≡ removals j (before ++ after) + pending_at i j = λ j.
      ap (removals j) e
      ∙ ground (
        arith,
        removals-append j before (remove_task i ∷ after),
        removals-append j before after,
      ) in
    (
      elim (Bool-cases (ltb i (length s.objects))) [
        | inl p ↦ ground (arith, p)
        | inr p ↦ absurd (ground (arith, split i, h.unknown i (ground (arith, p))))
      ],
      record {
        short = h.short;
        few = h.few;
        numbered = h.numbered;
        mapped = h.mapped;
        unknown = λ j p. omega (arith, split j, h.unknown j p);
        held = λ j o' e'.
            let m = h.held j o' e' in
            record {
              named = m.named;
              closed_once = m.closed_once;
              balance = omega (arith, m.balance, split j);
              removing = omega (arith, m.removing, split j);
            };
      },
    )

-- A posted function that is no removal.
pub other-Holds :
    (ts : List Task) (s : TcpServer)
    → ((j : ℕ) → removals j ts ≡ removals j s.posted)
    → Holds no_pending s
    → Holds no_pending (record s { posted = ts })
other-Holds ts s same h = record {
  short = h.short;
  few = h.few;
  numbered = h.numbered;
  mapped = h.mapped;
  unknown = λ j p. same j ∙ h.unknown j p;
  held = λ j o e.
      let m = h.held j o e in
      record {
        named = m.named;
        closed_once = m.closed_once;
        balance = omega (arith, m.balance, same j);
        removing = omega (arith, m.removing, same j);
      };
}

some_same : (o o' : Object) → some o ≡ some o' → o ≡ o'
some_same o o' e = ground (arith, e)

-- A function of a connection runs: what it adds to the calls of the close callback is pending.
pub put-Holds :
    (i : ℕ) (o : Object) (conn : Conn) (s : TcpServer) (pending : ℕ → ℕ)
    → get_elem? s.objects i ≡ some o
    → Later o.conn conn
    → closes conn.notices ≡ closes o.conn.notices + pending i
    → ((j : ℕ) → i ≢ j → pending j ≡ 0)
    → Holds no_pending s
    → Holds pending (put i o conn s)
put-Holds i o conn s pending e later grown others h =
    let k = h.held i o e in
    let o₁ : Object = record o { conn = conn } in
    let size = length-set s.objects i o₁ in
    let l = get_elem?-lt s.objects i o e in
    record {
      short = h.short;
      few = omega (arith, h.few, size);
      numbered = omega (arith, h.numbered, size);
      mapped = subst (λ n. Named (naming s) n s.connections) (sym size) h.mapped;
      unknown = λ j p. h.unknown j (omega (arith, p, size));
      held = λ j o' e'. elim (ℕ_discrete i j) [
        | yes q ↦
            subst
              (λ m.
                get_elem? (set s.objects i o₁) m ≡ some o' → Held (pending m) (put i o conn s) m o')
              q
              (λ at.
                subst (Held (pending i) (put i o conn s) i)
                  (some_same o₁ o' (sym (get_elem?-set_self s.objects i o₁ l) ∙ at))
                  (record {
                    named = k.named;
                    closed_once = later.once k.closed_once;
                    balance = omega (arith, k.balance, grown);
                    removing = omega (arith, k.removing, grown);
                  }))
              e'
        | no q ↦
            let m = h.held j o' (sym (get_elem?-set_ne s.objects o₁ q) ∙ e') in
            let none_here = others j q in
            record {
              named = m.named;
              closed_once = m.closed_once;
              balance = omega (arith, m.balance, none_here);
              removing = omega (arith, m.removing, none_here);
            }
      ];
    }
