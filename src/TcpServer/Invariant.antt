-- ===== src/TcpServer/Invariant.antt =====
-- Net/TcpServer.cpp: the steps of a server and its connections, and what holds of each connection.
use ioloop.Prelude.{
  same_text, ℕ, zero, suc, ◌+◌, ◌^◌, ◌≤◌, ◌<◌, ◌≡◌, ◌∙◌, List, [], ◌∷◌, ◌++◌, Option, some, Result,
  ok, ltb, ◌==◌, if◌then◌else◌, length, get_elem?, arith,
}
use ioloop.Buffer.Ints.{ByteOrder}
use ioloop.Connection.{Conn}
use ioloop.Connection.Steps.{Step}
use ioloop.Connection.Life.{closes, closed}
use ioloop.TcpServer.{
  Task, Object, TcpServer, set_thread_num, start, on_accept, run_task, remove_connection, conn_name,
  put,
}
use ioloop.TcpServer.Names.{same_name}
use ioloop.TcpServer.Entries.{entries, removals, Named}

-- The name of the connection with an index.
abbrev pub naming : TcpServer → ℕ → List ℕ
naming s i = conn_name s.name s.ip_port (suc i)

-- What a step of a connection makes of the server: when its close callback was called, it is
-- `removeConnection`, on the thread of the connection's loop.
abbrev pub moved : ℕ → Object → Conn → TcpServer → Result TcpServer
moved i o conn s =
    if ltb (closes o.conn.notices) (closes conn.notices)
    then remove_connection (o.loop == s.base_loop) i (put i o conn s)
    else ok (put i o conn s)

-- One step: a call of the server, an accept that comes back, a posted function, in whatever order,
-- or a step of a connection.
pub data ServerStep (net : ByteOrder) (s s' : TcpServer) : Type 0 where
  threads_set : (n : ℕ) → s' ≡ set_thread_num n s → ServerStep net s s'
  was_started : (new_loop : ℕ → ℕ) → start new_loop s ≡ ok s' → ServerStep net s s'
  accepted :
      (fd : Option ℕ)
      → suc (length s.objects) < 2 ^ 31
      → on_accept fd s ≡ ok s'
      → ServerStep net s s'
  ran :
      (before : List Task) (t : Task) (after : List Task)
      → s.posted ≡ before ++ t ∷ after
      → run_task t (record s { posted = before ++ after }) ≡ ok s'
      → ServerStep net s s'
  went_on :
      (i : ℕ) (o : Object) (bs : List ℕ) (conn : Conn)
      → get_elem? s.objects i ≡ some o
      → Step net o.conn bs conn
      → moved i o conn s ≡ ok s'
      → ServerStep net s s'

pub data Reach (net : ByteOrder) (s : TcpServer) : TcpServer → Type 0 where
  here : Reach net s s
  next : {s₁ : TcpServer} {s₂ : TcpServer} → Reach net s s₁ → ServerStep net s₁ s₂ → Reach net s s₂

-- A connection is in the map once until its close callback was called and its removal ran, and a
-- removal is posted only for a closed connection that is in the map. `pending` counts removals that
-- are about to be made.
pub record Held (pending : ℕ) (s : TcpServer) (i : ℕ) (o : Object) : Type 0 where
  pub named : o.name ≡ naming s i
  pub closed_once : closes o.conn.notices ≤ closed o.conn.state
  pub balance : entries i s.connections + closes o.conn.notices ≡ 1 + removals i s.posted + pending
  pub removing : removals i s.posted + pending ≤ closes o.conn.notices

pub record Holds (pending : ℕ → ℕ) (s : TcpServer) : Type 0 where
  pub short : length s.ip_port ≤ 51
  pub few : length s.objects < 2 ^ 31
  pub numbered : s.next_conn_id ≡ suc (length s.objects)
  pub mapped : Named (naming s) (length s.objects) s.connections
  pub unknown : (i : ℕ) → length s.objects ≤ i → removals i s.posted ≡ 0
  pub held : (i : ℕ) (o : Object) → get_elem? s.objects i ≡ some o → Held (pending i) s i o

abbrev pub no_pending : ℕ → ℕ
no_pending i = 0

abbrev pub pending_at : ℕ → ℕ → ℕ
pending_at i j = if i == j then 1 else 0

pub get_elem?-lt :
    {A : Type 0} (xs : List A) (i : ℕ) (x : A) → get_elem? xs i ≡ some x → i < length xs
get_elem?-lt [] i x h = absurd (ground (arith, h))
get_elem?-lt (y ∷ ys) zero x h = omega arith
get_elem?-lt (y ∷ ys) (suc i) x h = omega (arith, get_elem?-lt ys i x h)

pub different :
    (s : TcpServer)
    → length s.ip_port ≤ 51
    → length s.objects < 2 ^ 31
    → (i j : ℕ) → i < length s.objects
    → j < length s.objects
    → same_text (naming s i) (naming s j) ≡ (i == j)
different s h k i j p q =
    same_name s.name s.ip_port (suc i) (suc j) h (omega (arith, p, k)) (omega (arith, q, k))
    ∙ ground arith
