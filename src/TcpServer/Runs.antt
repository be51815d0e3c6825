-- ===== src/TcpServer/Runs.antt =====
-- Net/TcpServer.cpp: what holds in any run of a server and its connections.
use ioloop.Prelude.{
  get_elem?-set_self, ℕ, zero, suc, ◌+◌, ◌-◌, ◌^◌, ◌≤◌, ◌<◌, ◌≡◌, refl, sym, ap, ◌∙◌, subst, List,
  [], ◌∷◌, ◌++◌, Option, none, some, ok, bind-ok, ok_same, Bool, ltb, ◌==◌, length, get_elem?,
  arith, Bool-cases, inl, inr,
}
use ioloop.Buffer.Ints.{ByteOrder}
use ioloop.Connection.{Conn}
use ioloop.Connection.Life.{closes, Later, Step-Later}
use ioloop.TcpServer.{
  Task, remove_task, established_task, destroyed_task, Object, TcpServer, new_server,
  set_thread_num, accept, on_accept, new_connection_of, run_task, remove_connection, put,
}
use ioloop.TcpServer.Entries.{removals, removals-append}
use ioloop.TcpServer.Invariant.{
  moved, ServerStep, threads_set, was_started, accepted, ran, went_on, Reach, here, next, Holds,
  no_pending, pending_at, get_elem?-lt,
}
use ioloop.TcpServer.Removal.{
  Removed, remove-Holds, post-Holds, taken-Holds, other-Holds, put-Holds,
}
use ioloop.TcpServer.Safety.{
  start-Holds, established-Holds, destroyed-Holds, new_connection-Holds, frame-Holds,
}

accept-Holds :
    (fd : Option ℕ) (s s' : TcpServer)
    → suc (length s.objects) < 2 ^ 31
    → on_accept fd s ≡ ok s'
    → Holds no_pending s
    → Holds no_pending s'
unfolding on_accept accept
accept-Holds none s s' room e h =
    subst (Holds no_pending) (ok_same _ s' e)
      (frame-Holds s s.started ((s.accepts - 1) + 1) s.pool h)
accept-Holds (some fd) s s' room e h =
    let s₀ : TcpServer = record s { accepts = s.accepts - 1 } in
    let (s₁, q, f) = bind-ok (new_connection_of fd s₀) _ s' e in
    let h₀ = frame-Holds s s.started (s.accepts - 1) s.pool h in
    let h₁ = new_connection-Holds fd s₀ s₁ room q h₀ in
    subst (Holds no_pending) (ok_same _ s' f)
      (frame-Holds s₁ s₁.started (s₁.accepts + 1) s₁.pool h₁)

-- A posted removal runs, and its assertion holds.
removal_runs :
    (before : List Task) (i : ℕ) (after : List Task) (s : TcpServer)
    → s.posted ≡ before ++ remove_task i ∷ after
    → Holds no_pending s
    → (s' : TcpServer) × Removed i (record s { posted = before ++ after }) s'
removal_runs before i after s e h =
    let (l, h₁) = taken-Holds before i after s e h in
    let (o, f) = found s.objects i l in
    remove-Holds i o (record s { posted = before ++ after }) f h₁
  where
    found : (xs : List Object) (j : ℕ) → j < length xs → (o : Object) × (get_elem? xs j ≡ some o)
    found [] j l = absurd (omega (arith, l))
    found (x ∷ xs) zero l = (x, refl)
    found (x ∷ xs) (suc j) l = found xs j (omega (arith, l))

ran-Holds :
    (before : List Task) (t : Task) (after : List Task) (s s' : TcpServer)
    → s.posted ≡ before ++ t ∷ after
    → run_task t (record s { posted = before ++ after }) ≡ ok s'
    → Holds no_pending s
    → Holds no_pending s'
unfolding run_task
ran-Holds before (remove_task i) after s s' e r h =
    let (s₁, m) = removal_runs before i after s e h in
    subst (Holds no_pending) (ok_same s₁ s' (sym m.runs ∙ r)) m.holds
ran-Holds before (established_task i) after s s' e r h =
    let split : (j : ℕ) → removals j (before ++ after) ≡ removals j s.posted = λ j.
      removals-append j before after
      ∙ sym (removals-append j before (established_task i ∷ after))
      ∙ sym (ap (removals j) e) in
    established-Holds i (record s { posted = before ++ after }) s' r
      (other-Holds (before ++ after) s split h)
ran-Holds before (destroyed_task i) after s s' e r h =
    let split : (j : ℕ) → removals j (before ++ after) ≡ removals j s.posted = λ j.
      removals-append j before after
      ∙ sym (removals-append j before (destroyed_task i ∷ after))
      ∙ sym (ap (removals j) e) in
    destroyed-Holds i (record s { posted = before ++ after }) s' r
      (other-Holds (before ++ after) s split h)

-- A connection goes on, and if that closes it, its removal succeeds or is posted.
moved-runs :
    (i : ℕ) (o : Object) (conn : Conn) (s : TcpServer)
    → get_elem? s.objects i ≡ some o
    → Later o.conn conn
    → Holds no_pending s
    → (s' : TcpServer) × (moved i o conn s ≡ ok s') × Holds no_pending s'
unfolding remove_connection
moved-runs i o conn s e later h =
    let k = h.held i o e in
    let bound : closes conn.notices ≤ 1 = ground (arith, later.once k.closed_once) in
    let at : get_elem? (put i o conn s).objects i ≡ some (record o { conn = conn }) =
      get_elem?-set_self s.objects i (record o { conn = conn }) (get_elem?-lt s.objects i o e) in
    elim (Bool-cases (ltb (closes o.conn.notices) (closes conn.notices))) [
      | inl p ↦
          let one : closes conn.notices ≡ closes o.conn.notices + pending_at i i =
            ground (arith, p, bound) in
          let h₁ = put-Holds i o conn s (pending_at i) e later one (λ j n. ground (arith, n)) h in
          let (s₁, m) = remove-Holds i (record o { conn = conn }) (put i o conn s) at h₁ in
          elim (Bool-cases (o.loop == s.base_loop)) [
            | inl q ↦ (s₁, ground (arith, p, q, m.runs), m.holds)
            | inr q ↦ (
              record (put i o conn s) { posted = s.posted ++ remove_task i ∷ [] },
              ground (arith, p, q),
              post-Holds i (record o { conn = conn }) (put i o conn s) at h₁,
            )
          ]
      | inr p ↦
          let same : closes conn.notices ≡ closes o.conn.notices + 0 =
            ground (arith, p, later.grows) in
          (
            put i o conn s,
            ground (arith, p),
            put-Holds i o conn s no_pending e later same (λ j n. refl) h,
          )
    ]

module _ (net : ByteOrder) where
  step-Holds : (s s' : TcpServer) → ServerStep net s s' → Holds no_pending s → Holds no_pending s'
  unfolding set_thread_num
  step-Holds s s' (threads_set n e) h =
      subst (Holds no_pending) (sym e) (frame-Holds s s.started s.accepts _ h)
  step-Holds s s' (was_started new_loop e) h = start-Holds new_loop s s' e h
  step-Holds s s' (accepted fd room e) h = accept-Holds fd s s' room e h
  step-Holds s s' (ran before t after e r) h = ran-Holds before t after s s' e r h
  step-Holds s s' (went_on i o bs conn e t r) h =
      let (s₁, m, h₁) = moved-runs i o conn s e (Step-Later net t) h in
      subst (Holds no_pending) (ok_same s₁ s' (sym m ∙ r)) h₁

  new-Holds :
      (loop : ℕ) (ip name : List ℕ) (cb : Bool)
      → length ip ≤ 51
      → Holds no_pending (new_server loop ip name cb)
  unfolding new_server
  new-Holds loop ip name cb l = record {
    short = l;
    few = omega arith;
    numbered = refl;
    mapped = tt;
    unknown = λ j p. refl;
    held = λ j o e. absurd (ground (arith, e));
  }

  -- In any run of a server and its connections, with the loops' functions run in whatever order,
  -- a connection is in the map of the server exactly once until its close callback was called and
  -- its removal ran, its close callback is called at most once, and a removal is posted only after
  -- that call. Every connection, and every entry of the map, has the name that its number gives.
  -- The text of the server's address has at most 51 characters, and fewer than 2^31 connections are
  -- made.
  pub Reach-Holds :
      (loop : ℕ) (ip name : List ℕ) (cb : Bool) (s : TcpServer)
      → length ip ≤ 51
      → Reach net (new_server loop ip name cb) s
      → Holds no_pending s
  Reach-Holds loop ip name cb s l here = new-Holds loop ip name cb l
  Reach-Holds loop ip name cb s l (next {s₁ = s₁} r t) =
      step-Holds s₁ s t (Reach-Holds loop ip name cb s₁ l r)

  -- In any run, whenever a removal is posted, it runs without failing the assertion that exactly
  -- one entry was erased, whatever else was posted: the connection is then out of the map, and its
  -- `connectDestroyed` is posted. The text of the server's address has at most 51 characters, and
  -- fewer than 2^31 connections are made.
  pub Reach-Removed :
      (loop : ℕ) (ip name : List ℕ) (cb : Bool) (s : TcpServer) (before : List Task) (i : ℕ)
      (after : List Task)
      → length ip ≤ 51
      → Reach net (new_server loop ip name cb) s
      → s.posted ≡ before ++ remove_task i ∷ after
      → (s' : TcpServer) × Removed i (record s { posted = before ++ after }) s'
  Reach-Removed loop ip name cb s before i after l r e =
      removal_runs before i after s e (Reach-Holds loop ip name cb s l r)
