-- ===== src/Connector/Backoff.antt =====
-- Net/Connector.cpp: the delays between attempts, and what `stop` stops.
use ioloop.Prelude.{
  ◌+◌, some, ℕ, suc, ◌*◌, ◌^◌, ◌≡◌, refl, sym, ap, ◌∙◌, min, List, [], ◌∷◌, ◌++◌, append-nil,
  append_assoc, none, Result, ok, ◌>>=◌, arith, true,
}
use ioloop.Connector.{
  check_connection, success, Connector, disconnected, Error, retries, branch, on_branch, connect,
  retry, start_in_this_thread, restart, on_connect, init_retry_delay_ms, max_retry_delay_ms,
}

-- The delay after `n` failed attempts.
abbrev pub delay : ℕ → ℕ
delay n = min (init_retry_delay_ms * 2 ^ n) max_retry_delay_ms

-- The delays of the attempts that fail with these errors, `n` having failed before.
abbrev pub delays : ℕ → List Error → List ℕ
delays n [] = []
delays n (e ∷ es) = delay n ∷ delays (suc n) es

abbrev pub AllRetry : List Error → Type 0
AllRetry [] = Unit {0}
AllRetry (e ∷ es) = (branch e ≡ retries) × AllRetry es

-- The scheduled attempts run, and each fails with its error.
pub attempts : List Error → Connector → Result Connector
attempts [] c = ok c
attempts (e ∷ es) c = do c' ← start_in_this_thread c; attempts es (on_connect e none c')

-- A connector that waits for its next attempt, `n` having failed.
record Waiting (n : ℕ) (c : Connector) : Type 0 where
  state : c.state ≡ disconnected
  wants : c.wants_connect ≡ true
  next : c.retry_delay_ms ≡ delay n

double : (n : ℕ) → min (delay n * 2) max_retry_delay_ms ≡ delay (suc n)
double n = omega arith

attempt :
    (n : ℕ) (e : Error) (c : Connector)
    → Waiting n c
    → branch e ≡ retries
    → (c' : Connector) × (start_in_this_thread c ≡ ok c')
      × Waiting (suc n) (on_connect e none c')
      × ((on_connect e none c').scheduled ≡ c.scheduled ++ delay n ∷ [])
      × ((on_connect e none c').handed ≡ c.handed)
unfolding start_in_this_thread on_connect connect on_branch retry
attempt n e c w b = (
  connect c,
  ground (arith, w.state, w.wants),
  record {
    state = ground (arith, b, w.wants);
    wants = ground (arith, b, w.wants);
    next = ground (arith, b, w.wants, w.next, double n);
  },
  ground (arith, b, w.wants, w.next),
  ground (arith, b, w.wants),
)

attempts_lem :
    (es : List Error) (n : ℕ) (c : Connector)
    → Waiting n c
    → AllRetry es
    → (c' : Connector) × (attempts es c ≡ ok c')
      × (c'.scheduled ≡ c.scheduled ++ delays n es)
      × (c'.handed ≡ c.handed)
unfolding attempts
attempts_lem [] n c w a = (c, refl, sym (append-nil c.scheduled), refl)
attempts_lem (e ∷ es) n c w a =
    let (c₁, e₁, w₁, s₁, h₁) = attempt n e c w a.0 in
    let (c₂, e₂, s₂, h₂) = attempts_lem es (suc n) (on_connect e none c₁) w₁ a.1 in
    (
      c₂,
      ground (arith, e₁, e₂),
      s₂
          ∙ ap (λ l. l ++ delays (suc n) es) s₁
          ∙ append_assoc c.scheduled (delay n ∷ []) (delays (suc n) es),
      h₂ ∙ h₁,
    )

-- After `restart`, when the first attempt and those that follow fail in a way that is retried,
-- each is followed by the next after a second, two, four and so on, but never more than thirty
-- seconds, and no connection is handed out.
pub restart-attempts :
    (e : Error) (es : List Error) (c : Connector)
    → AllRetry (e ∷ es)
    → (c₁ : Connector) × (c' : Connector) × (restart c ≡ ok c₁)
      × (attempts es (on_connect e none c₁) ≡ ok c')
      × (c'.scheduled ≡ c.scheduled ++ delays 0 (e ∷ es))
      × (c'.handed ≡ c.handed)
unfolding restart
restart-attempts e es c a =
    let c₀ : Connector = record c {
      state = disconnected;
      retry_delay_ms = init_retry_delay_ms;
      wants_connect = true;
    } in
    let w : Waiting 0 c₀ = record { state = refl; wants = refl; next = omega arith } in
    let (c₁, e₁, w₁, s₁, h₁) = attempt 0 e c₀ w a.0 in
    let (c', e₂, s₂, h₂) = attempts_lem es 1 (on_connect e none c₁) w₁ a.1 in
    (
      c₁,
      c',
      e₁,
      e₂,
      s₂ ∙ ap (λ l. l ++ delays 1 es) s₁ ∙ append_assoc c.scheduled (delay 0 ∷ []) (delays 1 es),
      h₂ ∙ h₁,
    )

-- The connector after `restart`.
abbrev pub restarted : Connector → Connector
restarted c = record c {
  state = disconnected;
  retry_delay_ms = init_retry_delay_ms;
  wants_connect = true;
  socket_open = true;
  in_progress = true;
}

pub restart_lem : (c : Connector) → restart c ≡ ok (restarted c)
unfolding restart start_in_this_thread connect
restart_lem c = refl

-- A connect that succeeds hands out a connection.
pub on_connect_success :
    (c : Connector) → c.wants_connect ≡ true → (on_connect success (some 0) c).handed ≡ c.handed + 1
unfolding on_connect branch on_branch check_connection
on_connect_success c w = ground (arith, w)
