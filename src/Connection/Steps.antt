-- ===== src/Connection/Steps.antt =====
-- Net/TcpConnection.cpp: the steps of a connection, and what holds along any run.
use ioloop.Buffer.Contents.{Holds, retrieve_all_as_string-Holds}
use ioloop.Prelude.{
  arith, ℕ, ◌+◌, ◌^◌, ◌≤◌, ◌<◌, ◌≡◌, List, [], ◌∷◌, ◌++◌, none, some, Result, ok, ◌>>=◌, Bool, ◌&&◌,
  ◌==◌, true, false, if◌then◌else◌, Option, some, length,
}
use ioloop.Buffer.{Buffer, max_store, readable_bytes}
use ioloop.Buffer.Ints.{ByteOrder}
use ioloop.Connection.{
  send_buffer, Conn, State, disconnected, connected, is_connected, Task, send_task, send_piece_task,
  header, body, on_write, connect_established, connect_destroyed, shutdown, force_close, send,
  run_posted, on_header, on_body,
}

-- An empty message for an empty output buffer, of which a write of no bytes is started.
abbrev pub starts_empty : List ℕ → Conn → Bool
starts_empty m c = readable_bytes c.output == 0 && length m == 0

-- What a call of `send` puts into the output buffer at once.
abbrev pub accepted : Bool → State → List ℕ → List ℕ
accepted true connected m = m
accepted _ _ m = []

abbrev pub or_empty : Option (List ℕ) → List ℕ
or_empty none = []
or_empty (some bytes) = bytes

-- What the oldest posted function puts there; of a piece, what it finds when it is used.
abbrev pub accepted_posted : Option (List ℕ) → List Task → State → List ℕ
accepted_posted seen (send_task m ∷ rest) disconnected = []
accepted_posted seen (send_task m ∷ rest) _ = m
accepted_posted seen (send_piece_task n ∷ rest) disconnected = []
accepted_posted seen (send_piece_task n ∷ rest) _ = or_empty seen
accepted_posted _ _ _ = []

-- A call from another thread, which posts the bytes themselves.
abbrev pub post_copy : List ℕ → Conn → Conn
post_copy m c =
    if is_connected c.state then record c { posted = c.posted ++ send_task m ∷ [] } else c

-- A message that the buffers can take.
abbrev pub Fits : Conn → List ℕ → Type 0
Fits c m = (length m < 2 ^ 31) × (c.output.writer + length m ≤ max_store)

-- A message callback that takes bytes out of the input buffer.
abbrev pub consuming : (Buffer → Result Buffer) → Conn → Result Conn
consuming consume c = consume c.input >>= λ b. ok (record c { input = b })

-- One handler or call, with what it accepts for sending. The user's message callback takes bytes
-- out of the input buffer; what else it calls is steps of their own.
pub data Step (net : ByteOrder) (c : Conn) (bs : List ℕ) (c' : Conn) : Type 0 where
  established : bs ≡ [] → connect_established c ≡ ok c' → Step net c bs c'
  destroyed : bs ≡ [] → connect_destroyed c ≡ ok c' → Step net c bs c'
  shut : (in_loop : Bool) → bs ≡ [] → c' ≡ shutdown in_loop c → Step net c bs c'
  forced : bs ≡ [] → c' ≡ force_close c → Step net c bs c'
  sent :
      (in_loop : Bool) (m : List ℕ)
      → bs ≡ accepted in_loop c.state m
      → Fits c m
      → send in_loop m c ≡ ok c'
      → Step net c bs c'
  sent_buffer :
      (in_loop : Bool) (buf : Buffer) (buf' : Buffer) (m : List ℕ)
      → bs ≡ accepted in_loop c.state m
      → Holds buf m
      → Fits c m
      → send_buffer in_loop buf c ≡ ok (buf', c')
      → Step net c bs c'
  ran :
      (seen : Option (List ℕ))
      → bs ≡ accepted_posted seen c.posted c.state
      → Fits c bs
      → run_posted seen c ≡ ok c'
      → Step net c bs c'
  wrote :
      (s : List ℕ) (rest : List (List ℕ))
      → bs ≡ []
      → c.in_flight ≡ s ∷ rest
      → on_write (some (length s)) c ≡ ok c'
      → Step net c bs c'
  write_failed : bs ≡ [] → on_write none c ≡ ok c' → Step net c bs c'
  header_came :
      (xs : List ℕ)
      → bs ≡ []
      → c.reading ≡ header
      → length xs ≡ 4
      → on_header net (some xs) c ≡ ok c'
      → Step net c bs c'
  header_failed : bs ≡ [] → c.reading ≡ header → on_header net none c ≡ ok c' → Step net c bs c'
  body_came :
      (consume : Buffer → Result Buffer) (xs : List ℕ)
      → bs ≡ []
      → c.reading ≡ body (length xs)
      → on_body (consuming consume) (some xs) c ≡ ok c'
      → Step net c bs c'
  body_failed :
      (n : ℕ) (callback : Conn → Result Conn)
      → bs ≡ []
      → c.reading ≡ body n
      → on_body callback none c ≡ ok c'
      → Step net c bs c'

-- No step sends an empty message into an empty output buffer.
abbrev pub posts_empty : Option (List ℕ) → List Task → Conn → Bool
posts_empty seen (send_task m ∷ rest) c = starts_empty m c
posts_empty seen (send_piece_task n ∷ rest) c = starts_empty (or_empty seen) c
posts_empty _ _ _ = false

abbrev pub StepHasBytes :
    {net : ByteOrder} {c : Conn} {bs : List ℕ} {c' : Conn} → Step net c bs c' → Type 0
StepHasBytes {c = c} (sent in_loop m e f r) = starts_empty m c ≡ false
StepHasBytes {c = c} (sent_buffer in_loop b b' m e h f r) = starts_empty m c ≡ false
StepHasBytes {c = c} (ran seen e f r) = posts_empty seen c.posted c ≡ false
StepHasBytes _ = Unit {0}

pub data Reach (net : ByteOrder) (c : Conn) : List ℕ → Conn → Type 0 where
  here : Reach net c [] c
  next :
      {bs : List ℕ} {d : Conn} {bs' : List ℕ} {e : Conn}
      → Reach net c bs d
      → Step net d bs' e
      → Reach net c (bs ++ bs') e

abbrev pub HasBytes :
    {net : ByteOrder} {c : Conn} {bs : List ℕ} {c' : Conn} → Reach net c bs c' → Type 0
HasBytes here = Unit {0}
HasBytes (next r s) = HasBytes r × StepHasBytes s

-- On the loop's thread, `send` of a buffer is `send` of what it holds; elsewhere it posts a copy.
pub send_buffer_sends :
    (in_loop : Bool) (buf buf' : Buffer) (m : List ℕ) (c c' : Conn)
    → Holds buf m
    → send_buffer in_loop buf c ≡ ok (buf', c')
    → (if in_loop then send true m c else ok (post_copy m c)) ≡ ok c'
unfolding send_buffer send
send_buffer_sends true buf buf' m c c' h r =
    let (b, e) = retrieve_all_as_string-Holds h in ground (arith, e, r)
send_buffer_sends false buf buf' m c c' h r =
    let (b, e) = retrieve_all_as_string-Holds h in ground (arith, e, r)
