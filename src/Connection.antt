-- ===== src/Connection.antt =====
-- Net/TcpConnection.h and Net/TcpConnection.cpp: one TCP connection. A handler runs on the loop's
-- thread and returns the new connection. What asio does is in `in_flight` and `reading`, the
-- operations under way, and in the arguments of the `on_` functions, their completions.
pub mod Stream
pub mod Steps
pub mod Delivery
pub mod Life
pub mod Shutdown
pub mod Inbound
pub mod Faults
pub mod Stuck
mod Tests
use ioloop.Prelude.{
  ℕ, List, [], ◌∷◌, ◌++◌, Option, none, some, Result, ok, err, out_of_range, bad_function_call,
  assert, ◌>>=◌, ◌>>◌, Bool, true, false, ◌||◌, ◌&&◌, ltb, leb, ◌==◌, if◌then◌else◌, length, take,
  low32, extend64,
}
use ioloop.Buffer.{
  create, initial_size, Buffer, readable_bytes, writable_bytes, peek, blit, append, retrieve,
  has_written, ensure_writable_bytes, retrieve_all_as_string,
}
use ioloop.Buffer.Ints.{ByteOrder, peek_int32}

-- `StateE`
pub data State : Type 0 where
  disconnected connecting connected disconnecting : State

-- A function that is posted to the loop.
pub data Task : Type 0 where
  send_task : List ℕ → Task
  -- A `StringPiece` of so many bytes, which do not belong to it.
  send_piece_task : ℕ → Task
  shutdown_task force_close_task : Task

-- A callback that was made: `connectionCallback_`, with the state that it finds, or
-- `closeCallback_`.
pub data Notice : Type 0 where
  connection_callback : State → Notice
  close_callback : Notice

-- The read under way.
pub data Reading : Type 0 where
  idle header : Reading
  body : ℕ → Reading

pub record Conn : Type 0 where
  pub state : State
  pub input : Buffer
  pub output : Buffer
  pub has_connection_callback : Bool
  pub has_close_callback : Bool
  -- The writes under way, oldest first. asio reads their bytes where they stood in the output buffer.
  pub in_flight : List (List ℕ)
  -- Whether the output buffer has moved or freed its bytes since the oldest of them was started.
  pub moved : Bool
  pub reading : Reading
  pub posted : List Task
  pub notices : List Notice
  -- Whether the sending side of the socket is shut down.
  pub send_closed : Bool
  -- What has been written to the socket.
  pub wire : List ℕ

-- The constructor, with the callbacks that the owner sets.
unfoldable pub new_connection : Bool → Bool → Result Conn
new_connection has_connection has_close = do
  input ← create initial_size
  output ← create initial_size
  ok (record {
    state = connecting;
    input = input;
    output = output;
    has_connection_callback = has_connection;
    has_close_callback = has_close;
    in_flight = [];
    moved = false;
    reading = idle;
    posted = [];
    notices = [];
    send_closed = false;
    wire = [];
  })

abbrev pub is_connected : State → Bool
is_connected connected = true
is_connected _ = false

abbrev pub is_connecting : State → Bool
is_connecting connecting = true
is_connecting _ = false

abbrev pub is_disconnecting : State → Bool
is_disconnecting disconnecting = true
is_disconnecting _ = false

abbrev pub is_disconnected : State → Bool
is_disconnected disconnected = true
is_disconnected _ = false

-- The destructor.
pub destroy : Conn → Result Conn
destroy c = do assert (is_disconnected c.state); ok c

-- `boost::asio::async_write` of all that `outputBuffer_` holds.
pub write : Conn → Conn
write c = record c {
  in_flight = c.in_flight ++ take (readable_bytes c.output) (peek c.output) ∷ [];
}

pub shutdown_in_this_thread : Conn → Conn
shutdown_in_this_thread c =
    if readable_bytes c.output == 0 then record c { send_closed = true } else c

abbrev pub is_writing : List (List ℕ) → Bool
is_writing [] = false
is_writing (s ∷ rest) = true

-- Whether `append` calls `makeSpace` while asio reads from the buffer.
abbrev pub moves : ℕ → Conn → Bool
moves len c = is_writing c.in_flight && ltb (writable_bytes c.output) len

pub send_in_this_thread : List ℕ → Conn → Result Conn
unfolding write
send_in_this_thread bytes c = if is_disconnected c.state then ok c else (do
  let write_in_progress = readable_bytes c.output == 0
  let len = extend64 (low32 (length bytes))
  output ← append bytes len c.output
  let c' = record c { output = output; moved = c.moved || moves len c }
  ok (if write_in_progress then write c' else c'))

-- `if (connectionCallback_) connectionCallback_(...)`
abbrev pub notify : Conn → Conn
notify c =
    if c.has_connection_callback
    then record c { notices = c.notices ++ connection_callback c.state ∷ [] }
    else c

abbrev pub notify_close : Conn → Conn
notify_close c =
    if c.has_close_callback then record c { notices = c.notices ++ close_callback ∷ [] } else c

unfoldable pub handle_close : Conn → Result Conn
handle_close c = do
  assert (is_connected c.state || is_disconnecting c.state)
  ok (notify_close (notify (record c { state = disconnected })))

pub force_close_in_this_thread : Conn → Result Conn
unfolding handle_close
force_close_in_this_thread c =
    if is_connected c.state || is_disconnecting c.state then handle_close c else ok c

unfoldable pub read_header : Conn → Conn
read_header c = record c { reading = header }

unfoldable pub connect_established : Conn → Result Conn
unfolding read_header
connect_established c = do
  assert (is_connecting c.state)
  ok (read_header (notify (record c { state = connected })))

-- Here `connectionCallback_` is called without a test.
pub connect_destroyed : Conn → Result Conn
connect_destroyed c =
    if is_connected c.state
    then if c.has_connection_callback
      then ok (notify (record c { state = disconnected }))
      else err bad_function_call
    else ok c

-- `loop_->dispatch` runs a function at once on the loop's thread, and posts it from any other.
pub shutdown : Bool → Conn → Conn
unfolding shutdown_in_this_thread
shutdown in_loop c =
    if is_connected c.state
    then (let c' = record c { state = disconnecting } in
        if in_loop
        then shutdown_in_this_thread c'
        else record c' { posted = c.posted ++ shutdown_task ∷ [] })
    else c

pub force_close : Conn → Conn
force_close c =
    if is_connected c.state || is_disconnecting c.state
    then record c { state = disconnecting; posted = c.posted ++ force_close_task ∷ [] }
    else c

-- `send(std::string &&)`. What is posted is a `StringPiece` of the caller's string.
pub send : Bool → List ℕ → Conn → Result Conn
unfolding send_in_this_thread
send in_loop message c =
    if is_connected c.state
    then if in_loop
      then send_in_this_thread message c
      else ok (record c { posted = c.posted ++ send_piece_task (length message) ∷ [] })
    else ok c

-- `send(Buffer *)`, which empties the caller's buffer when it takes the bytes.
pub send_buffer : Bool → Buffer → Conn → Result (Buffer × Conn)
unfolding send_in_this_thread
send_buffer in_loop buf c =
    if is_connected c.state
    then (do
      (message, buf') ← retrieve_all_as_string buf
      c' ←
          if in_loop
          then send_in_this_thread message c
          else ok (record c { posted = c.posted ++ send_task message ∷ [] })
      ok (buf', c'))
    else ok (buf, c)

-- `seen` is what stands where a piece points when it is used, or none if the string is gone.
abbrev pub seen_bytes : Option (List ℕ) → ℕ → Result (List ℕ)
seen_bytes none n = err out_of_range
seen_bytes (some bytes) n = if length bytes == n then ok bytes else err out_of_range

run_first : Option (List ℕ) → List Task → Conn → Result Conn
unfolding send_in_this_thread shutdown_in_this_thread force_close_in_this_thread
run_first seen [] c = ok c
run_first seen (send_task message ∷ rest) c =
    send_in_this_thread message (record c { posted = rest })
run_first seen (send_piece_task n ∷ rest) c = do
  bytes ← seen_bytes seen n
  send_in_this_thread bytes (record c { posted = rest })
run_first seen (shutdown_task ∷ rest) c = ok (shutdown_in_this_thread (record c { posted = rest }))
run_first seen (force_close_task ∷ rest) c = force_close_in_this_thread (record c { posted = rest })

-- The loop runs the oldest function that was posted.
pub run_posted : Option (List ℕ) → Conn → Result Conn
unfolding run_first
run_posted seen c = run_first seen c.posted c

-- A read puts its bytes at `beginWrite()`, and `hasWritten` counts them.
pub receive : List ℕ → Buffer → Result Buffer
receive bytes b =
    if leb (length bytes) (writable_bytes b)
    then has_written (length bytes) (record b { store = blit b.store b.writer bytes })
    else err out_of_range

-- The first `n` bytes of the oldest write under way, and the writes that were started after it.
abbrev pub written : List (List ℕ) → ℕ → List ℕ
written [] n = []
written (bytes ∷ rest) n = take n bytes

abbrev pub later_writes : List (List ℕ) → List (List ℕ)
later_writes [] = []
later_writes (bytes ∷ rest) = rest

abbrev check_writes : Bool → Result (Unit {0})
check_writes moved = if moved then err out_of_range else ok tt

-- The completion of the oldest write: the number of bytes written, or `none` for an error, which is
-- logged. What a failed write has sent is not counted in `wire`. A write whose bytes were moved or
-- freed under it has read what no longer belonged to it, which is a fault.
pub on_write : Option ℕ → Conn → Result Conn
unfolding write shutdown_in_this_thread
on_write none c =
    let rest = later_writes c.in_flight in
    ok (record c { in_flight = rest; moved = c.moved && is_writing rest })
on_write (some n) c = do
  check_writes c.moved
  output ← retrieve n c.output
  let c' = record c {
    output = output;
    in_flight = later_writes c.in_flight;
    wire = c.wire ++ written c.in_flight n;
  }
  ok (
      if readable_bytes output == 0
      then if is_disconnecting c'.state then shutdown_in_this_thread c' else c'
      else write c')

module _ (net : ByteOrder) where
  -- The completion of `readHeader`: the bytes read, or `none` for an error.
  unfoldable pub on_header : Option (List ℕ) → Conn → Result Conn
  unfolding handle_close receive
  on_header none c = handle_close (record c { reading = idle })
  on_header (some bytes) c = do
    input ← receive bytes c.input
    len ← peek_int32 net input
    input' ← ensure_writable_bytes (extend64 len) input
    ok (record c { input = input'; reading = body (extend64 len) })

-- The completion of `readBody`. `message_callback` is the user's, and may use the connection.
pub on_body : (Conn → Result Conn) → Option (List ℕ) → Conn → Result Conn
unfolding handle_close receive read_header
on_body message_callback none c = handle_close (record c { reading = idle })
on_body message_callback (some bytes) c = do
  input ← receive bytes c.input
  c' ← message_callback (record c { input = input; reading = idle })
  ok (read_header c')
