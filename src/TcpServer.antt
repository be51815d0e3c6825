-- ===== src/TcpServer.antt =====
-- Net/TcpServer.h, Net/TcpServer.cpp, Net/Accept.h and Net/Accept.cpp: the server and its
-- connections. The connections that were made are in `objects`, a pointer to one is its index
-- there, and `posted` holds the functions that were posted to the loops.
use ioloop.Prelude.{
  same_text, ℕ, zero, suc, ◌+◌, ◌-◌, ◌/◌, ◌%◌, ◌^◌, List, [], ◌∷◌, ◌++◌, Option, none, some, Result,
  ok, err, out_of_range, assert, ◌>>=◌, ◌>>◌, Bool, true, false, not, ltb, ◌==◌, if◌then◌else◌,
  length, take, get_elem?, set,
}
use ioloop.Connection.{Conn, new_connection, connect_established, connect_destroyed}
use ioloop.LoopPool
use ioloop.LoopPool.{LoopPool, new_loop_pool, get_next_loop_of}
pub mod Names
pub mod Entries
pub mod Invariant
pub mod Removal
pub mod Safety
pub mod Runs
mod Tests

pub data Task : Type 0 where
  remove_task established_task destroyed_task : ℕ → Task

pub record Object : Type 0 where
  pub name : List ℕ
  pub loop : ℕ
  pub conn : Conn

-- `ConnectionMap`
abbrev pub Connections : Type 0
Connections = List (List ℕ × ℕ)

pub record TcpServer : Type 0 where
  pub base_loop : ℕ
  pub next_conn_id : ℕ
  pub ip_port : List ℕ
  pub name : List ℕ
  pub started : Bool
  pub accepts : ℕ
  pub pool : LoopPool
  pub has_connection_callback : Bool
  pub connections : Connections
  pub objects : List Object
  pub posted : List Task

unfoldable pub new_server : ℕ → List ℕ → List ℕ → Bool → TcpServer
new_server loop ip_port name has_connection_callback = record {
  base_loop = loop;
  next_conn_id = 1;
  ip_port = ip_port;
  name = name;
  started = false;
  accepts = 0;
  pool = new_loop_pool loop;
  has_connection_callback = has_connection_callback;
  connections = [];
  objects = [];
  posted = [];
}

unfoldable pub set_thread_num : ℕ → TcpServer → TcpServer
set_thread_num num_threads s = record s { pool = record s.pool { num_threads = num_threads } }

-- `Acceptor::accept`
unfoldable pub accept : TcpServer → TcpServer
accept s = record s { accepts = s.accepts + 1 }

-- `start`, where `new_loop` gives the loops of the threads.
unfoldable pub start : (ℕ → ℕ) → TcpServer → Result TcpServer
start new_loop s = if s.started then ok s else (do
  pool ← LoopPool.run new_loop s.pool
  ok (accept (record s { started = true; pool = pool })))

-- The digits that `%d` prints of a number below 2^31, of which there are `k + 1` at most.
unfoldable pub digits : ℕ → ℕ → List ℕ
digits zero n = (48 + n % 10) ∷ []
digits (suc k) n =
    let more = digits k (n / 10) in if ltb n 10 then (48 + n) ∷ [] else more ++ (48 + n % 10) ∷ []

-- `%d` of an `uint32_t`: the numbers from 2^31 on are printed as negative ones.
unfoldable pub print_int : ℕ → List ℕ
print_int n = if ltb n (2 ^ 31) then digits 9 n else 45 ∷ digits 9 (2 ^ 32 - n)

-- What `snprintf` writes into a buffer of 64 characters, in front of its zero.
unfoldable pub conn_name : List ℕ → List ℕ → ℕ → List ℕ
conn_name name ip_port id = name ++ take 63 (45 ∷ (ip_port ++ 35 ∷ print_int id))

-- `connections_[name] = conn`
abbrev pub assign : List ℕ → ℕ → Connections → Connections
assign name i [] = (name, i) ∷ []
assign name i (e ∷ es) =
    let rest = assign name i es in if same_text e.0 name then (e.0, i) ∷ es else e ∷ rest

-- `connections_.erase(name)`, and what it returns.
abbrev pub erase : List ℕ → Connections → Connections
erase name [] = []
erase name (e ∷ es) = let rest = erase name es in if same_text e.0 name then rest else e ∷ rest

abbrev pub count : List ℕ → Connections → ℕ
count name [] = 0
count name (e ∷ es) = let rest = count name es in if same_text e.0 name then suc rest else rest

abbrev pub object_at : Option Object → Result Object
object_at none = err out_of_range
object_at (some o) = ok o

unfoldable pub remove_connection_in_this_thread : ℕ → TcpServer → Result TcpServer
remove_connection_in_this_thread i s = do
  o ← object_at (get_elem? s.objects i)
  let n = count o.name s.connections
  assert (n == 1)
  ok (record s {
    connections = erase o.name s.connections;
    posted = s.posted ++ destroyed_task i ∷ [];
  })

-- `removeConnection`, the close callback of every connection.
unfoldable pub remove_connection : Bool → ℕ → TcpServer → Result TcpServer
remove_connection in_loop i s =
    if in_loop
    then remove_connection_in_this_thread i s
    else ok (record s { posted = s.posted ++ remove_task i ∷ [] })

-- A connection's state, once a function of it has run.
abbrev pub put : ℕ → Object → Conn → TcpServer → TcpServer
put i o conn s = record s { objects = set s.objects i (record o { conn = conn }) }

-- `TcpConnection::connectEstablished` of a connection, and `connectDestroyed`.
unfoldable pub established : ℕ → TcpServer → Result TcpServer
established i s = do
  o ← object_at (get_elem? s.objects i)
  conn ← connect_established o.conn
  ok (put i o conn s)

unfoldable pub destroyed : ℕ → TcpServer → Result TcpServer
destroyed i s = do
  o ← object_at (get_elem? s.objects i)
  conn ← connect_destroyed o.conn
  ok (put i o conn s)

unfoldable pub new_connection_of : ℕ → TcpServer → Result TcpServer
new_connection_of fd s = do
  loop ← get_next_loop_of fd s.pool
  let name = conn_name s.name s.ip_port s.next_conn_id
  conn ← new_connection s.has_connection_callback true
  let i = length s.objects
  let o : Object = record { name = name; loop = loop; conn = conn }
  let s' = record s {
    next_conn_id = (s.next_conn_id + 1) % 2 ^ 32;
    connections = assign name i s.connections;
    objects = s.objects ++ o ∷ [];
  }
  if loop == s.base_loop
      then established i s'
      else ok (record s' { posted = s'.posted ++ established_task i ∷ [] })

-- The handler of `async_accept`, with the descriptor of the socket that came, or without one.
unfoldable pub on_accept : Option ℕ → TcpServer → Result TcpServer
on_accept none s = ok (accept (record s { accepts = s.accepts - 1 }))
on_accept (some fd) s = do
  s' ← new_connection_of fd (record s { accepts = s.accepts - 1 })
  ok (accept s')

unfoldable pub run_task : Task → TcpServer → Result TcpServer
run_task (remove_task i) s = remove_connection_in_this_thread i s
run_task (established_task i) s = established i s
run_task (destroyed_task i) s = destroyed i s

-- The destructor, which dispatches `connectDestroyed` of every connection of the map.
unfoldable pub destroy_each : Connections → TcpServer → Result TcpServer
destroy_each [] s = ok s
destroy_each (e ∷ es) s = do
  o ← object_at (get_elem? s.objects e.1)
  s' ←
      if o.loop == s.base_loop
      then destroyed e.1 s
      else ok (record s { posted = s.posted ++ destroyed_task e.1 ∷ [] })
  destroy_each es s'

unfoldable pub destroy : TcpServer → Result TcpServer
destroy s = destroy_each s.connections s
