-- ===== src/Client.antt =====
-- Net/TcpClient.h and Net/TcpClient.cpp: a client's connector and its one connection, on the loop's
-- thread. A connection has the number that stands in its name.
pub mod Retry
use ioloop.Prelude.{
  ℕ, ◌+◌, ◌≡◌, List, [], ◌∷◌, ◌++◌, Option, none, some, Result, ok, err, assert, ◌>>=◌, ◌>>◌, Bool,
  true, false, ◌&&◌, ltb, ◌==◌, if◌then◌else◌,
}
use ioloop.Connector
use ioloop.Connector.{Connector, new_connector, Error}
use ioloop.Connection
use ioloop.Connection.{Conn, new_connection, connect_established, connect_destroyed}

pub record Client : Type 0 where
  pub wants_connect : Bool
  pub retry : Bool
  pub connector : Connector
  pub connection : Option (ℕ × Conn)
  pub next_conn_id : ℕ
  -- The connections whose `connectDestroyed` was posted.
  pub destroyed : List (ℕ × Conn)
  pub has_connection_callback : Bool

-- The constructor does not set `nextConnId_`, which may be any number.
abbrev pub new_client : ℕ → Bool → Client
new_client any has_callback = record {
  wants_connect = false;
  retry = false;
  connector = new_connector;
  connection = none;
  next_conn_id = any;
  destroyed = [];
  has_connection_callback = has_callback;
}

pub connect : Client → Result Client
connect c = do
  connector ← Connector.start c.connector
  ok (record c { wants_connect = true; connector = connector })

abbrev pub shut : Bool → Option (ℕ × Conn) → Option (ℕ × Conn)
shut in_loop none = none
shut in_loop (some (id, conn)) = some (id, Connection.shutdown in_loop conn)

pub disconnect : Bool → Client → Client
disconnect in_loop c = record c { wants_connect = false; connection = shut in_loop c.connection }

pub stop : Client → Client
stop c = record c { wants_connect = false; connector = Connector.stop c.connector }

pub enable_retry : Client → Client
enable_retry c = record c { retry = true }

-- `newConnection`. The close callback is set, and is `removeConnection`.
pub take_connection : Client → Result Client
take_connection c = do
  conn ← new_connection c.has_connection_callback true
  conn' ← connect_established conn
  ok (record c { connection = some (c.next_conn_id, conn'); next_conn_id = c.next_conn_id + 1 })

-- What the destructor leaves: the connector, and a connection that goes on, with a close callback
-- that dispatches `connectDestroyed`.
pub record Departed : Type 0 where
  pub connector : Connector
  pub connection : Option (ℕ × Conn)

abbrev depart : Option (ℕ × Conn) → Connector → Departed
depart none connector = record { connector = Connector.stop connector; connection = none }
depart (some connection) connector = record { connector = connector; connection = some connection }

-- The destructor.
unfoldable pub destroy : Client → Departed
destroy c = depart c.connection c.connector

-- `detail::removeConnection`, the close callback of the connection of a client that is gone, on the
-- loop's thread.
unfoldable pub remove_departed : Departed → Result Departed
remove_departed d = remove_it d.connection d
  where
    remove_it : Option (ℕ × Conn) → Departed → Result Departed
    remove_it none d = ok d
    remove_it (some (id, conn)) d = do
      conn' ← connect_destroyed conn
      ok (record d { connection = some (id, conn') })

-- The completion of a connect, which hands the socket to `newConnection` when it succeeds.
pub on_connect : Error → Option ℕ → Client → Result Client
unfolding take_connection
on_connect error option c =
    let connector = Connector.on_connect error option c.connector in
    let c' = record c { connector = connector } in
    if ltb c.connector.handed connector.handed then take_connection c' else ok c'

abbrev pub is_connection : ℕ → Option (ℕ × Conn) → Bool
is_connection id none = false
is_connection id (some (i, conn)) = i == id

-- `removeConnection` of connection `id`, whose state is `conn`.
pub remove_connection : ℕ → Conn → Client → Result Client
remove_connection id conn c = do
  assert (is_connection id c.connection)
  let c' = record c { connection = none; destroyed = c.destroyed ++ (id, conn) ∷ [] }
  if c.retry && c.wants_connect
      then (do connector ← Connector.restart c.connector; ok (record c' { connector = connector }))
      else ok c'
