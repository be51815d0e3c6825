-- ===== src/Client/Retry.antt =====
-- Net/TcpClient.cpp: what follows when a connection is closed.
use ioloop.Prelude.{
  ℕ, ◌+◌, ◌≡◌, ◌≢◌, refl, [], ◌∷◌, ◌++◌, none, some, ok, err, assertion, true, ◌&&◌, if◌then◌else◌,
  arith,
}
use ioloop.Connector
use ioloop.Connector.{Connector, success}
use ioloop.Connector.Backoff.{restarted, restart_lem, on_connect_success}
use ioloop.Connection.{Conn, connected}
use ioloop.Connection.Life.{new_connection_established}
use ioloop.Client.{Client, take_connection, on_connect, remove_connection}

-- When the client's connection is closed, it is given up, and the connector starts again, with its
-- first delay, exactly if the client retries and was not disconnected or stopped since `connect`.
pub remove_connection_lem :
    (id : ℕ) (k k' : Conn) (c : Client)
    → c.connection ≡ some (id, k')
    → (c' : Client) × (remove_connection id k c ≡ ok c')
      × (c'.connection ≡ none)
      × (c'.destroyed ≡ c.destroyed ++ (id, k) ∷ [])
      × (c'.connector ≡ (if c.retry && c.wants_connect then restarted c.connector else c.connector))
unfolding remove_connection
remove_connection_lem id k k' c e = (
  record c {
    connection = none;
    destroyed = c.destroyed ++ (id, k) ∷ [];
    connector = if c.retry && c.wants_connect then restarted c.connector else c.connector;
  },
  ground (arith, e, restart_lem c.connector),
  refl,
  refl,
  refl,
)

take_connection_lem :
    (c : Client)
    → (k : Conn) × (take_connection c
        ≡ ok
            (record c { connection = some (c.next_conn_id, k); next_conn_id = c.next_conn_id + 1 }))
      × (k.state ≡ connected)
unfolding take_connection
take_connection_lem c =
    let (k, k', e, f, s, _) = new_connection_established c.has_connection_callback true in
    (k', ground (arith, e, f), s)

-- A connect that succeeds makes its connection, established, the client's connection, even when it
-- has one; and when the one that it had is closed after that, `removeConnection` violates its
-- assertion.
pub second_connection_faults :
    (id : ℕ) (k k' : Conn) (c : Client)
    → c.connector.wants_connect ≡ true
    → c.connection ≡ some (id, k')
    → id ≢ c.next_conn_id
    → (new : Conn) × (c' : Client) × (on_connect success (some 0) c ≡ ok c')
      × (c'.connection ≡ some (c.next_conn_id, new))
      × (new.state ≡ connected)
      × (remove_connection id k c' ≡ err assertion)
unfolding on_connect remove_connection
second_connection_faults id k k' c w e n =
    let connector = Connector.on_connect success (some 0) c.connector in
    let (new, t, s) = take_connection_lem (record c { connector = connector }) in
    let h = on_connect_success c.connector w in
    (
      new,
      record c {
        connector = connector;
        connection = some (c.next_conn_id, new);
        next_conn_id = c.next_conn_id + 1;
      },
      ground (arith, h, t),
      refl,
      s,
      ground (arith, n),
    )
