-- ===== src/Connector.antt =====
-- Net/Connector.h and Net/Connector.cpp: connects to a server, again and again with growing delays.
-- The loop's thread runs every function; the completion of a connect is `on_connect`.
pub mod Backoff
pub mod Stop
mod Tests
use ioloop.Prelude.{
  ℕ, ◌+◌, ◌*◌, min, List, [], ◌∷◌, ◌++◌, Option, none, some, Result, ok, err, assert, ◌>>=◌, ◌>>◌,
  Bool, true, false, ◌==◌, if◌then◌else◌, ◌≡◌,
}

pub data State : Type 0 where
  disconnected connecting connected : State

-- `boost::system::error_code` of a connect, as far as the source tells them apart.
pub data Error : Type 0 where
  success operation_in_progress interrupted already_connected : Error
  resource_unavailable_try_again address_in_use address_not_available connection_refused : Error
  network_unreachable : Error
  permission_denied operation_not_permitted address_family_not_supported : Error
  connection_already_in_progress bad_file_descriptor bad_address not_a_socket : Error
  other_error : Error

-- The branches of the switch in `Connector::connect`.
pub data Branch : Type 0 where
  goes_on retries gives_up : Branch

pub branch : Error → Branch
branch success = goes_on
branch operation_in_progress = goes_on
branch interrupted = goes_on
branch already_connected = goes_on
branch resource_unavailable_try_again = retries
branch address_in_use = retries
branch address_not_available = retries
branch connection_refused = retries
branch network_unreachable = retries
branch permission_denied = gives_up
branch operation_not_permitted = gives_up
branch address_family_not_supported = gives_up
branch connection_already_in_progress = gives_up
branch bad_file_descriptor = gives_up
branch bad_address = gives_up
branch not_a_socket = gives_up
branch other_error = gives_up

abbrev pub max_retry_delay_ms : ℕ
max_retry_delay_ms = 30 * 1000

abbrev pub init_retry_delay_ms : ℕ
init_retry_delay_ms = 1000

pub record Connector : Type 0 where
  pub wants_connect : Bool
  pub state : State
  pub retry_delay_ms : ℕ
  -- Whether `async_connect` is under way.
  pub in_progress : Bool
  -- The delays after which `startInThisThread` was scheduled to run, the latest last.
  pub scheduled : List ℕ
  pub socket_open : Bool
  -- How many connections were handed to `newConnectionCallback_`.
  pub handed : ℕ

abbrev pub new_connector : Connector
new_connector = record {
  wants_connect = false;
  state = disconnected;
  retry_delay_ms = init_retry_delay_ms;
  in_progress = false;
  scheduled = [];
  socket_open = false;
  handed = 0;
}

abbrev pub is_disconnected : State → Bool
is_disconnected disconnected = true
is_disconnected _ = false

abbrev pub is_connecting : State → Bool
is_connecting connecting = true
is_connecting _ = false

pub connect : Connector → Connector
connect c = record c { socket_open = true; in_progress = true }

pub retry : Connector → Connector
retry c =
    let c' = record c { socket_open = false; state = disconnected } in
    if c.wants_connect
    then record c' {
      scheduled = c.scheduled ++ c.retry_delay_ms ∷ [];
      retry_delay_ms = min (c.retry_delay_ms * 2) max_retry_delay_ms;
    }
    else c'

pub start_in_this_thread : Connector → Result Connector
unfolding connect
start_in_this_thread c = do
  assert (is_disconnected c.state)
  ok (if c.wants_connect then connect c else c)

pub stop_in_this_thread : Connector → Connector
unfolding retry
stop_in_this_thread c =
    if is_connecting c.state then retry (record c { state = disconnected }) else c

pub start : Connector → Result Connector
unfolding start_in_this_thread
start c = start_in_this_thread (record c { wants_connect = true })

pub stop : Connector → Connector
unfolding stop_in_this_thread
stop c = stop_in_this_thread (record c { wants_connect = false })

pub restart : Connector → Result Connector
unfolding start_in_this_thread
restart c =
    start_in_this_thread (record c {
      state = disconnected;
      retry_delay_ms = init_retry_delay_ms;
      wants_connect = true;
    })

-- `get_option` gives `SO_ERROR`, or `none` when it fails itself.
pub check_connection : Option ℕ → Connector → Connector
unfolding retry
check_connection none c = record c { state = connecting; socket_open = false }
check_connection (some error) c =
    if error == 0
    then (let c' = record c { state = connected } in
        if c.wants_connect
        then record c' { handed = c.handed + 1; socket_open = false }
        else record c' { socket_open = false })
    else retry (record c { state = connecting })

pub on_branch : Branch → Option ℕ → Connector → Connector
unfolding check_connection retry
on_branch goes_on option c = check_connection option c
on_branch retries option c = retry c
on_branch gives_up option c = record c { socket_open = false }

pub on_connect : Error → Option ℕ → Connector → Connector
unfolding branch on_branch
on_connect error option c = on_branch (branch error) option (record c { in_progress = false })
