-- ===== src/UnixSocket.antt =====
-- UnixSocket/UnixSocket.h and UnixSocket/UnixSocket.cpp: a pair of sockets. What the kernel answers
-- to the calls of `fcntl` is a list, taken from its front; flags are what `fcntl` keeps of them.
use ioloop.Prelude.{
  ℕ, List, [], ◌∷◌, ◌++◌, Option, none, some, Result, ok, err, out_of_fuel, ◌>>=◌, Bool, true,
  false, not, ◌&&◌, if◌then◌else◌,
}
pub mod Blocking
pub mod Pair
mod Tests

-- `EINTR`, another error, or success.
pub data Answer : Type 0 where
  interrupted failed works : Answer

-- A descriptor: its number, `O_NONBLOCK` and the other status flags, and `FD_CLOEXEC`.
pub record Fd : Type 0 where
  pub number : ℕ
  pub nonblock : Bool
  pub others : ℕ
  pub cloexec : Bool

-- `do … while (ret < 0 && errno == EINTR)`: whether the call succeeds, and the answers left.
unfoldable pub call : List Answer → Result (Bool × List Answer)
call [] = err out_of_fuel
call (interrupted ∷ answers) = call answers
call (failed ∷ answers) = ok (false, answers)
call (works ∷ answers) = ok (true, answers)

-- The status flags: `F_GETFL` and `F_SETFL`. `nonblock` is none where the argument is negative.
unfoldable pub set_status : Option Bool → Fd → List Answer → Result (Bool × (Fd × List Answer))
set_status none fd answers = ok (true, (fd, answers))
set_status (some nonblock) fd answers = do
  (got, answers1) ← call answers
  if not got then ok (false, (fd, answers1)) else (do
    (put, answers2) ← call answers1
    ok (put, (if put then record fd { nonblock = nonblock } else fd, answers2)))

-- The descriptor's flags: `F_GETFD` and `F_SETFD`. A failed `F_GETFD` is only logged, and the flag
-- is set all the same.
unfoldable pub set_cloexec : Option Bool → Fd → List Answer → Result (Bool × (Fd × List Answer))
set_cloexec none fd answers = ok (true, (fd, answers))
set_cloexec (some cloexec) fd answers = do
  (got, answers1) ← call answers
  (put, answers2) ← call answers1
  ok (put, (if put then record fd { cloexec = cloexec } else fd, answers2))

unfoldable pub set_sock_blocking :
    Option Bool → Option Bool → Fd → List Answer → Result (Bool × (Fd × List Answer))
set_sock_blocking nonblock cloexec fd answers = do
  (done, rest) ← set_status nonblock fd answers
  if not done then ok (false, rest) else set_cloexec cloexec rest.0 rest.1

-- `SocketPair`: its two descriptors, and the sockets over them, each with its descriptor.
pub record SocketPair : Type 0 where
  pub socks0 : Fd
  pub socks1 : Fd
  pub master : Option ℕ
  pub worker : Option ℕ
  -- The descriptors that were closed, in order.
  pub closed : List ℕ

-- `UnixSocket`, where `socketpair` gives two descriptors.
unfoldable pub new_unix_socket : Fd → Fd → SocketPair
new_unix_socket fd0 fd1 = record {
  socks0 = fd0;
  socks1 = fd1;
  master = none;
  worker = none;
  closed = [];
}

-- `setBlocking`, which ignores what it is told and returns nothing.
unfoldable pub set_blocking :
    Option Bool → Option Bool → SocketPair → List Answer → Result (SocketPair × List Answer)
set_blocking nonblock cloexec p answers = do
  (done0, (fd0, answers0)) ← set_sock_blocking nonblock cloexec p.socks0 answers
  (done1, (fd1, answers1)) ← set_sock_blocking nonblock cloexec p.socks1 answers0
  ok (record p { socks0 = fd0; socks1 = fd1 }, answers1)

abbrev or_assign : Option ℕ → ℕ → Option ℕ
or_assign none fd = some fd
or_assign (some socket) fd = some socket

-- `initSocket`: both sockets take `socks[1]`.
unfoldable pub init_socket : Bool → SocketPair → SocketPair
init_socket master p =
    if master
    then record p { master = or_assign p.master p.socks1.number }
    else record p { worker = or_assign p.worker p.socks1.number }

unfoldable pub get_socket : Bool → SocketPair → Option ℕ
get_socket master p = if master then p.master else p.worker

abbrev pub is_there : Option ℕ → Bool
is_there none = false
is_there (some socket) = true

unfoldable pub ready : SocketPair → Bool
ready p = is_there p.master && is_there p.worker

abbrev closes : Option ℕ → List ℕ
closes none = []
closes (some socket) = socket ∷ []

-- The destructor.
unfoldable pub destroy : SocketPair → SocketPair
destroy p = record p { closed = p.closed ++ closes p.master ++ closes p.worker }

-- `set_option` of both descriptors: whether `setsockopt` fails for the first and for the second.
unfoldable pub set_both : Bool → Bool → Bool
set_both fails0 fails1 = if fails0 then false else if fails1 then false else true

-- `setBufferSize`, for the receiving and the sending side; where both succeed it returns no value.
unfoldable pub set_buffer_size : Bool → Bool → Bool → Bool → Option Bool
unfolding set_both
set_buffer_size recv0 recv1 send0 send1 =
    if not (set_both recv0 recv1)
    then some false
    else if not (set_both send0 send1)
    then some false
    else none
