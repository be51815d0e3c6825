-- ===== src/UnixSocket/Pair.antt =====
-- UnixSocket/UnixSocket.cpp: which descriptors the destructor of a pair closes.
use ioloop.Prelude.{
  ℕ, ◌≡◌, List, [], ◌∷◌, ◌++◌, Option, none, some, Bool, true, false, not, ◌||◌, if◌then◌else◌,
  arith,
}
use ioloop.UnixSocket.{Fd, SocketPair, new_unix_socket, init_socket, destroy}

unfoldable pub init_all : List Bool → SocketPair → SocketPair
init_all [] p = p
init_all (m ∷ ms) p = init_all ms (init_socket m p)

abbrev pub has : Bool → List Bool → Bool
has b [] = false
has true (m ∷ ms) = m || has true ms
has false (m ∷ ms) = not m || has false ms

abbrev pub once : Bool → ℕ → List ℕ
once there fd = if there then fd ∷ [] else []

-- A socket that is there, or made by one of these calls.
abbrev held : Option ℕ → Bool → ℕ → Option ℕ
held none made fd = if made then some fd else none
held (some socket) made fd = some socket

init_all_lem :
    (ms : List Bool) (p : SocketPair)
    → init_all ms p ≡ record p {
      master = held p.master (has true ms) p.socks1.number;
      worker = held p.worker (has false ms) p.socks1.number;
    }
unfolding init_all init_socket
init_all_lem [] p = ground arith
init_all_lem (true ∷ ms) p = ground (arith, init_all_lem ms (init_socket true p))
init_all_lem (false ∷ ms) p = ground (arith, init_all_lem ms (init_socket false p))

-- Whatever sockets of a pair are made, the destructor closes the second descriptor for each of the
-- two, so twice when both were made, and never the first.
pub destroy-init_all :
    (ms : List Bool) (fd0 fd1 : Fd)
    → (destroy (init_all ms (new_unix_socket fd0 fd1))).closed
      ≡ once (has true ms) fd1.number ++ once (has false ms) fd1.number
unfolding destroy new_unix_socket
destroy-init_all ms fd0 fd1 = ground (arith, init_all_lem ms (new_unix_socket fd0 fd1))
