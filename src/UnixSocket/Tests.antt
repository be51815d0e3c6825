-- ===== src/UnixSocket/Tests.antt =====
-- UnixSocket/UnixSocket.cpp: the theorems at a concrete pair.
use ioloop.Prelude.{ℕ, ◌≡◌, [], some, ok, true, false}
use ioloop.UnixSocket.{Fd, SocketPair, new_unix_socket, set_blocking}
use ioloop.UnixSocket.Blocking.{eight, set_blocking-eight}

abbrev fd : ℕ → Fd
fd n = record { number = n; nonblock = false; others = 2; cloexec = false }

abbrev pair : SocketPair
pair = new_unix_socket (fd 5) (fd 6)

set_blocking-eight_example :
    set_blocking (some true) (some true) pair (eight (λ i. i) [])
    ≡ ok (
      record pair {
        socks0 = record pair.socks0 { nonblock = true; cloexec = true };
        socks1 = record pair.socks1 { nonblock = true; cloexec = true };
      },
      [],
    )
set_blocking-eight_example = set_blocking-eight (λ i. i) true true pair []
