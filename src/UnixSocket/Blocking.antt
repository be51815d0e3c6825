-- ===== src/UnixSocket/Blocking.antt =====
-- UnixSocket/UnixSocket.cpp: system calls that are interrupted, and what is set in the end.
use ioloop.Prelude.{Option, ℕ, zero, suc, ◌≡◌, refl, List, ◌∷◌, some, ok, Bool, true, false, arith}
use ioloop.UnixSocket.{
  Answer, interrupted, failed, works, Fd, SocketPair, call, set_status, set_cloexec,
  set_sock_blocking, set_blocking,
}

-- So many interrupted calls, before this answer.
abbrev pub after : ℕ → Answer → List Answer → List Answer
after zero answer answers = answer ∷ answers
after (suc n) answer answers = interrupted ∷ after n answer answers

call-works : (n : ℕ) (answers : List Answer) → call (after n works answers) ≡ ok (true, answers)
unfolding call
call-works zero answers = refl
call-works (suc n) answers = call-works n answers

call-failed : (n : ℕ) (answers : List Answer) → call (after n failed answers) ≡ ok (false, answers)
unfolding call
call-failed zero answers = refl
call-failed (suc n) answers = call-failed n answers

set_sock_blocking-works :
    (i j k l : ℕ) (nonblock cloexec : Bool) (fd : Fd) (answers : List Answer)
    → set_sock_blocking
        (some nonblock)
        (some cloexec)
        fd
        (after i works (after j works (after k works (after l works answers))))
      ≡ ok (true, (record fd { nonblock = nonblock; cloexec = cloexec }, answers))
unfolding set_sock_blocking set_status set_cloexec
set_sock_blocking-works i j k l nonblock cloexec fd answers = ground (
  arith,
  call-works i (after j works (after k works (after l works answers))),
  call-works j (after k works (after l works answers)),
  call-works k (after l works answers),
  call-works l answers,
)

-- The eight calls of `setBlocking`, each after so many interruptions.
abbrev pub eight : (ℕ → ℕ) → List Answer → List Answer
eight n answers = after (n 0) works (
    after (n 1) works (
      after (n 2) works (
        after (n 3) works
          (after (n 4) works (after (n 5) works (after (n 6) works (after (n 7) works answers)))))))

-- Where no call fails, both descriptors take the two flags, however often each call is interrupted,
-- and keep their other flags; and the calls are these eight.
pub set_blocking-eight :
    (n : ℕ → ℕ) (nonblock cloexec : Bool) (p : SocketPair) (answers : List Answer)
    → set_blocking (some nonblock) (some cloexec) p (eight n answers)
      ≡ ok (
        record p {
          socks0 = record p.socks0 { nonblock = nonblock; cloexec = cloexec };
          socks1 = record p.socks1 { nonblock = nonblock; cloexec = cloexec };
        },
        answers,
      )
unfolding set_blocking
set_blocking-eight n nonblock cloexec p answers = ground (
  arith,
  set_sock_blocking-works (n 0) (n 1) (n 2) (n 3) nonblock cloexec p.socks0
      (after (n 4) works (after (n 5) works (after (n 6) works (after (n 7) works answers)))),
  set_sock_blocking-works (n 4) (n 5) (n 6) (n 7) nonblock cloexec p.socks1 answers,
)

-- When the status flags cannot be read, nothing is set, and the result is false.
pub set_sock_blocking_unread :
    (i : ℕ) (nonblock : Bool) (cloexec : Option Bool) (fd : Fd) (answers : List Answer)
    → set_sock_blocking (some nonblock) cloexec fd (after i failed answers)
      ≡ ok (false, (fd, answers))
unfolding set_sock_blocking set_status
set_sock_blocking_unread i nonblock cloexec fd answers = ground (arith, call-failed i answers)
