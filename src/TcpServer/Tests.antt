-- ===== src/TcpServer/Tests.antt =====
-- Net/TcpServer.cpp: the theorems at a concrete server.
use ioloop.Prelude.{
  none, Option, ℕ, ◌≡◌, refl, List, [], ◌∷◌, ◌++◌, some, Result, ok, err, ◌>>=◌, true, arith,
  get_elem?,
}
use ioloop.Buffer.{create}
use ioloop.Buffer.Ints.BigEndian.{big_endian}
use ioloop.LoopPool
use ioloop.LoopPool.{get_next_loop_of}
use ioloop.Connection.{new_connection, connect_established, read_header, handle_close, on_header}
use ioloop.Connection.Steps.{header_failed}
use ioloop.TcpServer.{
  Object, remove_task, established_task, TcpServer, new_server, set_thread_num, start, accept,
  on_accept, new_connection_of, established, run_task, remove_connection,
}
use ioloop.TcpServer.Names.{conn_name-injective}
use ioloop.TcpServer.Invariant.{
  moved, ServerStep, Reach, here, next, threads_set, was_started, accepted, ran, went_on, Holds,
  no_pending,
}
use ioloop.TcpServer.Removal.{Removed}
use ioloop.TcpServer.Runs.{Reach-Holds, Reach-Removed}

abbrev value : Result TcpServer → TcpServer → TcpServer
value (ok s) t = s
value (err fault) t = t

-- `1.2.3.4`
abbrev ip : List ℕ
ip = 49 ∷ 46 ∷ 50 ∷ 46 ∷ 51 ∷ 46 ∷ 52 ∷ []

abbrev made : TcpServer
made = new_server 10 ip (115 ∷ []) true

abbrev threaded : TcpServer
threaded = set_thread_num 1 made

abbrev running : TcpServer
running = value (start (λ i. 11) threaded) threaded

abbrev connected : TcpServer
connected = value (on_accept (some 5) running) running

-- The connection is established on its own loop, and a read of it fails.
abbrev up : TcpServer
up = value (run_task (established_task 0) (record connected { posted = [] })) connected

abbrev conn_of : TcpServer → Option Object
conn_of s = get_elem? s.objects 0

abbrev fails : Option Object → TcpServer → TcpServer
fails none s = s
fails (some o) s = value (on_header big_endian none o.conn >>= λ conn. moved 0 o conn s) s

abbrev failed : TcpServer
failed = fails (conn_of up) up

runs : start (λ i. 11) threaded ≡ ok running
unfolding start LoopPool.run set_thread_num new_server
runs = refl

connects : on_accept (some 5) running ≡ ok connected
unfolding on_accept new_connection_of start LoopPool.run set_thread_num new_server get_next_loop_of
    new_connection create accept
connects = refl

goes_up : run_task (established_task 0) (record connected { posted = [] }) ≡ ok up
unfolding on_accept new_connection_of start LoopPool.run set_thread_num new_server get_next_loop_of
    new_connection create run_task established connect_established accept
goes_up = refl

waits : failed.posted ≡ remove_task 0 ∷ []
unfolding on_accept new_connection_of start LoopPool.run set_thread_num new_server get_next_loop_of
    new_connection create run_task established connect_established on_header handle_close
    read_header remove_connection accept
waits = refl

goes_on : ServerStep big_endian up failed
unfolding on_accept new_connection_of start LoopPool.run set_thread_num new_server get_next_loop_of
    new_connection create run_task established connect_established on_header handle_close
    read_header remove_connection accept
goes_on = went_on 0 _ [] _ refl (header_failed refl refl refl) refl

reached : Reach big_endian made failed
unfolding on_accept new_connection_of start LoopPool.run set_thread_num new_server get_next_loop_of
    new_connection create accept
reached =
    next
      (next
        (next (next (next here (threads_set 1 refl)) (was_started (λ i. 11) runs))
          (accepted (some 5) (omega arith) connects))
        (ran [] (established_task 0) [] refl goes_up))
      goes_on

Reach-Holds_example : Holds no_pending failed
Reach-Holds_example = Reach-Holds big_endian 10 ip (115 ∷ []) true failed (omega arith) reached

Reach-Removed_example : (s' : TcpServer) × Removed 0 (record failed { posted = [] ++ [] }) s'
Reach-Removed_example =
    Reach-Removed big_endian 10 ip (115 ∷ []) true failed [] 0 [] (omega arith) reached waits

conn_name-injective_example : ◌≡◌ {A = ℕ} 7 7
conn_name-injective_example =
    conn_name-injective (115 ∷ []) ip 7 7 (omega arith) (omega arith) (omega arith) refl
