-- ===== src/Examples/Shutting.antt =====
-- Shutting down a concrete socket.
use libcpp_core.Base.{◌≤◌, ◌≡◌, true, false, none, some, [], ◌∷◌, arith}
use libcpp_core.BasicSock.{BasicSock, Sockets, fd_stream, is_eof, destroy_sock}
use libcpp_core.BasicSock.Destroyed.{destroy_sock-shut_all}
use libcpp_core.BasicSock.Shut.{IsShutOnce, reading, count_rd, count_wr, most_calls, shut_all}

abbrev pub sockets : Sockets
sockets = record { is_socket = λ fd. some true; shutdown = λ fd how. none }

abbrev both_open : BasicSock
both_open = record {
  in_ = fd_stream 3;
  out_ = fd_stream 4;
  failr = false;
  failw = false;
  calls = [];
}

both_open-IsShutOnce : IsShutOnce both_open
unfolding count_rd count_wr most_calls
both_open-IsShutOnce = record { reads = omega arith; writes = omega arith }

destroy_sock-shut_all_example :
    (is_eof ((destroy_sock sockets (shut_all sockets (reading ∷ reading ∷ []) both_open)).in_)
      ≡ true)
    × (is_eof ((destroy_sock sockets (shut_all sockets (reading ∷ reading ∷ []) both_open)).out_)
        ≡ true)
    × (count_rd ((destroy_sock sockets (shut_all sockets (reading ∷ reading ∷ []) both_open)).calls)
        ≤ 1)
    × (count_wr ((destroy_sock sockets (shut_all sockets (reading ∷ reading ∷ []) both_open)).calls)
        ≤ 1)
destroy_sock-shut_all_example =
    destroy_sock-shut_all sockets (reading ∷ reading ∷ []) both_open both_open-IsShutOnce
