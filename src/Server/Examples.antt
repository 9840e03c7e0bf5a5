-- ===== src/Server/Examples.antt =====
-- A server of net/TcpServer.cpp with two loops and one connection.
use cly_server.Base.{
  arith, ℕ, ◌+◌, ◌<◌, ◌≡◌, refl, true, false, some, List, [], ◌∷◌, length, get_elem?, codes, ok,
  fault, assert_failed,
}
use cly_server.Base.Map.{string_key, lookup, insert}
use cly_server.Server.{
  ThreadPool, TcpServer, new, conn_name, new_connection, get_next_loop, loop_at, advance, is_empty,
  increment, remove_connection_in_loop,
}
use cly_server.Server.Rotation.{take_loops}
use cly_server.Server.Names.{mark, Reachable, created, accepted, remove-Reachable}
use cly_server.Server.Service.{Service, start}
use cly_server.Server.Serving.{serving, turn_of, serving-rotates}
use cly_server.Sockets.{gives}
use cly_server.Server.Accepting.{mark_all, accept_all, accept_all-Reachable}
use cly_server.Base.Int.{pos}

abbrev pool : ThreadPool
pool = record { base_loop = 4; loops = 5 ∷ 6 ∷ []; next = 1; started = true }

abbrev one_connection : TcpServer
one_connection = record {
  name = codes "http";
  pool = record pool { next = 0 };
  next_conn_id = 2;
  connections = (conn_name (codes "http") 1, 1) ∷ [];
}

one_connection-Reachable : Reachable one_connection (mark (λ _. false) 1 true)
unfolding new new_connection get_next_loop loop_at advance is_empty increment insert
one_connection-Reachable = accepted 1 6 (created (codes "http") pool) refl

remove-Reachable_example :
    (lookup (conn_name (codes "http") 1) one_connection.connections ≡ some 1)
    × ((s' : TcpServer) × (remove_connection_in_loop one_connection (conn_name (codes "http") 1)
          ≡ ok s')
        × Reachable s' (mark (mark (λ _. false) 1 true) 1 false))
remove-Reachable_example = remove-Reachable 1 one_connection-Reachable refl

serving-rotates_example :
    (s : Service) × (names : List (List ℕ)) × (inits : List ℕ) × (serving
        (codes "http")
        4
        (gives 3)
        (gives tt)
        (gives tt)
        0
        (pos 2)
        (λ i. 100 + i)
      ≡ ok (s, names, inits))
    × (start (λ i. 100 + i) (gives tt) s ≡ fault assert_failed)
    × (ls : List ℕ) × (take_loops 5 s.server.pool ≡ ok ls)
    × (length ls ≡ 5)
    × ((i : ℕ) → i < 5 → get_elem? ls i ≡ some (turn_of 4 (λ i. 100 + i) 2 i))
serving-rotates_example = serving-rotates (codes "http") 4 3 0 2 5 (λ i. 100 + i)

abbrev service : Service
service = record {
  server = one_connection;
  acceptor = record { listening = true; reading = true; has_callback = true; idle_fd = 0 };
  num_threads = 2;
  has_init = false;
}

accept_all-Reachable_example :
    (s' : Service) × (accept_all service (8 ∷ 9 ∷ []) ≡ ok s')
    × Reachable s'.server (mark_all (mark (λ _. false) 1 true) 2 2)
    × ((i : ℕ)
        → i < 2
        → lookup (conn_name (codes "http") (2 + i)) s'.server.connections ≡ some (2 + i))
    × ((n : ℕ)
        → mark (λ _. false) 1 true n ≡ true
        → lookup (conn_name (codes "http") n) s'.server.connections ≡ some n)
accept_all-Reachable_example =
    accept_all-Reachable (8 ∷ 9 ∷ []) service (mark (λ _. false) 1 true) refl refl (omega arith)
      (omega arith) one_connection-Reachable
