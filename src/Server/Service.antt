-- ===== src/Server/Service.antt =====
-- The rest of net/TcpServer.cpp and of net/EventLoopThreadPool.cpp: a server with its acceptor and
-- its threads, from its construction to its end. The address of the loop of a thread is a
-- parameter.
use cly_server.Base.{
  ℕ, zero, suc, ◌+◌, Bool, true, false, List, [], ◌∷◌, ◌++◌, ◌==◌, if◌then◌else◌, length, take,
  Result, ok, fault, assert_failed, ◌>>=◌,
}
use cly_server.Base.Int.{ℤ, pos, negsuc}
use cly_server.Base.Decimal.{decimal}
use cly_server.Server.{TcpServer, new, new_pool, start_pool}
use cly_server.Sockets.{Answer, Acceptor, new_acceptor, set_new_connection_callback}
use cly_server.Sockets.Accepting.{start_accepting}

pub record Service : Type 0 where
  pub server : TcpServer
  pub acceptor : Acceptor
  pub num_threads : ℕ
  -- Whether `threadInitCallback_` is set.
  pub has_init : Bool

unfoldable pub new_service : List ℕ → ℕ → Answer ℕ → Answer (Unit {0}) → ℕ → Result Service
new_service name base_loop socket bound garbage = do
  acceptor ← new_acceptor socket bound garbage
  ok (record {
    server = new name (new_pool base_loop);
    acceptor = set_new_connection_callback acceptor;
    num_threads = 10;
    has_init = false;
  })

unfoldable pub set_thread_num : Service → ℤ → Result Service
set_thread_num s (pos n) = ok (record s { num_threads = n })
set_thread_num s (negsuc n) = fault assert_failed

unfoldable pub set_thread_init_callback : Service → Service
set_thread_init_callback s = record s { has_init = true }

-- `snprintf` into 32 characters more than the name has.
unfoldable pub thread_name : List ℕ → ℕ → List ℕ
thread_name name i = take (length name + 31) (name ++ decimal i)

-- The threads from the `i`th on, by their names, and their loops.
unfoldable pub thread_names : List ℕ → ℕ → ℕ → List (List ℕ)
thread_names name i zero = []
thread_names name i (suc n) = thread_name name i ∷ thread_names name (i + 1) n

unfoldable pub thread_loops : (ℕ → ℕ) → ℕ → ℕ → List ℕ
thread_loops loop i zero = []
thread_loops loop i (suc n) = loop i ∷ thread_loops loop (i + 1) n

-- The loops that the callback is called with.
unfoldable pub init_loops : Service → List ℕ → List ℕ
init_loops s loops =
    if s.has_init then (if s.num_threads == 0 then s.server.pool.base_loop ∷ [] else loops) else []

-- `start`: the names of the new threads, and the loops that the callback saw.
unfoldable pub start :
    (ℕ → ℕ) → Answer (Unit {0}) → Service → Result (Service × List (List ℕ) × List ℕ)
start loop listened s =
    let loops = thread_loops loop 0 s.num_threads in
    let server = record s.server { pool = start_pool s.server.pool loops } in
    start_accepting s.acceptor listened >>= λ a. ok (
      record s { server = server; acceptor = a },
      thread_names s.server.name 0 s.num_threads,
      init_loops s loops,
    )

-- The destructor calls `connectDestroyed` of every connection of the map.
unfoldable pub destroyed : List (List ℕ × ℕ) → List ℕ
destroyed [] = []
destroyed ((name, n) ∷ connections) = n ∷ destroyed connections
