-- ===== src/Server.antt =====
-- net/EventLoopThreadPool.h, net/EventLoopThreadPool.cpp, net/TcpServer.h and net/TcpServer.cpp: the
-- loops of a server and its map of connections. A loop is known by a number, and a connection by that
-- in its name.
pub mod Rotation
pub mod Names
pub mod Service
pub mod Serving
pub mod Accepting
mod Examples
use cly_server.Base.{
  ℕ, ◌+◌, ◌-◌, ◌%◌, ◌^◌, ◌<◌, Bool, true, false, Option, none, some, List, [], ◌∷◌, ◌++◌, ltb, leb,
  ◌==◌, if◌then◌else◌, length, get_elem?, take, codes, Result, ok, fault, out_of_range, overflow,
  assert, ◌>>=◌, ◌>>◌,
}
use cly_server.Base.Decimal.{decimal}
use cly_server.Base.Map.{string_key, insert, lookup, erase}

pub record ThreadPool : Type 0 where
  pub base_loop : ℕ
  pub loops : List ℕ
  pub next : ℕ
  pub started : Bool

unfoldable pub new_pool : ℕ → ThreadPool
new_pool base_loop = record { base_loop = base_loop; loops = []; next = 0; started = false }

-- `start`, for the loops that the new threads run.
unfoldable pub start_pool : ThreadPool → List ℕ → ThreadPool
start_pool p new_loops = record p { started = true; loops = p.loops ++ new_loops }

unfoldable pub is_empty : List ℕ → Bool
is_empty [] = true
is_empty (l ∷ ls) = false

-- The index behind one that was used.
unfoldable pub advance : ℕ → ℕ → ℕ
advance next size = if leb size (next + 1) then 0 else next + 1

unfoldable pub loop_at : ThreadPool → Option ℕ → Result (ℕ × ThreadPool)
loop_at p none = fault out_of_range
loop_at p (some l) = ok (l, record p { next = advance p.next (length p.loops) })

unfoldable pub get_next_loop : ThreadPool → Result (ℕ × ThreadPool)
get_next_loop p = do
  assert p.started
  if is_empty p.loops then ok (p.base_loop, p) else loop_at p (get_elem? p.loops p.next)

unfoldable pub get_loop_for_hash : ThreadPool → ℕ → ℕ
get_loop_for_hash p hash_code = elim (get_elem? p.loops (hash_code % length p.loops)) [
  | none ↦ p.base_loop
  | some l ↦ l
]

unfoldable pub get_all_loops : ThreadPool → Result (List ℕ)
get_all_loops p = do assert p.started; ok (if is_empty p.loops then p.base_loop ∷ [] else p.loops)

pub record TcpServer : Type 0 where
  pub name : List ℕ
  pub pool : ThreadPool
  pub next_conn_id : ℕ
  pub connections : List (List ℕ × ℕ)

unfoldable pub new : List ℕ → ThreadPool → TcpServer
new name pool = record { name = name; pool = pool; next_conn_id = 1; connections = [] }

-- The greatest `int` and one.
abbrev pub int_end : ℕ
int_end = 2 ^ 31

-- `++nextConnId_`, undefined where an `int` ends.
unfoldable pub increment : ℕ → Result ℕ
increment n = if ltb (n + 1) int_end then ok (n + 1) else fault overflow

-- `snprintf` into 64 characters, behind the server's name.
unfoldable pub conn_name : List ℕ → ℕ → List ℕ
conn_name name id = name ++ take 63 (codes "connection-" ++ decimal id)

-- `newConnection`: the connection's number and its loop.
unfoldable pub new_connection : TcpServer → Result (ℕ × ℕ × TcpServer)
new_connection s = do
  (io_loop, pool) ← get_next_loop s.pool
  next_id ← increment s.next_conn_id
  ok (
    s.next_conn_id,
    io_loop,
    record s {
      pool = pool;
      next_conn_id = next_id;
      connections = insert (conn_name s.name s.next_conn_id) s.next_conn_id s.connections;
    },
  )

unfoldable pub is_found : Option ℕ → Bool
is_found none = false
is_found (some n) = true

-- `removeConnectionInLoop`: the map must hold the connection's name.
unfoldable pub remove_connection_in_loop : TcpServer → List ℕ → Result TcpServer
remove_connection_in_loop s name = do
  assert (is_found (lookup name s.connections))
  ok (record s { connections = erase name s.connections })
