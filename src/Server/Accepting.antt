-- ===== src/Server/Accepting.antt =====
-- The acceptor of net/Acceptor.cpp with `newConnection` of net/TcpServer.cpp for its callback.
use cly_server.Base.{
  some, sym, ℕ, zero, suc, ◌+◌, ◌<◌, ◌≡◌, refl, ap, ◌∙◌, Bool, true, List, [], ◌∷◌, ltb,
  if◌then◌else◌, length, Result, ok, fault, overflow, ◌>>=◌, arith,
}
use cly_server.Base.Map.{string_key, insert, lookup}
use cly_server.Server.{
  ThreadPool, TcpServer, new_connection, get_next_loop, increment, advance, int_end, conn_name,
}
use cly_server.Server.Rotation.{get_next_loop_lem, advance-lt}
use cly_server.Server.Names.{Reachable, Reachable-Inv, accepted, mark}
use cly_server.Server.Service.{Service}
use cly_server.Sockets.{Answer, gives, Acceptor, Effect, handle_read, accept, after_accept}
use cly_server.Sockets

-- The calls of `newConnectionCallback_` among the effects.
unfoldable pub take_over : TcpServer → List Effect → Result TcpServer
take_over s [] = ok s
take_over s (Sockets.new_connection connfd ∷ es) = new_connection s >>= λ r. take_over r.2 es
take_over s (_ ∷ es) = take_over s es

-- One turn of the acceptor's channel at which `accept` gives a descriptor.
unfoldable pub on_acceptable : Service → ℕ → Result Service
on_acceptable s connfd = handle_read s.acceptor (gives connfd) 0 0 >>= λ r.
    (take_over s.server r.1 >>= λ server. ok (record s { server = server; acceptor = r.0 }))

unfoldable pub accept_all : Service → List ℕ → Result Service
accept_all s [] = ok s
accept_all s (connfd ∷ fds) = on_acceptable s connfd >>= λ s'. accept_all s' fds

-- The connections that live behind so many more.
abbrev pub mark_all : (ℕ → Bool) → ℕ → ℕ → ℕ → Bool
mark_all live n zero = live
mark_all live n (suc k) = mark_all (mark live n true) (n + 1) k

handle_read-gives :
    (a : Acceptor) (connfd : ℕ)
    → a.has_callback ≡ true
    → handle_read a (gives connfd) 0 0 ≡ ok (a, Sockets.new_connection connfd ∷ [])
unfolding handle_read accept after_accept
handle_read-gives a connfd h =
    ap (λ b. ok (a, (if b then Sockets.new_connection connfd else Sockets.closed connfd) ∷ [])) h

abbrev next_pool : ThreadPool → ThreadPool
next_pool p = record p { next = advance p.next (length p.loops) }

abbrev next_server : TcpServer → TcpServer
next_server s = record s {
  pool = next_pool s.pool;
  next_conn_id = s.next_conn_id + 1;
  connections = insert (conn_name s.name s.next_conn_id) s.next_conn_id s.connections;
}

new_connection-ok :
    (s : TcpServer) (l : ℕ)
    → get_next_loop s.pool ≡ ok (l, next_pool s.pool)
    → s.next_conn_id + 1 < int_end
    → new_connection s ≡ ok (s.next_conn_id, l, next_server s)
unfolding new_connection increment
new_connection-ok s l e h =
    ap
      (λ r. r >>= λ (io_loop, pool).
        (if ltb (s.next_conn_id + 1) int_end then ok (s.next_conn_id + 1) else fault overflow)
        >>= λ next_id. ok (
          s.next_conn_id,
          io_loop,
          record s {
            pool = pool;
            next_conn_id = next_id;
            connections = insert (conn_name s.name s.next_conn_id) s.next_conn_id s.connections;
          },
        ))
      e
    ∙ ap
        (λ b. (if b then ok (s.next_conn_id + 1) else fault overflow) >>= λ next_id. ok (
          s.next_conn_id,
          l,
          record s {
            pool = next_pool s.pool;
            next_conn_id = next_id;
            connections = insert (conn_name s.name s.next_conn_id) s.next_conn_id s.connections;
          },
        ))
        {x = ltb (s.next_conn_id + 1) int_end} {y = true} (ground arith)

on_acceptable-ok :
    (s : Service) (connfd l : ℕ)
    → s.acceptor.has_callback ≡ true
    → new_connection s.server ≡ ok (s.server.next_conn_id, l, next_server s.server)
    → on_acceptable s connfd ≡ ok (record s { server = next_server s.server })
unfolding on_acceptable take_over
on_acceptable-ok s connfd l h e =
    ap
      (λ r. r >>= λ r'.
        (take_over s.server r'.1 >>= λ server. ok (record s { server = server; acceptor = r'.0 })))
      (handle_read-gives s.acceptor connfd h)
    ∙ ap (λ r. (r >>= λ r'. take_over r'.2 []) >>= λ server. ok (record s { server = server })) e

-- The calls succeed, and lead to a server that comes about.
accepts :
    (fds : List ℕ) (s : Service) (live : ℕ → Bool)
    → s.acceptor.has_callback ≡ true
    → s.server.pool.started ≡ true
    → s.server.pool.next < length s.server.pool.loops
    → s.server.next_conn_id + length fds < int_end
    → Reachable s.server live
    → (s' : Service) × (accept_all s fds ≡ ok s')
      × Reachable s'.server (mark_all live s.server.next_conn_id (length fds))
      × (s'.server.name ≡ s.server.name)
unfolding accept_all
accepts [] s live callback started turn fits r = (s, refl, r, refl)
accepts (connfd ∷ fds) s live callback started turn fits r =
    let (l, at, _) = get_next_loop_lem s.server.pool started turn in
    let e = new_connection-ok s.server l at (omega (arith, fits)) in
    let (s', all, r', same_name) =
      accepts fds (record s { server = next_server s.server })
        (mark live s.server.next_conn_id true) callback started
        (advance-lt s.server.pool.next (length s.server.pool.loops) turn) (omega (arith, fits))
        (accepted s.server.next_conn_id l r e) in
    (
      s',
      ap (λ o. o >>= λ t. accept_all t fds) (on_acceptable-ok s connfd l callback e) ∙ all,
      r',
      same_name,
    )

marks-live : (live : ℕ → Bool) (n k m : ℕ) → live m ≡ true → mark_all live n k m ≡ true
marks-live live n zero m h = h
marks-live live n (suc k) m h = marks-live (mark live n true) (n + 1) k m (ground arith)

marks-new : (live : ℕ → Bool) (n k i : ℕ) → i < k → mark_all live n k (n + i) ≡ true
marks-new live n zero i h = absurd (omega arith)
marks-new live n (suc k) zero h = marks-live (mark live n true) (n + 1) k (n + 0) (ground arith)
marks-new live n (suc k) (suc i) h =
    ap (mark_all (mark live n true) (n + 1) k) {x = n + suc i} {y = n + 1 + i} (omega arith)
    ∙ marks-new (mark live n true) (n + 1) k i (omega arith)

-- What the server's map holds of a connection that lives.
Reachable-found :
    (s : TcpServer) (live : ℕ → Bool) (name : List ℕ) (n : ℕ)
    → Reachable s live
    → s.name ≡ name
    → live n ≡ true
    → lookup (conn_name name n) s.connections ≡ some n
Reachable-found s live name n r e h =
    ap (λ t. lookup (conn_name t n) s.connections) (sym e) ∙ (Reachable-Inv r).found n h

-- A started server of at least one thread takes over every socket that its acceptor is given, as
-- long as an `int` holds the numbers: no call fails, and afterwards the map of connections holds
-- each of the new ones under the name of its number, these being consecutive, and each that lived
-- before still under its own.
pub accept_all-Reachable :
    (fds : List ℕ) (s : Service) (live : ℕ → Bool)
    → s.acceptor.has_callback ≡ true
    → s.server.pool.started ≡ true
    → s.server.pool.next < length s.server.pool.loops
    → s.server.next_conn_id + length fds < int_end
    → Reachable s.server live
    → (s' : Service) × (accept_all s fds ≡ ok s')
      × Reachable s'.server (mark_all live s.server.next_conn_id (length fds))
      × ((i : ℕ)
          → i < length fds
          → lookup (conn_name s.server.name (s.server.next_conn_id + i)) s'.server.connections
            ≡ some (s.server.next_conn_id + i))
      × ((n : ℕ)
          → live n ≡ true
          → lookup (conn_name s.server.name n) s'.server.connections ≡ some n)
accept_all-Reachable fds s live callback started turn fits r =
    let (s', all, r', same_name) = accepts fds s live callback started turn fits r in
    let now = mark_all live s.server.next_conn_id (length fds) in
    (
      s',
      all,
      r',
      λ i h.
          Reachable-found s'.server now s.server.name (s.server.next_conn_id + i) r' same_name
            (marks-new live s.server.next_conn_id (length fds) i h),
      λ n h.
          Reachable-found s'.server now s.server.name n r' same_name
            (marks-live live s.server.next_conn_id (length fds) n h),
    )
