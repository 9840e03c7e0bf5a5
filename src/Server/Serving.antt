-- ===== src/Server/Serving.antt =====
-- What net/TcpServer.cpp sets going with its threads, and what it ends.
use mathlib.Core.List.{append_cancel_left}
use native.Mathlib.Nat.{mod-lt}
use cly_server.Base.{
  ℕ, zero, suc, ◌+◌, ◌%◌, ◌<◌, ◌≡◌, refl, sym, ap, ◌∙◌, Bool, true, Bool-cases, inl, inr, some,
  List, [], ◌∷◌, ◌++◌, if◌then◌else◌, length, length-append, get_elem?, take_past, Result, ok,
  fault, assert_failed, ◌>>=◌, arith,
}
use cly_server.Base.Int.{ℤ, pos}
use cly_server.Base.Decimal.{decimal, value_onto, value_onto-decimal, length-digits_onto}
use cly_server.Base.Map.{string_key, lookup, same}
use cly_server.Server.{
  get_next_loop, is_empty, ThreadPool, TcpServer, new, new_pool, start_pool, int_end, conn_name,
}
use cly_server.Server.Rotation.{take_loops, take_loops-rotates}
use cly_server.Server.Names.{Reachable, Reachable-Inv}
use cly_server.Server.Service.{
  Service, new_service, set_thread_num, thread_name, thread_loops, start, destroyed,
}
use cly_server.Sockets.{
  Answer, gives, new_acceptor, create_nonblocking_or_die, bind_or_die, or_message,
  set_new_connection_callback, listen, listen_or_die,
}
use cly_server.Sockets.Accepting.{start_accepting}

length-thread_loops : (loop : ℕ → ℕ) (i n : ℕ) → length (thread_loops loop i n) ≡ n
unfolding thread_loops
length-thread_loops loop i zero = refl
length-thread_loops loop i (suc n) = ap suc (length-thread_loops loop (i + 1) n)

thread_loops-at :
    (loop : ℕ → ℕ) (i n j : ℕ) → j < n → get_elem? (thread_loops loop i n) j ≡ some (loop (i + j))
unfolding thread_loops
thread_loops-at loop i zero j h = absurd (omega arith)
thread_loops-at loop i (suc n) zero h = ap (λ k. some (loop k)) (omega arith)
thread_loops-at loop i (suc n) (suc j) h =
    thread_loops-at loop (i + 1) n j (omega arith) ∙ ap (λ k. some (loop k)) (omega arith)

-- A server that was made, that was given a number of threads, and that was started.
unfoldable pub serving :
    List ℕ
    → ℕ
    → Answer ℕ
    → Answer (Unit {0})
    → Answer (Unit {0})
    → ℕ
    → ℤ
    → (ℕ → ℕ)
    → Result (Service × List (List ℕ) × List ℕ)
serving name base_loop socket bound listened garbage threads loop =
    new_service name base_loop socket bound garbage >>= λ s.
    (set_thread_num s threads >>= start loop listened)

-- The loop of the ith connection, of n threads: the threads' in turn, or the base loop without any.
abbrev pub turn_of : ℕ → (ℕ → ℕ) → ℕ → ℕ → ℕ
turn_of base_loop loop zero i = base_loop
turn_of base_loop loop (suc n) i = loop (i % suc n)

base_loop_next :
    (p : ThreadPool) → p.started ≡ true → p.loops ≡ [] → get_next_loop p ≡ ok (p.base_loop, p)
unfolding get_next_loop is_empty
base_loop_next p s e = rw (s, e)

take_loops-empty :
    (k : ℕ) (p : ThreadPool)
    → p.started ≡ true
    → p.loops ≡ []
    → (ls : List ℕ) × (take_loops k p ≡ ok ls)
      × (length ls ≡ k)
      × ((i : ℕ) → i < k → get_elem? ls i ≡ some p.base_loop)
unfolding take_loops
take_loops-empty zero p s e = ([], refl, refl, λ i h. absurd (omega arith))
take_loops-empty (suc k) p s e =
    let (ls, taken, len, at) = take_loops-empty k p s e in
    (p.base_loop ∷ ls, rw (base_loop_next p s e, taken), ap suc len, λ i h. each ls at i h)
  where
    each :
        (ls : List ℕ)
        → ((i : ℕ) → i < k → get_elem? ls i ≡ some p.base_loop)
        → (i : ℕ) → i < suc k
        → get_elem? (p.base_loop ∷ ls) i ≡ some p.base_loop
    each ls at zero h = refl
    each ls at (suc i) h = at i (omega arith)

some_threads :
    (name : List ℕ) (base_loop sockfd garbage n k : ℕ) (loop : ℕ → ℕ)
    → (s : Service) × (names : List (List ℕ)) × (inits : List ℕ) × (serving name base_loop
          (gives sockfd)
          (gives tt)
          (gives tt)
          garbage
          (pos (suc n))
          loop
        ≡ ok (s, names, inits))
      × (start loop (gives tt) s ≡ fault assert_failed)
      × (ls : List ℕ) × (take_loops k s.server.pool ≡ ok ls)
      × (length ls ≡ k)
      × ((i : ℕ) → i < k → get_elem? ls i ≡ some (loop (i % suc n)))
unfolding serving new_service set_thread_num start start_accepting new_acceptor
    create_nonblocking_or_die bind_or_die or_message set_new_connection_callback listen
    listen_or_die start_pool new new_pool
some_threads name base_loop sockfd garbage n k loop =
    let loops = thread_loops loop 0 (suc n) in
    let len : length loops ≡ suc n = length-thread_loops loop 0 (suc n) in
    let p : ThreadPool = record {
      base_loop = base_loop;
      loops = loops;
      next = 0;
      started = true;
    } in
    let (ls, e, l, turns) = take_loops-rotates k p refl (omega (arith, len)) in
    (_, _, _, refl, refl, ls, e, l, λ i lt. turns i lt ∙ each i len)
  where
    each :
        (i : ℕ)
        → length (thread_loops loop 0 (suc n)) ≡ suc n
        → get_elem? (thread_loops loop 0 (suc n)) ((0 + i) % length (thread_loops loop 0 (suc n)))
          ≡ some (loop (i % suc n))
    each i len =
        ap (get_elem? (thread_loops loop 0 (suc n)))
          (ap (λ m. (0 + i) % m) len ∙ ap (λ j. j % suc n) {x = 0 + i} {y = i} (omega arith))
        ∙ thread_loops-at loop 0 (suc n) (i % suc n) (mod-lt i (omega arith))
        ∙ ap (λ j. some (loop j)) {x = 0 + i % suc n} {y = i % suc n} (omega arith)

no_threads :
    (name : List ℕ) (base_loop sockfd garbage k : ℕ) (loop : ℕ → ℕ)
    → (s : Service) × (names : List (List ℕ)) × (inits : List ℕ) × (serving name base_loop
          (gives sockfd)
          (gives tt)
          (gives tt)
          garbage
          (pos 0)
          loop
        ≡ ok (s, names, inits))
      × (start loop (gives tt) s ≡ fault assert_failed)
      × (ls : List ℕ) × (take_loops k s.server.pool ≡ ok ls)
      × (length ls ≡ k)
      × ((i : ℕ) → i < k → get_elem? ls i ≡ some base_loop)
unfolding serving new_service set_thread_num start start_accepting new_acceptor
    create_nonblocking_or_die bind_or_die or_message set_new_connection_callback listen
    listen_or_die start_pool new new_pool thread_loops
no_threads name base_loop sockfd garbage k loop =
    let p : ThreadPool = record { base_loop = base_loop; loops = []; next = 0; started = true } in
    let (ls, e, l, each) = take_loops-empty k p refl refl in (_, _, _, refl, refl, ls, e, l, each)

-- A server whose socket can be made, bound and set to listen starts with any number of threads; the
-- connections that follow are given to the loops of the threads in turn, or to the base loop if
-- there are no threads; and to start it a second time fails the assertion on the acceptor.
pub serving-rotates :
    (name : List ℕ) (base_loop sockfd garbage n k : ℕ) (loop : ℕ → ℕ)
    → (s : Service) × (names : List (List ℕ)) × (inits : List ℕ) × (serving name base_loop
          (gives sockfd)
          (gives tt)
          (gives tt)
          garbage
          (pos n)
          loop
        ≡ ok (s, names, inits))
      × (start loop (gives tt) s ≡ fault assert_failed)
      × (ls : List ℕ) × (take_loops k s.server.pool ≡ ok ls)
      × (length ls ≡ k)
      × ((i : ℕ) → i < k → get_elem? ls i ≡ some (turn_of base_loop loop n i))
serving-rotates name base_loop sockfd garbage zero k loop =
    no_threads name base_loop sockfd garbage k loop
serving-rotates name base_loop sockfd garbage (suc n) k loop =
    some_threads name base_loop sockfd garbage n k loop

thread_name-short : (name : List ℕ) (i : ℕ) → i < int_end → thread_name name i ≡ name ++ decimal i
unfolding thread_name decimal
thread_name-short name i h =
    take_past (length name + 31) (name ++ decimal i) (
      omega
        (arith, length-append name (decimal i), length-digits_onto (suc i) 9 i [] (omega arith)))

-- The threads of a server have different names.
pub thread_name_injective :
    (name : List ℕ) (i j : ℕ)
    → i < int_end
    → j < int_end
    → thread_name name i ≡ thread_name name j
    → i ≡ j
thread_name_injective name i j h k e =
    let joined = sym (thread_name-short name i h) ∙ e ∙ thread_name-short name j k in
    let digits = append_cancel_left name (decimal i) (decimal j) joined in
    sym (value_onto-decimal i) ∙ ap (value_onto 0) digits ∙ value_onto-decimal j

lookup-destroyed :
    (k : List ℕ) (n : ℕ) (m : List (List ℕ × ℕ))
    → lookup k m ≡ some n
    → (i : ℕ) × (get_elem? (destroyed m) i ≡ some n)
unfolding lookup destroyed
lookup-destroyed k n [] e = absurd (cc)
lookup-destroyed k n ((name, v) ∷ m) e = elim (Bool-cases (same name k)) [
  | inl this ↦ (0, sym (ap (λ b. if b then some v else lookup k m) this) ∙ e)
  | inr other ↦
      let (i, at) =
        lookup-destroyed k n m (sym (ap (λ b. if b then some v else lookup k m) other) ∙ e) in
      (suc i, at)
]

-- The destructor destroys every connection that lives.
pub destroyed-Reachable :
    (s : TcpServer) (live : ℕ → Bool) (n : ℕ)
    → Reachable s live
    → live n ≡ true
    → (i : ℕ) × (get_elem? (destroyed s.connections) i ≡ some n)
destroyed-Reachable s live n r lives =
    lookup-destroyed (conn_name s.name n) n s.connections ((Reachable-Inv r).found n lives)
