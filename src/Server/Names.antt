-- ===== src/Server/Names.antt =====
-- The map of connections of net/TcpServer.cpp and the names in it.
use mathlib.Core.List.{append_cancel_left}
use mathlib.Core.Bool.{false≢true}
use cly_server.Base.{
  ℕ, suc, ◌+◌, ◌≤◌, ◌<◌, ◌≡◌, ◌≢◌, refl, sym, ap, subst, ◌∙◌, Bool, true, false, Bool-cases, ◌⊎◌,
  inl, inr, ℕ_discrete, some, List, [], ◌++◌, ◌==◌, if◌then◌else◌, length, length-append, take_past,
  codes, ok, assert, ◌>>◌, arith,
}
use cly_server.Base.Decimal.{decimal, value_onto, value_onto-decimal, length-digits_onto}
use cly_server.Base.Map.{
  string_key, same, same-eq, insert, lookup, erase, lookup-insert_self, lookup-insert_ne,
  lookup-erase_ne,
}
use cly_server.Server.{
  ThreadPool, TcpServer, new, int_end, increment, conn_name, new_connection, is_found,
  remove_connection_in_loop,
}

abbrev pub mark : (ℕ → Bool) → ℕ → Bool → ℕ → Bool
mark live n b m = if m == n then b else live m

-- The servers that come about, with the connections that live: a connection that was accepted lives
-- until it is removed.
pub data Reachable : TcpServer → (ℕ → Bool) → Type 0 where
  created : (name : List ℕ) (pool : ThreadPool) → Reachable (new name pool) (λ _. false)
  accepted :
      {s s' : TcpServer} {live : ℕ → Bool} (n io_loop : ℕ)
      → Reachable s live
      → new_connection s ≡ ok (n, io_loop, s')
      → Reachable s' (mark live n true)
  closed :
      {s s' : TcpServer} {live : ℕ → Bool} (n : ℕ)
      → Reachable s live
      → live n ≡ true
      → remove_connection_in_loop s (conn_name s.name n) ≡ ok s'
      → Reachable s' (mark live n false)

pub record Inv (s : TcpServer) (live : ℕ → Bool) : Type 0 where
  pub bounded : s.next_conn_id < int_end
  pub earlier : (n : ℕ) → live n ≡ true → n < s.next_conn_id
  pub found : (n : ℕ) → live n ≡ true → lookup (conn_name s.name n) s.connections ≡ some n

length-decimal : (n : ℕ) → n < int_end → length (decimal n) ≤ 10
unfolding decimal
length-decimal n h = length-digits_onto (suc n) 9 n [] (omega arith)

conn_name-short :
    (name : List ℕ) (n : ℕ)
    → n < int_end
    → conn_name name n ≡ name ++ (codes "connection-" ++ decimal n)
unfolding conn_name
conn_name-short name n h =
    ap (λ t. name ++ t)
      (take_past 63 (codes "connection-" ++ decimal n)
        (omega (arith, length-append (codes "connection-") (decimal n), length-decimal n h)))

-- Two numbers that an `int` holds give two names.
conn_name_injective :
    (name : List ℕ) (n m : ℕ)
    → n < int_end
    → m < int_end
    → conn_name name n ≡ conn_name name m
    → n ≡ m
conn_name_injective name n m h k e =
    let joined = sym (conn_name-short name n h) ∙ e ∙ conn_name-short name m k in
    let tails =
      append_cancel_left name (codes "connection-" ++ decimal n) (codes "connection-" ++ decimal m)
        joined in
    let digits = append_cancel_left (codes "connection-") (decimal n) (decimal m) tails in
    sym (value_onto-decimal n) ∙ ap (value_onto 0) digits ∙ value_onto-decimal m

names-same :
    (name : List ℕ) (n m : ℕ)
    → n < int_end
    → m < int_end
    → n ≢ m
    → same (conn_name name n) (conn_name name m) ≡ false
names-same name n m h k ne = elim (Bool-cases (same (conn_name name n) (conn_name name m))) [
  | inr e ↦ e
  | inl e ↦
      absurd
        (ne (conn_name_injective name n m h k (same-eq (conn_name name n) (conn_name name m) e)))
]

increment_lem : (n n' : ℕ) → increment n ≡ ok n' → (n' ≡ n + 1) × (n + 1 < int_end)
unfolding increment
increment_lem n n' e = ground arith

-- What an accepted connection changes.
new_connection_lem :
    (s s' : TcpServer) (n io_loop : ℕ)
    → new_connection s ≡ ok (n, io_loop, s')
    → (n ≡ s.next_conn_id)
      × (s.next_conn_id + 1 < int_end)
      × (s'.next_conn_id ≡ s.next_conn_id + 1)
      × (s'.name ≡ s.name)
      × (s'.connections ≡ insert (conn_name s.name s.next_conn_id) s.next_conn_id s.connections)
unfolding new_connection increment
new_connection_lem s s' n io_loop e =
    (ground arith, ground arith, ground arith, ground arith, ground arith)

mark-found :
    (live : ℕ → Bool) (n m : ℕ) (b : Bool)
    → mark live n b m ≡ true
    → (m ≡ n) ⊎ ((m ≢ n) × (live m ≡ true))
mark-found live n m b h = elim (ℕ_discrete m n) [ yes e ↦ inl e | no ne ↦ inr (ne, ground arith) ]

mark-false : (live : ℕ → Bool) (n m : ℕ) → mark live n false m ≡ true → (m ≢ n) × (live m ≡ true)
mark-false live n m h = elim (mark-found live n m false h) [
  | inl e ↦ absurd (ground arith)
  | inr k ↦ k
]

accepted-Inv :
    (s s' : TcpServer) (live : ℕ → Bool) (n io_loop : ℕ)
    → Inv s live
    → new_connection s ≡ ok (n, io_loop, s')
    → Inv s' (mark live n true)
accepted-Inv s s' live n io_loop v e =
    let (this, fits, next, same_name, map) = new_connection_lem s s' n io_loop e in
    record {
      bounded = subst (λ k. k < int_end) (sym next) fits;
      earlier = λ m h. elim (mark-found live n m true h) [
        | inl is_this ↦ omega (arith, is_this, this, next)
        | inr (_, old) ↦ omega (arith, v.earlier m old, next)
      ];
      found = λ m h.
          ap (λ k. lookup (conn_name k m) s'.connections) same_name
          ∙ ap (lookup (conn_name s.name m)) map
          ∙ elim (mark-found live n m true h) [
            | inl is_this ↦
                let eq : m ≡ s.next_conn_id = is_this ∙ this in
                ap
                  (λ k.
                    lookup (conn_name s.name k)
                      (insert (conn_name s.name s.next_conn_id) s.next_conn_id s.connections))
                  eq
                ∙ lookup-insert_self (conn_name s.name s.next_conn_id) s.next_conn_id s.connections
                ∙ ap some (sym eq)
            | inr (_, old) ↦
                let before : m < s.next_conn_id = v.earlier m old in
                lookup-insert_ne (conn_name s.name s.next_conn_id) (conn_name s.name m)
                  s.next_conn_id s.connections
                  (names-same s.name s.next_conn_id m v.bounded (omega (arith, before, v.bounded))
                    (λ h. omega (arith, before, h)))
                ∙ v.found m old
          ];
    }

remove-found :
    (s : TcpServer) (name : List ℕ) (n : ℕ)
    → lookup name s.connections ≡ some n
    → remove_connection_in_loop s name ≡ ok (record s { connections = erase name s.connections })
unfolding remove_connection_in_loop
remove-found s name n e =
    ap (λ o. assert (is_found o) >> ok (record s { connections = erase name s.connections })) e
    ∙ (unfold is_found in refl)

closed-Inv :
    (s : TcpServer) (live : ℕ → Bool) (n : ℕ)
    → Inv s live
    → live n ≡ true
    → Inv (record s { connections = erase (conn_name s.name n) s.connections }) (mark live n false)
closed-Inv s live n v lives = record {
  bounded = v.bounded;
  earlier = λ m h. v.earlier m (mark-false live n m h).1;
  found = λ m h.
      let (ne, old) = mark-false live n m h in
      lookup-erase_ne (conn_name s.name n) (conn_name s.name m) s.connections (λ e. ne (
        sym (
          conn_name_injective s.name n m (omega (arith, v.earlier n lives, v.bounded))
            (omega (arith, v.earlier m old, v.bounded)) e)))
      ∙ v.found m old;
}

first : {x y : TcpServer} → ok x ≡ ok y → x ≡ y
first e = cc

pub Reachable-Inv : {s : TcpServer} {live : ℕ → Bool} → Reachable s live → Inv s live
unfolding new
Reachable-Inv (created name pool) = record {
  bounded = omega arith;
  earlier = λ n (h : false ≡ true). absurd (false≢true h);
  found = λ n (h : false ≡ true). absurd (false≢true h);
}
Reachable-Inv (accepted {s} {s'} {live} n io_loop r e) =
    accepted-Inv s s' live n io_loop (Reachable-Inv r) e
Reachable-Inv (closed {s} {s'} {live} n r lives e) =
    let v = Reachable-Inv r in
    subst (λ x. Inv x (mark live n false))
      (first (sym (remove-found s (conn_name s.name n) n (v.found n lives)) ∙ e))
      (closed-Inv s live n v lives)

-- Whatever connections come and go, each live one stands in the map under its own name, so that no
-- new one takes its place and the assertion of `removeConnectionInLoop` holds when it closes.
pub remove-Reachable :
    {s : TcpServer} {live : ℕ → Bool} (n : ℕ)
    → Reachable s live
    → live n ≡ true
    → (lookup (conn_name s.name n) s.connections ≡ some n)
      × ((s' : TcpServer) × (remove_connection_in_loop s (conn_name s.name n) ≡ ok s')
          × Reachable s' (mark live n false))
remove-Reachable {s} n r lives =
    let at = (Reachable-Inv r).found n lives in
    let e = remove-found s (conn_name s.name n) n at in
    (
      at,
      (record s { connections = erase (conn_name s.name n) s.connections }, e, closed n r lives e),
    )
