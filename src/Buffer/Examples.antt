-- ===== src/Buffer/Examples.antt =====
-- The buffer of net/Buffer.h on concrete bytes.
use cly_server.Base.{ℕ, ◌≡◌, refl, List, [], ◌∷◌, ◌++◌, ok, arith}
use cly_server.Buffer.{Buffer, contents, readable_bytes, writable_bytes, read_fd, got, offered}
use cly_server.Buffer.Invariant.{IsValid}
use cly_server.Buffer.Receive.{read_fd-Holds}
use cly_server.Buffer.Queue.{
  Op, retrieve_up_to, unwrite_some, append_bytes, retrieve_some, take_string, take_all, run,
  queue_run, run_refines,
}
use cly_server.Buffer.Network.{append_int, read_int, read_int-append_int}
use cly_server.Buffer.Search.{FindsCrlf, find_crlf, find_crlf-FindsCrlf}

-- Two readable bytes, and room for four more.
abbrev two_bytes : Buffer
two_bytes = record {
  bytes = 0 ∷ 0 ∷ 0 ∷ 0 ∷ 0 ∷ 0 ∷ 0 ∷ 0 ∷ 65 ∷ 66 ∷ 0 ∷ 0 ∷ 0 ∷ 0 ∷ [];
  reader = 8;
  writer = 10;
}

two_bytes-IsValid : IsValid two_bytes
two_bytes-IsValid = record {
  ordered = omega arith;
  inside = omega arith;
  roomy = omega arith;
  small = omega arith;
}

abbrev no_bytes : Buffer
no_bytes = record two_bytes { writer = 8 }

no_bytes-IsValid : IsValid no_bytes
no_bytes-IsValid = record {
  ordered = omega arith;
  inside = omega arith;
  roomy = omega arith;
  small = omega arith;
}

abbrev calls : List Op
calls =
    take_string 1
    ∷ append_bytes (67 ∷ 68 ∷ 69 ∷ 70 ∷ 71 ∷ 72 ∷ [])
    ∷ retrieve_some 2
    ∷ take_all
    ∷ unwrite_some 1
    ∷ retrieve_up_to 1
    ∷ retrieve_some 1
    ∷ []

run_refines_example : run two_bytes calls ≡ queue_run (contents two_bytes) calls
run_refines_example = run_refines calls two_bytes two_bytes-IsValid (omega arith)

abbrev six_bytes : List ℕ
six_bytes = 67 ∷ 68 ∷ 69 ∷ 70 ∷ 71 ∷ 72 ∷ []

read_fd-Holds_example :
    (b' : Buffer) × (read_fd two_bytes (got six_bytes) ≡ ok (got six_bytes, b'))
    × IsValid b'
    × (contents b' ≡ contents two_bytes ++ six_bytes)
unfolding offered writable_bytes
read_fd-Holds_example =
    read_fd-Holds two_bytes six_bytes two_bytes-IsValid (omega arith) (omega arith)

read_int-append_int_example :
    (b' b'' : Buffer) × (append_int 4 no_bytes 258 ≡ ok b')
    × (read_int 4 b' ≡ ok (258, b''))
    × IsValid b''
    × (contents b'' ≡ [])
unfolding contents readable_bytes
read_int-append_int_example =
    read_int-append_int 4 no_bytes 258 no_bytes-IsValid refl (omega arith) (omega arith)

-- "A\r\n"
abbrev line_bytes : Buffer
line_bytes = record {
  bytes = 0 ∷ 0 ∷ 0 ∷ 0 ∷ 0 ∷ 0 ∷ 0 ∷ 0 ∷ 65 ∷ b'\r' ∷ b'\n' ∷ [];
  reader = 8;
  writer = 11;
}

find_crlf-FindsCrlf_example : FindsCrlf (contents line_bytes) (find_crlf line_bytes)
find_crlf-FindsCrlf_example = find_crlf-FindsCrlf line_bytes
