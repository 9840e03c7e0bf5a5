-- ===== src/Buffer/Receive.antt =====
-- `readFd` of net/Buffer.cpp.
use cly_server.Base.{
  lt→leb, ℕ, ◌+◌, ◌-◌, ◌≤◌, ◌<◌, ◌≡◌, ap, ◌∙◌, List, ◌++◌, append_assoc, arith, length, take, drop,
  length-take, length-drop, take-append-drop, write_at, le→leb, ok, dec_le,
}
use cly_server.Buffer.{
  Buffer, max_size, contents, writable_bytes, offered, extra_size, read_fd, got,
}
use cly_server.Buffer.Invariant.{IsValid}
use cly_server.Buffer.Contents.{filled, filled-IsValid, append-Holds}

-- The buffer once `readv` has filled its writable part to the end of the vector.
brimful : Buffer → List ℕ → Buffer
brimful b input = record b { bytes = write_at b.writer input b.bytes; writer = length b.bytes }

brimful-filled :
    (b : Buffer) (input : List ℕ)
    → IsValid b
    → writable_bytes b ≤ length input
    → brimful b (take (writable_bytes b) input) ≡ filled b (take (writable_bytes b) input)
unfolding brimful writable_bytes
brimful-filled b input v h =
    ap
      (λ n. record b {
        bytes = write_at b.writer (take (length b.bytes - b.writer) input) b.bytes;
        writer = n;
      })
      (omega (arith, length-take (length b.bytes - b.writer) input, v.inside))

-- The branch that also reads into `extrabuf`.
read_fd-spills :
    (b : Buffer) (input : List ℕ)
    → IsValid b
    → writable_bytes b < length input
    → length input ≤ writable_bytes b + extra_size
    → length b.bytes + extra_size ≤ max_size
    → (b' : Buffer) × (read_fd b (got input) ≡ ok (got input, b'))
      × IsValid b'
      × (contents b' ≡ contents b ++ input)
unfolding read_fd brimful
read_fd-spills b input v more h k =
    let front : List ℕ = take (writable_bytes b) input in
    let rest : List ℕ = drop (writable_bytes b) input in
    let (valid, kept) =
      filled-IsValid b front v (omega (arith, length-take (writable_bytes b) input)) in
    let same = brimful-filled b input v (omega arith) in
    let (b', e, v', c, _) =
      append-Holds (brimful b front) rest (rw same valid)
        (omega (arith, length-drop (writable_bytes b) input)) in
    (
      b',
      rw (lt→leb (length input) (writable_bytes b) more, e),
      v',
      c
          ∙ ap (λ xs. xs ++ rest) (ap contents same ∙ kept)
          ∙ append_assoc (contents b) front rest
          ∙ ap (λ xs. contents b ++ xs) (take-append-drop (writable_bytes b) input),
    )

-- Whatever the socket hands over, `readFd` puts all of it behind the readable bytes, in the
-- writable part alone or also in the 64 KB that stand by, and reports how much it was.
pub read_fd-Holds :
    (b : Buffer) (input : List ℕ)
    → IsValid b
    → length input ≤ offered b
    → length b.bytes + extra_size ≤ max_size
    → (b' : Buffer) × (read_fd b (got input) ≡ ok (got input, b'))
      × IsValid b'
      × (contents b' ≡ contents b ++ input)
unfolding read_fd offered
read_fd-Holds b input v h k = elim (dec_le (length input) (writable_bytes b)) [
  | yes fits ↦
      let (valid, kept) = filled-IsValid b input v fits in
      (filled b input, rw (le→leb (length input) (writable_bytes b) fits), valid, kept)
  | no more ↦ read_fd-spills b input v (omega arith) (ground arith) k
]
