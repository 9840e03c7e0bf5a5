-- ===== src/Buffer.antt =====
-- net/Buffer.h and net/Buffer.cpp: the byte buffer between a socket and its handlers.
-- `size_t` sums wrap at 2^64; a pointer into the buffer is its index, a pointer that a search
-- returns its distance from `peek()`.
pub mod Search
pub mod Invariant
pub mod Space
pub mod Contents
pub mod Receive
pub mod Queue
pub mod Network
mod Examples
use cly_server.Base.{
  ℕ, ◌+◌, ◌-◌, ◌%◌, ◌^◌, ◌<◌, Bool, true, false, not, ◌&&◌, Option, none, some, List, [], ◌∷◌, ◌++◌,
  ltb, leb, ◌==◌, if◌then◌else◌, length, take, drop, replicate, write_at, Result, ok, fault,
  assert_failed, length_error, ◌>>=◌, ◌>>◌, assert,
}

pub record Buffer : Type 0 where
  pub bytes : List ℕ
  pub reader : ℕ
  pub writer : ℕ

abbrev pub cheap_prepend : ℕ
cheap_prepend = 8

abbrev pub initial_size : ℕ
initial_size = 1024

abbrev pub size_mod : ℕ
size_mod = 2 ^ 64

-- `max_size()` of a `std::vector<char>`: a longer one is refused by `std::length_error`.
abbrev pub max_size : ℕ
max_size = 2 ^ 63 - 1

-- `size_t` addition.
unfoldable pub add_size : ℕ → ℕ → ℕ
add_size a b = (a + b) % size_mod

-- `std::vector::resize`; new elements are zero.
unfoldable pub resize : ℕ → List ℕ → Result (List ℕ)
resize n bytes =
    if leb n max_size
    then ok (take n bytes ++ replicate (n - length bytes) 0)
    else fault length_error

-- The constructor.
unfoldable pub new : ℕ → Buffer
new size = record {
  bytes = replicate (cheap_prepend + size) 0;
  reader = cheap_prepend;
  writer = cheap_prepend;
}

unfoldable pub readable_bytes : Buffer → ℕ
readable_bytes b = b.writer - b.reader

unfoldable pub writable_bytes : Buffer → ℕ
writable_bytes b = length b.bytes - b.writer

unfoldable pub prependable_bytes : Buffer → ℕ
prependable_bytes b = b.reader

-- The bytes from `peek()` up to `beginWrite()`.
unfoldable pub contents : Buffer → List ℕ
contents b = take (b.writer - b.reader) (drop b.reader b.bytes)

unfoldable pub retrieve_all : Buffer → Buffer
retrieve_all b = record b { reader = cheap_prepend; writer = cheap_prepend }

unfoldable pub retrieve : Buffer → ℕ → Result Buffer
retrieve b len = do
  assert (leb len (readable_bytes b))
  ok (if ltb len (readable_bytes b) then record b { reader = b.reader + len } else retrieve_all b)

-- `end` is given by its distance from `peek()`, so `peek() <= end` holds.
unfoldable pub retrieve_until : Buffer → ℕ → Result Buffer
retrieve_until b end = do assert (leb end (readable_bytes b)); retrieve b end

unfoldable pub retrieve_as_string : Buffer → ℕ → Result (List ℕ × Buffer)
retrieve_as_string b len = do
  assert (leb len (readable_bytes b))
  let result = take len (contents b)
  rest ← retrieve b len
  ok (result, rest)

unfoldable pub retrieve_all_as_string : Buffer → Result (List ℕ × Buffer)
retrieve_all_as_string b = retrieve_as_string b (readable_bytes b)

unfoldable pub make_space : Buffer → ℕ → Result Buffer
make_space b len =
    if ltb (add_size (writable_bytes b) (prependable_bytes b)) (add_size len cheap_prepend)
    then (do grown ← resize (add_size b.writer len) b.bytes; ok (record b { bytes = grown }))
    else do
      assert (ltb cheap_prepend b.reader)
      ok (record {
        bytes = write_at cheap_prepend (contents b) b.bytes;
        reader = cheap_prepend;
        writer = cheap_prepend + readable_bytes b;
      })

unfoldable pub ensure_writable_bytes : Buffer → ℕ → Result Buffer
ensure_writable_bytes b len = do
  room ← (if ltb (writable_bytes b) len then make_space b len else ok b)
  assert (leb len (writable_bytes room))
  ok room

unfoldable pub has_written : Buffer → ℕ → Result Buffer
has_written b len = do
  assert (leb len (writable_bytes b))
  ok (record b { writer = add_size b.writer len })

unfoldable pub unwrite : Buffer → ℕ → Result Buffer
unwrite b len = do assert (leb len (readable_bytes b)); ok (record b { writer = b.writer - len })

unfoldable pub append : Buffer → List ℕ → Result Buffer
append b input = do
  room ← ensure_writable_bytes b (length input)
  has_written (record room { bytes = write_at room.writer input room.bytes }) (length input)

unfoldable pub prepend : Buffer → List ℕ → Result Buffer
prepend b input = do
  assert (leb (length input) (prependable_bytes b))
  let start = b.reader - length input
  ok (record b { bytes = write_at start input b.bytes; reader = start })

-- The call that would move the bytes over, `other.append(toStringPiece())`, is commented out.
unfoldable pub shrink : Buffer → ℕ → Result Buffer
shrink b reserve = ensure_writable_bytes (new initial_size) (add_size (readable_bytes b) reserve)

-- What `readv` answers: the bytes that the socket had, or an error number.
pub data Received : Type 0 where
  got : List ℕ → Received
  failed : ℕ → Received

abbrev pub extra_size : ℕ
extra_size = 65536

-- The space offered to `readv`: the writable part, and `extrabuf` where that is smaller.
unfoldable pub offered : Buffer → ℕ
offered b = writable_bytes b + (if ltb (writable_bytes b) extra_size then extra_size else 0)

-- The result beside the buffer is `n`, or the `savedErrno`. The kernel fills the writable part
-- first, and `extrabuf` with what is left.
unfoldable pub read_fd : Buffer → Received → Result (Received × Buffer)
read_fd b (failed errno) = ok (failed errno, b)
read_fd b (got input) =
    if leb (length input) (writable_bytes b)
    then ok (
      got input,
      record b { bytes = write_at b.writer input b.bytes; writer = b.writer + length input },
    )
    else do
      let head = take (writable_bytes b) input
      let filled = record b { bytes = write_at b.writer head b.bytes; writer = length b.bytes }
      grown ← append filled (drop (writable_bytes b) input)
      ok (got input, grown)

-- `getbuffer`: the whole vector, not only its readable part.
unfoldable pub get_buffer : Buffer → List ℕ
get_buffer b = b.bytes
