-- ===== src/Log/Async.antt =====
-- base/AsyncLogging.h and base/AsyncLogging.cpp: the buffers that the writers of the log and its
-- thread exchange. What goes to the LogFile is `output`; `discarded` counts the buffers that the
-- thread gives up when too many wait.
use cly_server.Base.{
  ℕ, ◌+◌, ◌-◌, Bool, true, false, Option, none, some, List, [], ◌∷◌, ◌++◌, ltb, ◌==◌, if◌then◌else◌,
  length, take, Result, ok, fault, null_pointer, assert, ◌>>=◌, ◌>>◌,
}
use cly_server.Log.{FixedBuffer, large_buffer, avail, append, reset}

pub record AsyncLogging : Type 0 where
  pub current : FixedBuffer
  pub next : Option FixedBuffer
  pub buffers : List FixedBuffer
  -- The variables of `threadFunc`; `writing` from the exchange to the end of a turn.
  pub new_buffer1 : Option FixedBuffer
  pub new_buffer2 : Option FixedBuffer
  pub write_log : List FixedBuffer
  pub writing : Bool
  pub output : List ℕ
  pub discarded : ℕ

abbrev pub fresh : FixedBuffer
fresh = record { size = large_buffer; text = [] }

-- The constructor, and the beginning of `threadFunc`.
unfoldable pub start : AsyncLogging
start = record {
  current = fresh;
  next = some fresh;
  buffers = [];
  new_buffer1 = some fresh;
  new_buffer2 = some fresh;
  write_log = [];
  writing = false;
  output = [];
  discarded = 0;
}

unfoldable pub spare : Option FixedBuffer → FixedBuffer
spare none = fresh
spare (some b) = b

-- `append`, which a mutex makes one step.
unfoldable pub log : AsyncLogging → List ℕ → AsyncLogging
log a line =
    if ltb (length line) (avail a.current)
    then record a { current = append a.current line }
    else record a {
      buffers = a.buffers ++ a.current ∷ [];
      current = append (spare a.next) line;
      next = none;
    }

unfoldable pub is_fresh : Option FixedBuffer → Bool
is_fresh none = false
is_fresh (some b) = length b.text == 0

unfoldable pub is_empty : List FixedBuffer → Bool
is_empty [] = true
is_empty (b ∷ bs) = false

-- The new `nextBuffer_` and what is left of `newBuffer2`.
unfoldable pub refill_next :
    Option FixedBuffer → Option FixedBuffer → Option FixedBuffer × Option FixedBuffer
refill_next (some b) new_buffer2 = (some b, new_buffer2)
refill_next none new_buffer2 = (new_buffer2, none)

-- The critical section of `threadFunc`, for the `newBuffer1` that becomes the current buffer.
unfoldable pub exchange_with : AsyncLogging → Option FixedBuffer → Result AsyncLogging
exchange_with a none = fault null_pointer
exchange_with a (some b) = ok (record a {
  write_log = a.buffers ++ a.current ∷ [];
  buffers = [];
  current = b;
  new_buffer1 = none;
  next = (refill_next a.next a.new_buffer2).0;
  new_buffer2 = (refill_next a.next a.new_buffer2).1;
  writing = true;
})

-- The beginning of a turn, with its assertions.
unfoldable pub exchange : AsyncLogging → Result AsyncLogging
exchange a = do
  assert (is_fresh a.new_buffer1)
  assert (is_fresh a.new_buffer2)
  assert (is_empty a.write_log)
  exchange_with a a.new_buffer1

unfoldable pub joined : List FixedBuffer → List ℕ
joined [] = []
joined (b ∷ bs) = b.text ++ joined bs

unfoldable pub last : FixedBuffer → List FixedBuffer → FixedBuffer
last b [] = b
last b (c ∷ cs) = last c cs

unfoldable pub but_last : FixedBuffer → List FixedBuffer → List FixedBuffer
but_last b [] = []
but_last b (c ∷ cs) = b ∷ but_last c cs

-- `newBuffer1` or `newBuffer2`, taken from the back of what was written where it is missing.
unfoldable pub refill :
    Option FixedBuffer → List FixedBuffer → Result (Option FixedBuffer × List FixedBuffer)
refill (some b) write_log = ok (some b, write_log)
refill none [] = assert false >> ok (none, [])
refill none (b ∷ bs) = ok (some (reset (last b bs)), but_last b bs)

-- Too many buffers: all but two are given up, and a note is written in their place.
unfoldable pub is_piled_up : List FixedBuffer → Bool
is_piled_up write_log = ltb 25 (length write_log)

unfoldable pub written : List ℕ → List FixedBuffer → List ℕ
written note write_log =
    if is_piled_up write_log then note ++ joined (take 2 write_log) else joined write_log

unfoldable pub given_up : List FixedBuffer → ℕ
given_up write_log = if is_piled_up write_log then length write_log - 2 else 0

-- The rest of a turn; after the writing at most two buffers are kept for `newBuffer1` and 2.
unfoldable pub write_out : List ℕ → AsyncLogging → Result AsyncLogging
write_out note a = do
  (b1, rest) ← refill a.new_buffer1 (take 2 a.write_log)
  (b2, rest') ← refill a.new_buffer2 rest
  ok (record a {
    new_buffer1 = b1;
    new_buffer2 = b2;
    write_log = [];
    writing = false;
    output = a.output ++ written note a.write_log;
    discarded = a.discarded + given_up a.write_log;
  })
