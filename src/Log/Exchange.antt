-- ===== src/Log/Exchange.antt =====
-- The interleavings of the writers and the thread of base/AsyncLogging.cpp, and their invariant.
use cly_server.Base.{
  ℕ, ◌+◌, ◌≤◌, ◌<◌, ◌≡◌, true, false, Option, none, some, List, [], ◌++◌, length, All, ok,
}
use cly_server.Log.{FixedBuffer, large_buffer}
use cly_server.Log.Async.{AsyncLogging, fresh, start, log, exchange, joined, write_out}

-- The states that the writers and the thread come to, with all the bytes that were logged. A line
-- that does not fit an empty buffer is not logged by anyone.
pub data Reachable : AsyncLogging → List ℕ → Type 0 where
  started : Reachable start []
  logged :
      {a : AsyncLogging} {bytes : List ℕ} (line : List ℕ)
      → Reachable a bytes
      → length line < large_buffer
      → Reachable (log a line) (bytes ++ line)
  exchanged :
      {a a' : AsyncLogging} {bytes : List ℕ}
      → Reachable a bytes
      → a.writing ≡ false
      → exchange a ≡ ok a'
      → Reachable a' bytes
  wrote :
      {a a' : AsyncLogging} {bytes : List ℕ} (note : List ℕ)
      → Reachable a bytes
      → a.writing ≡ true
      → write_out note a ≡ ok a'
      → Reachable a' bytes

-- A buffer of the full size that is empty.
abbrev pub IsFresh : Option FixedBuffer → Type 0
IsFresh o = o ≡ some fresh

abbrev pub IsFreshOrGone : Option FixedBuffer → Type 0
IsFreshOrGone none = Unit {0}
IsFreshOrGone (some b) = b ≡ fresh

abbrev pub IsLarge : FixedBuffer → Type 0
IsLarge b = b.size ≡ large_buffer

-- How many buffers the end of a turn has to find.
abbrev pub missing : Option FixedBuffer → ℕ
missing none = 1
missing (some b) = 0

pub record Inv (a : AsyncLogging) (bytes : List ℕ) : Type 0 where
  pub large : IsLarge a.current
  pub all_large : All IsLarge a.buffers
  pub log_large : All IsLarge a.write_log
  pub next_fresh : IsFreshOrGone a.next
  -- `nextBuffer_` is used up only by a writer that leaves a full buffer behind.
  pub used_up : missing a.next ≤ length a.buffers
  pub waiting :
      a.writing ≡ false → IsFresh a.new_buffer1 × IsFresh a.new_buffer2 × (a.write_log ≡ [])
  pub busy :
      a.writing ≡ true
      → (a.new_buffer1 ≡ none)
        × IsFreshOrGone a.new_buffer2
        × (1 + missing a.new_buffer2 ≤ length a.write_log)
  pub nothing_lost :
      a.discarded ≡ 0
      → a.output ++ (joined a.write_log ++ (joined a.buffers ++ a.current.text)) ≡ bytes
