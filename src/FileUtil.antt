-- ===== src/FileUtil.antt =====
-- base/FileUtil.h and base/FileUtil.cpp: the file that a log is appended to, and the reading of a
-- small file. What `fwrite_unlocked`, `fstat` and `read` answer is a parameter, one answer a call;
-- a loop that needs more answers than it is given is still running, which is `none`.
pub mod Appending
pub mod Reading
mod Examples
use cly_server.Base.{
  ℕ, ◌+◌, ◌-◌, ◌*◌, Bool, true, false, not, ◌&&◌, Option, none, some, List, [], ◌∷◌, ◌++◌, ltb,
  ◌==◌, if◌then◌else◌, length, take, drop, min, Result, assert, ◌>>◌, ok,
}

-- `AppendFile`. The stdio stream is what `fwrite_unlocked` has taken, and how much of it `fflush` has
-- handed over.
pub record AppendFile : Type 0 where
  pub name : List ℕ
  pub taken : List ℕ
  pub flushed : ℕ
  pub written_bytes : ℕ

-- The constructor, which asserts that `fopen` gave a stream.
unfoldable pub open_append : List ℕ → Bool → Result AppendFile
open_append filename opened = do
  assert opened
  ok (record { name = filename; taken = []; flushed = 0; written_bytes = 0 })

-- What one call of `fwrite_unlocked` answers, and `ferror` after it.
pub record Fwrite : Type 0 where
  pub count : ℕ
  pub error : Bool

-- The stream takes `count` bytes of the line from where `written` points.
unfoldable pub write : AppendFile → List ℕ → ℕ → ℕ → AppendFile
write f logline written count = record f { taken = f.taken ++ take count (drop written logline) }

unfoldable pub count_written : AppendFile → ℕ → AppendFile
count_written f written = record f { written_bytes = f.written_bytes + written }

-- The loop of `append` and what follows it. The `break` leaves the last call's bytes uncounted.
unfoldable pub append_loop : AppendFile → List ℕ → ℕ → List Fwrite → Option AppendFile
append_loop f logline written [] =
    if written == length logline then some (count_written f written) else none
append_loop f logline written (a ∷ answers) =
    let rest = append_loop (write f logline written a.count) logline (written + a.count) answers in
    if written == length logline
    then some (count_written f written)
    else if not (a.count == length logline - written) && a.error
    then some (count_written (write f logline written a.count) written)
    else rest

unfoldable pub append : AppendFile → List ℕ → List Fwrite → Option AppendFile
append f logline answers = append_loop f logline 0 answers

unfoldable pub flush : AppendFile → AppendFile
flush f = record f { flushed = length f.taken }

-- `ReadSmallFile`: the descriptor, if `open` gave one, and the error number.
pub record ReadSmallFile : Type 0 where
  pub is_open : Bool
  pub err : ℕ

-- What `open` answers: an error number, or a descriptor.
unfoldable pub open_small : Option ℕ → ReadSmallFile
open_small none = record { is_open = true; err = 0 }
open_small (some errno) = record { is_open = false; err = errno }

-- What `fstat` answers, with `st_ctime`.
pub data Stat : Type 0 where
  regular : ℕ → ℕ → Stat
  directory : ℕ → Stat
  special : ℕ → Stat
  stat_failed : ℕ → Stat

-- What one `read` or `pread` answers; no bytes are the end of the file.
pub data Read : Type 0 where
  got : List ℕ → Read
  failed : ℕ → Read

abbrev pub buffer_size : ℕ
buffer_size = 64 * 1024

abbrev pub eisdir : ℕ
eisdir = 21

-- The bytes that the next `read` may hand over.
unfoldable pub to_read : ℕ → List ℕ → ℕ
to_read max_size content = min (max_size - length content) buffer_size

-- What `readToString` leaves behind: the error number, the content, and what it says of the file.
pub record Reply : Type 0 where
  pub error : ℕ
  pub content : List ℕ
  pub file_size : Option ℕ
  pub modify_time : Option ℕ

unfoldable pub read_loop : ℕ → Reply → List Read → Option Reply
read_loop max_size r [] = if ltb (length r.content) max_size then none else some r
read_loop max_size r (got [] ∷ answers) = some r
read_loop max_size r (got (x ∷ xs) ∷ answers) =
    let rest = read_loop max_size (record r { content = r.content ++ x ∷ xs }) answers in
    if ltb (length r.content) max_size then rest else some r
read_loop max_size r (failed errno ∷ answers) =
    if ltb (length r.content) max_size then some (record r { error = errno }) else some r

-- Whether the caller asks for a time, and gets it: the one of the last change of state.
unfoldable pub tell_time : Bool → ℕ → Reply → Reply
tell_time wants_time time r = if wants_time then record r { modify_time = some time } else r

unfoldable pub use_stat : Bool → Stat → Reply → Reply
use_stat wants_time (regular size time) r =
    tell_time wants_time time (record r { file_size = some size })
use_stat wants_time (directory time) r = tell_time wants_time time (record r { error = eisdir })
use_stat wants_time (special time) r = tell_time wants_time time r
use_stat wants_time (stat_failed errno) r = record r { error = errno }

-- The times and the size are asked for by a pointer that is not null.
unfoldable pub read_to_string :
    ReadSmallFile → ℕ → List ℕ → Bool → Bool → Stat → List Read → Option Reply
read_to_string s max_size content wants_size wants_time stat answers =
    let r : Reply = record { error = s.err; content = []; file_size = none; modify_time = none } in
    let asked = if wants_size then use_stat wants_time stat r else r in
    let all = read_loop max_size asked answers in
    if s.is_open then all else some (record r { content = content })

-- What `readToBuffer` leaves in `buf_` and in `*size`.
unfoldable pub read_to_buffer : ReadSmallFile → Read → ℕ × Option (List ℕ) × Option ℕ
read_to_buffer s (got input) =
    if s.is_open then (s.err, some (input ++ 0 ∷ []), some (length input)) else (s.err, none, none)
read_to_buffer s (failed errno) = if s.is_open then (errno, none, none) else (s.err, none, none)
