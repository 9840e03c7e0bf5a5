-- ===== src/LogFile.antt =====
-- base/LogFile.h and base/LogFile.cpp: the log that moves on to a new file. A time is a number of
-- seconds since 1970; what the clock, `fopen` and `fwrite_unlocked` answer is a parameter. The
-- mutex leaves the calls one after another.
pub mod Rolling
pub mod Lines
pub mod Names
pub mod Sizes
mod Examples
use cly_server.Base.{
  ℕ, suc, ◌+◌, ◌-◌, ◌*◌, ◌/◌, Bool, true, false, not, Option, none, some, List, [], ◌∷◌, ◌++◌, ltb,
  leb, ◌==◌, ◌||◌, if◌then◌else◌, Result, ok, fault, null_pointer, assert, ◌>>=◌, ◌>>◌, codes,
}
use cly_server.Base.Decimal.{decimal}
use cly_server.FileUtil.{AppendFile, Fwrite, open_append, append}
use cly_server.FileUtil

abbrev pub roll_per_seconds : ℕ
roll_per_seconds = 60 * 60 * 24

-- `rollSize_`, `flushInterval_` and `checkEveryN_` are not negative. `older` are the files that are
-- closed, the last one first.
pub record LogFile : Type 0 where
  pub basename : List ℕ
  pub roll_size : ℕ
  pub flush_interval : ℕ
  pub check_every_n : ℕ
  pub count : ℕ
  pub start_of_period : ℕ
  pub last_roll : ℕ
  pub last_flush : ℕ
  pub file : AppendFile
  pub older : List AppendFile

-- The process that logs: what `strftime` writes for a time, the name of the host, the process id.
pub record Process : Type 0 where
  pub time_text : ℕ → List ℕ
  pub hostname : List ℕ
  pub pid : ℕ

unfoldable pub get_log_file_name : Process → List ℕ → ℕ → List ℕ
get_log_file_name p basename now =
    basename ++ (p.time_text now ++ (p.hostname ++ (b'.' ∷ decimal p.pid ++ codes ".log")))

-- The beginning of the day that a time belongs to.
unfoldable pub period : ℕ → ℕ
period now = now / roll_per_seconds * roll_per_seconds

-- What a call meets: the bytes that `fwrite_unlocked` takes, the time when the period is checked, the
-- time when a file is named, and whether `fopen` gives a stream.
pub record World : Type 0 where
  pub answers : List Fwrite
  pub now : ℕ
  pub roll_now : ℕ
  pub opened : Bool

-- `file_.reset(new AppendFile(filename))` and the assignments before it.
unfoldable pub change_file : LogFile → ℕ → AppendFile → LogFile
change_file l now file = record l {
  last_roll = now;
  last_flush = now;
  start_of_period = period now;
  file = file;
  older = l.file ∷ l.older;
}

unfoldable pub roll_file : Process → LogFile → ℕ → Bool → Result (LogFile × Bool)
roll_file p l now opened =
    let rolled = do
      file ← open_append (get_log_file_name p l.basename now) opened
      ok (change_file l now file, true)
    in if ltb l.last_roll now then rolled else ok (l, false)

-- `rollFile` where its result is not used.
unfoldable pub roll_on : Process → LogFile → World → Result LogFile
roll_on p l w = roll_file p l w.roll_now w.opened >>= λ r. ok r.0

unfoldable pub flush_file : LogFile → LogFile
flush_file l = record l { file = FileUtil.flush l.file }

-- The check that is due: a new day, or a file that was not flushed for long.
unfoldable pub check : Process → LogFile → World → Result LogFile
check p l w =
    if not (period w.now == l.start_of_period)
    then roll_on p l w
    else if ltb l.flush_interval (w.now - l.last_flush)
    then ok (flush_file (record l { last_flush = w.now }))
    else ok l

-- What `append_unlocked` does once the line is with the file.
unfoldable pub after_append : Process → LogFile → World → Result LogFile
after_append p l w =
    if ltb l.roll_size l.file.written_bytes
    then roll_on p l w
    else if leb l.check_every_n (suc l.count)
    then check p (record l { count = 0 }) w
    else ok (record l { count = suc l.count })

-- What `append_unlocked` does with the answer of the file's `append`.
unfoldable pub appended : Process → LogFile → World → Option AppendFile → Option (Result LogFile)
appended p l w none = none
appended p l w (some file) = some (after_append p (record l { file = file }) w)

-- `none` if `fwrite_unlocked` has to be called again.
unfoldable pub append_unlocked : Process → LogFile → List ℕ → World → Option (Result LogFile)
append_unlocked p l logline w = appended p l w (append l.file logline w.answers)

unfoldable pub has_slash : List ℕ → Bool
has_slash [] = false
has_slash (b ∷ bs) = b == b'/' || has_slash bs

-- The members after the constructor, its `rollFile` done.
unfoldable pub first_log : List ℕ → ℕ → ℕ → ℕ → ℕ → AppendFile → LogFile
first_log basename roll_size flush_interval check_every_n now file = record {
  basename = basename;
  roll_size = roll_size;
  flush_interval = flush_interval;
  check_every_n = check_every_n;
  count = 0;
  start_of_period = period now;
  last_roll = now;
  last_flush = now;
  file = file;
  older = [];
}

-- The constructor. Its `rollFile` leaves `file_` null if the clock says 0, a null pointer that the
-- first call meets.
unfoldable pub new : Process → List ℕ → ℕ → ℕ → ℕ → ℕ → Bool → Result LogFile
new p basename roll_size flush_interval check_every_n now opened =
    let rolled = do
      file ← open_append (get_log_file_name p basename now) opened
      ok (first_log basename roll_size flush_interval check_every_n now file)
    in assert (not (has_slash basename)) >> (if ltb 0 now then rolled else fault null_pointer)
