-- ===== src/Logger.antt =====
-- base/Logging.h and base/Logging.cpp: what a log message consists of, which messages are made, and
-- which end the process. The fields of the time and the text of an error number are parameters.
pub mod SourceFile
pub mod Lines
mod Examples
use cly_server.Base.{
  ℕ, zero, suc, ◌+◌, ◌-◌, Bool, true, false, Option, none, some, List, [], ◌∷◌, ◌++◌, leb, ◌==◌,
  if◌then◌else◌, length, take, drop, codes,
}
use cly_server.Base.Int.{ℤ, pos, negsuc}
use cly_server.Log.{FixedBuffer, small_buffer}
use cly_server.Log
use cly_server.Log.Bounds.{Print, text, integer, print_all}

pub data LogLevel : Type 0 where
  trace debug info warn error fatal : LogLevel

unfoldable pub rank : LogLevel → ℕ
rank trace = 0
rank debug = 1
rank info = 2
rank warn = 3
rank error = 4
rank fatal = 5

unfoldable pub level_name : LogLevel → List ℕ
level_name trace = codes "TRACE "
level_name debug = codes "DEBUG "
level_name info = codes "INFO  "
level_name warn = codes "WARN  "
level_name error = codes "ERROR "
level_name fatal = codes "FATAL "

-- `strrchr`: where the last such byte stands.
unfoldable pub find_last : ℕ → List ℕ → Option ℕ
find_last b [] = none
find_last b (c ∷ cs) = elim (find_last b cs) [
  | some i ↦ some (suc i)
  | none ↦ if c == b then some 0 else none
]

-- `SourceFile`: the text from `data_` on, and `size_`.
pub record SourceName : Type 0 where
  pub data_text : List ℕ
  pub size : ℕ

unfoldable pub cut_literal : List ℕ → Option ℕ → SourceName
cut_literal arr none = record { data_text = arr; size = length arr }
cut_literal arr (some slash) = record {
  data_text = drop (suc slash) arr;
  size = length arr - suc slash;
}

-- The constructor for a literal: the size is what is left of that of the array, less its zero.
unfoldable pub from_literal : List ℕ → SourceName
from_literal arr = cut_literal arr (find_last b'/' arr)

unfoldable pub cut_filename : List ℕ → Option ℕ → List ℕ
cut_filename filename none = filename
cut_filename filename (some slash) = drop (suc slash) filename

-- The one for a pointer measures what is left.
unfoldable pub from_filename : List ℕ → SourceName
from_filename filename =
    let rest = cut_filename filename (find_last b'/' filename) in
    record { data_text = rest; size = length rest }

-- The macros.
pub data Macro : Type 0 where
  log_trace log_debug log_info log_warn log_error log_fatal log_syserr log_sysfatal : Macro

-- The three that ask for the level first.
unfoldable pub is_on : LogLevel → Macro → Bool
is_on level log_trace = leb (rank level) (rank trace)
is_on level log_debug = leb (rank level) (rank debug)
is_on level log_info = leb (rank level) (rank info)
is_on level _ = true

-- `toAbort ? FATAL : ERROR`.
unfoldable pub level_to_abort : Bool → LogLevel
level_to_abort to_abort = if to_abort then fatal else error

-- The level that the constructor called by a macro hands to `Impl`.
unfoldable pub level_of : Macro → LogLevel
level_of log_trace = trace
level_of log_debug = debug
level_of log_info = info
level_of log_warn = warn
level_of log_error = error
level_of log_fatal = level_to_abort false
level_of log_syserr = level_to_abort true
level_of log_sysfatal = level_to_abort true

-- What is at hand where a macro stands.
pub record Site : Type 0 where
  pub file : List ℕ
  pub line : ℕ
  pub func : List ℕ
  pub errno : ℕ
  -- `strerror_tl` of an error number.
  pub strerror : ℕ → List ℕ
  pub year : ℤ
  pub month : ℤ
  pub day : ℤ
  pub hour : ℤ
  pub minute : ℤ
  pub second : ℤ

-- The error number that the constructor passes on: `errno` for those with `toAbort`, else 0.
unfoldable pub saved_errno : Macro → ℕ → ℕ
saved_errno log_fatal errno = errno
saved_errno log_syserr errno = errno
saved_errno log_sysfatal errno = errno
saved_errno _ errno = 0

unfoldable pub format_time : Site → List Print
format_time s =
    integer s.year
    ∷ text (codes "-")
    ∷ integer s.month
    ∷ text (codes "-")
    ∷ integer s.day
    ∷ text (codes " ")
    ∷ integer s.hour
    ∷ text (codes ":")
    ∷ integer s.minute
    ∷ text (codes ":")
    ∷ integer s.second
    ∷ text (codes " ")
    ∷ []

unfoldable pub error_text : Site → ℕ → List Print
error_text s zero = []
error_text s (suc n) =
    text (s.strerror (suc n))
    ∷ text (codes " (errno=")
    ∷ integer (pos (suc n))
    ∷ text (codes ")")
    ∷ []

-- `Impl`, and what the constructor of a macro adds.
unfoldable pub impl : Site → LogLevel → ℕ → List Print
impl s level errno = format_time s ++ (text (level_name level) ∷ error_text s errno)

unfoldable pub func_text : Macro → Site → List Print
func_text log_trace s = text s.func ∷ text (codes " ") ∷ []
func_text log_debug s = text s.func ∷ text (codes " ") ∷ []
func_text _ s = []

unfoldable pub finish_line : Site → List Print
finish_line s =
    let basename = from_literal s.file in
    text (codes " - ")
    ∷ text (take basename.size basename.data_text)
    ∷ text (codes ";")
    ∷ integer (pos s.line)
    ∷ text (codes "\n")
    ∷ []

-- All that goes to the stream of one message.
unfoldable pub prints : Macro → Site → List Print → List Print
prints m s message =
    impl s (level_of m) (saved_errno m s.errno) ++ (func_text m s ++ (message ++ finish_line s))

-- What a message does: the bytes for `g_output`, if it is made, and how `~Logger` ends.
pub record Logged : Type 0 where
  pub output : Option (List ℕ)
  pub flushed : Bool
  pub aborted : Bool

unfoldable pub destroy_logger : LogLevel → FixedBuffer → Logged
destroy_logger fatal b = record { output = some b.text; flushed = true; aborted = true }
destroy_logger _ b = record { output = some b.text; flushed = false; aborted = false }

unfoldable pub log_at : LogLevel → Macro → Site → List Print → Logged
log_at level m s message =
    let made =
      destroy_logger (level_of m) (print_all (Log.new small_buffer) (prints m s message)) in
    if is_on level m then made else record { output = none; flushed = false; aborted = false }
