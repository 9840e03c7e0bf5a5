-- ===== src/Logger/Lines.antt =====
-- The line that a message of base/Logging.h becomes.
use cly_server.Base.{
  ℕ, ◌<◌, ◌≡◌, refl, sym, ap, ◌∙◌, Bool, true, false, none, some, zero, suc, List, [], ◌∷◌, ◌++◌,
  append_assoc, append-nil, if◌then◌else◌, take, take-all, All, codes, arith,
}
use cly_server.Base.Int.{pos}
use cly_server.Log.{
  FixedBuffer, small_buffer, avail, append, format_integer, format_pointer, format_bool, convert,
  convert_hex, hex_up, max_numeric_size,
}
use cly_server.Log
use cly_server.Log.Fits.{rooms, print_all-fits}
use cly_server.Log.Bounds.{Print, text, print_all, piece, pieces, IsNumber}
use cly_server.Logger.{
  LogLevel, trace, debug, info, warn, error, fatal, rank, level_name, format_time, error_text,
  Macro, log_trace, log_debug, log_info, log_warn, log_error, log_fatal, log_syserr, log_sysfatal,
  is_on, level_to_abort, level_of, Site, saved_errno, impl, func_text, finish_line, prints,
  SourceName, destroy_logger, log_at, from_literal,
}
use cly_server.Logger.SourceFile.{IsPlain, from_literal-name}

pieces-append : (xs ys : List Print) → pieces (xs ++ ys) ≡ pieces xs ++ pieces ys
pieces-append [] ys = refl
pieces-append (x ∷ xs) ys =
    ap (λ t. piece x ++ t) (pieces-append xs ys)
    ∙ sym (append_assoc (piece x) (pieces xs) (pieces ys))

-- LOG_SYSERR and LOG_SYSFATAL.
unfoldable pub is_system : Macro → Bool
is_system log_syserr = true
is_system log_sysfatal = true
is_system _ = false

-- The macros that a level of the program switches off: LOG_TRACE by any level above TRACE,
-- LOG_DEBUG by any above DEBUG, LOG_INFO by any above INFO, and no other.
abbrev pub is_silent : LogLevel → Macro → Bool
is_silent trace m = false
is_silent debug log_trace = true
is_silent debug _ = false
is_silent info log_trace = true
is_silent info log_debug = true
is_silent info _ = false
is_silent _ log_trace = true
is_silent _ log_debug = true
is_silent _ log_info = true
is_silent _ _ = false

-- LOG_SYSERR and LOG_SYSFATAL end the process, after their line is handed over and flushed,
-- whatever the level; no other macro does, LOG_FATAL included. LOG_TRACE, LOG_DEBUG and LOG_INFO
-- hand over nothing where the level is above theirs; every other message is handed over.
pub log_at-aborts :
    (level : LogLevel) (m : Macro) (s : Site) (message : List Print)
    → ((log_at level m s message).aborted ≡ is_system m)
      × ((log_at level m s message).flushed ≡ is_system m)
      × ((log_at level m s message).output ≡ (
          if is_silent level m
          then none
          else some (print_all (Log.new small_buffer) (prints m s message)).text))
unfolding log_at is_on rank destroy_logger level_of level_to_abort is_system
log_at-aborts trace log_trace s message = (refl, refl, refl)
log_at-aborts trace log_debug s message = (refl, refl, refl)
log_at-aborts trace log_info s message = (refl, refl, refl)
log_at-aborts trace log_warn s message = (refl, refl, refl)
log_at-aborts trace log_error s message = (refl, refl, refl)
log_at-aborts trace log_fatal s message = (refl, refl, refl)
log_at-aborts trace log_syserr s message = (refl, refl, refl)
log_at-aborts trace log_sysfatal s message = (refl, refl, refl)
log_at-aborts debug log_trace s message = (refl, refl, refl)
log_at-aborts debug log_debug s message = (refl, refl, refl)
log_at-aborts debug log_info s message = (refl, refl, refl)
log_at-aborts debug log_warn s message = (refl, refl, refl)
log_at-aborts debug log_error s message = (refl, refl, refl)
log_at-aborts debug log_fatal s message = (refl, refl, refl)
log_at-aborts debug log_syserr s message = (refl, refl, refl)
log_at-aborts debug log_sysfatal s message = (refl, refl, refl)
log_at-aborts info log_trace s message = (refl, refl, refl)
log_at-aborts info log_debug s message = (refl, refl, refl)
log_at-aborts info log_info s message = (refl, refl, refl)
log_at-aborts info log_warn s message = (refl, refl, refl)
log_at-aborts info log_error s message = (refl, refl, refl)
log_at-aborts info log_fatal s message = (refl, refl, refl)
log_at-aborts info log_syserr s message = (refl, refl, refl)
log_at-aborts info log_sysfatal s message = (refl, refl, refl)
log_at-aborts warn log_trace s message = (refl, refl, refl)
log_at-aborts warn log_debug s message = (refl, refl, refl)
log_at-aborts warn log_info s message = (refl, refl, refl)
log_at-aborts warn log_warn s message = (refl, refl, refl)
log_at-aborts warn log_error s message = (refl, refl, refl)
log_at-aborts warn log_fatal s message = (refl, refl, refl)
log_at-aborts warn log_syserr s message = (refl, refl, refl)
log_at-aborts warn log_sysfatal s message = (refl, refl, refl)
log_at-aborts error log_trace s message = (refl, refl, refl)
log_at-aborts error log_debug s message = (refl, refl, refl)
log_at-aborts error log_info s message = (refl, refl, refl)
log_at-aborts error log_warn s message = (refl, refl, refl)
log_at-aborts error log_error s message = (refl, refl, refl)
log_at-aborts error log_fatal s message = (refl, refl, refl)
log_at-aborts error log_syserr s message = (refl, refl, refl)
log_at-aborts error log_sysfatal s message = (refl, refl, refl)
log_at-aborts fatal log_trace s message = (refl, refl, refl)
log_at-aborts fatal log_debug s message = (refl, refl, refl)
log_at-aborts fatal log_info s message = (refl, refl, refl)
log_at-aborts fatal log_warn s message = (refl, refl, refl)
log_at-aborts fatal log_error s message = (refl, refl, refl)
log_at-aborts fatal log_fatal s message = (refl, refl, refl)
log_at-aborts fatal log_syserr s message = (refl, refl, refl)
log_at-aborts fatal log_sysfatal s message = (refl, refl, refl)

-- The end of a line, by the name of its file.
abbrev ending : ℕ → SourceName → List ℕ
ending line basename =
    codes " - "
    ++ (take basename.size basename.data_text ++ (codes ";" ++ (convert (pos line) ++ codes "\n")))

finish_line-name :
    (s : Site) (dir name : List ℕ)
    → s.file ≡ dir ++ b'/' ∷ name
    → IsPlain name
    → pieces (finish_line s)
      ≡ codes " - " ++ (name ++ (codes ";" ++ (convert (pos s.line) ++ codes "\n")))
unfolding finish_line
finish_line-name s dir name e plain =
    ap (ending s.line) (ap from_literal e ∙ (from_literal-name dir name plain).0)
    ∙ ap (λ t. codes " - " ++ (t ++ (codes ";" ++ (convert (pos s.line) ++ codes "\n"))))
        (take-all name)

-- A message that is handed over, in its parts.
log_at-parts :
    (level : LogLevel) (m : Macro) (s : Site) (message : List Print) (dir name : List ℕ)
    → is_silent level m ≡ false
    → s.file ≡ dir ++ b'/' ∷ name
    → IsPlain name
    → All IsNumber (prints m s message)
    → rooms (prints m s message) < small_buffer
    → (log_at level m s message).output
      ≡ some (
          pieces (impl s (level_of m) (saved_errno m s.errno))
          ++ (pieces (func_text m s)
              ++ (pieces message
                  ++ (codes " - "
                      ++ (name ++ (codes ";" ++ (convert (pos s.line) ++ codes "\n")))))))
unfolding Log.new prints
log_at-parts level m s message dir name on e plain n fits =
    (log_at-aborts level m s message).2
    ∙ ap
        (λ b. if b then none else some (print_all (Log.new small_buffer) (prints m s message)).text)
        {x = is_silent level m} {y = false} on
    ∙ (ap (λ t. some t)
        (print_all-fits (prints m s message) (Log.new small_buffer) n (omega (arith, fits))
          ∙ pieces-append (impl s (level_of m) (saved_errno m s.errno)) _
          ∙ ap (λ t. pieces (impl s (level_of m) (saved_errno m s.errno)) ++ t)
              (pieces-append (func_text m s) _
                ∙ ap (λ t. pieces (func_text m s) ++ t)
                    (pieces-append message (finish_line s)
                      ∙ ap (λ t. pieces message ++ t) (finish_line-name s dir name e plain)))))

-- The time of a message, the fields as decimal numbers.
abbrev pub stamp : Site → List ℕ
stamp s =
    convert s.year
    ++ (codes "-"
        ++ (convert s.month
            ++ (codes "-"
                ++ (convert s.day
                    ++ (codes " "
                        ++ (convert s.hour
                            ++ (codes ":"
                                ++ (convert s.minute
                                    ++ (codes ":" ++ (convert s.second ++ codes " "))))))))))

-- The level by which a macro's lines are known, in six places: LOG_FATAL's is ERROR.
abbrev pub label : Macro → List ℕ
label log_trace = codes "TRACE "
label log_debug = codes "DEBUG "
label log_info = codes "INFO  "
label log_warn = codes "WARN  "
label log_error = codes "ERROR "
label log_fatal = codes "ERROR "
label log_syserr = codes "FATAL "
label log_sysfatal = codes "FATAL "

abbrev error_of : Site → ℕ → List ℕ
error_of s zero = []
error_of s (suc n) =
    s.strerror (suc n) ++ (codes " (errno=" ++ (convert (pos (suc n)) ++ codes ")"))

-- What only some macros add: LOG_TRACE and LOG_DEBUG the function, LOG_FATAL, LOG_SYSERR and
-- LOG_SYSFATAL the text and the number of an error, if there is one.
abbrev pub extra : Macro → Site → List ℕ
extra log_trace s = s.func ++ codes " "
extra log_debug s = s.func ++ codes " "
extra log_fatal s = error_of s s.errno
extra log_syserr s = error_of s s.errno
extra log_sysfatal s = error_of s s.errno
extra _ s = []

pieces-format_time : (s : Site) → pieces (format_time s) ≡ stamp s
unfolding format_time
pieces-format_time s = refl

pieces-error_text : (s : Site) (n : ℕ) → pieces (error_text s n) ≡ error_of s n
unfolding error_text
pieces-error_text s zero = refl
pieces-error_text s (suc n) = refl

level_name-label : (m : Macro) → level_name (level_of m) ≡ label m
unfolding level_name level_of level_to_abort
level_name-label log_trace = refl
level_name-label log_debug = refl
level_name-label log_info = refl
level_name-label log_warn = refl
level_name-label log_error = refl
level_name-label log_fatal = refl
level_name-label log_syserr = refl
level_name-label log_sysfatal = refl

pieces-extra :
    (m : Macro) (s : Site)
    → error_of s (saved_errno m s.errno) ++ pieces (func_text m s) ≡ extra m s
unfolding saved_errno func_text
pieces-extra log_trace s = refl
pieces-extra log_debug s = refl
pieces-extra log_info s = refl
pieces-extra log_warn s = refl
pieces-extra log_error s = refl
pieces-extra log_fatal s = append-nil (error_of s s.errno)
pieces-extra log_syserr s = append-nil (error_of s s.errno)
pieces-extra log_sysfatal s = append-nil (error_of s s.errno)

pieces-impl :
    (s : Site) (level : LogLevel) (errno : ℕ)
    → pieces (impl s level errno) ≡ stamp s ++ (level_name level ++ error_of s errno)
unfolding impl
pieces-impl s level errno =
    pieces-append (format_time s) (text (level_name level) ∷ error_text s errno)
    ∙ ap (λ t. t ++ (level_name level ++ pieces (error_text s errno))) (pieces-format_time s)
    ∙ ap (λ t. stamp s ++ (level_name level ++ t)) (pieces-error_text s errno)

-- The parts before the message, joined with what follows.
head-parts :
    (m : Macro) (s : Site) (rest : List ℕ)
    → pieces (impl s (level_of m) (saved_errno m s.errno)) ++ (pieces (func_text m s) ++ rest)
      ≡ stamp s ++ (label m ++ (extra m s ++ rest))
head-parts m s rest =
    let e = error_of s (saved_errno m s.errno) in
    let f = pieces (func_text m s) in
    ap (λ t. t ++ (f ++ rest)) (pieces-impl s (level_of m) (saved_errno m s.errno))
    ∙ append_assoc (stamp s) (level_name (level_of m) ++ e) (f ++ rest)
    ∙ ap (λ t. stamp s ++ t) (append_assoc (level_name (level_of m)) e (f ++ rest))
    ∙ ap (λ t. stamp s ++ (t ++ (e ++ (f ++ rest)))) (level_name-label m)
    ∙ ap (λ t. stamp s ++ (label m ++ t)) (sym (append_assoc e f rest))
    ∙ ap (λ t. stamp s ++ (label m ++ (t ++ rest))) (pieces-extra m s)

-- A message that the level does not switch off, of a macro in a file of some directory, and for
-- which there is room in the buffer, is one line: the time, its six fields as decimal numbers; the
-- level, six characters, ERROR for LOG_FATAL and FATAL for LOG_SYSERR and LOG_SYSFATAL; the
-- function for LOG_TRACE and LOG_DEBUG, and for those three the text and the number of an error, if
-- there is one; the message; and the name of the file without its directory and the number of the
-- line behind it.
pub log_at-line :
    (level : LogLevel) (m : Macro) (s : Site) (message : List Print) (dir name : List ℕ)
    → is_silent level m ≡ false
    → s.file ≡ dir ++ b'/' ∷ name
    → IsPlain name
    → All IsNumber (prints m s message)
    → rooms (prints m s message) < small_buffer
    → (log_at level m s message).output
      ≡ some (
          stamp s
          ++ (label m
              ++ (extra m s
                  ++ (pieces message
                      ++ (codes " - "
                          ++ (name ++ (codes ";" ++ (convert (pos s.line) ++ codes "\n"))))))))
log_at-line level m s message dir name on e plain n fits =
    log_at-parts level m s message dir name on e plain n fits
    ∙ ap (λ t. some t)
        (head-parts m s (
          pieces message
          ++ (codes " - " ++ (name ++ (codes ";" ++ (convert (pos s.line) ++ codes "\n"))))))
