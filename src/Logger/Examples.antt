-- ===== src/Logger/Examples.antt =====
-- Messages of base/Logging.h on concrete data.
use cly_server.Base.{◌≡◌, refl, some, none, [], ◌∷◌, ◌++◌, codes, arith}
use cly_server.Base.Int.{pos}
use cly_server.Log.{convert}
use cly_server.Log.Bounds.{text, pieces}
use cly_server.Logger.{
  info, warn, log_info, log_fatal, Site, from_literal, is_on, level_of, level_to_abort, saved_errno,
  impl, func_text, format_time, error_text, finish_line, prints, log_at, level_name, rank,
  find_last, cut_literal,
}
use cly_server.Logger.Lines.{log_at-aborts, log_at-line, is_system, stamp, label, extra}

abbrev site : Site
site = record {
  file = codes "net/a.cpp";
  line = 17;
  func = codes "f";
  errno = 2;
  strerror = λ n. codes "No such file";
  year = pos 2022;
  month = pos 3;
  day = pos 4;
  hour = pos 9;
  minute = pos 5;
  second = pos 7;
}

log_at-aborts_example :
    ((log_at warn log_info site []).aborted ≡ is_system log_info)
    × ((log_at warn log_info site []).flushed ≡ is_system log_info)
    × ((log_at warn log_info site []).output ≡ none)
log_at-aborts_example = log_at-aborts warn log_info site []

log_at-line_example :
    (log_at info log_fatal site (text (codes "hello") ∷ [])).output
    ≡ some (
        stamp site
        ++ (label log_fatal
            ++ (extra log_fatal site
                ++ (pieces (text (codes "hello") ∷ [])
                    ++ (codes " - "
                        ++ (codes "a.cpp" ++ (codes ";" ++ (convert (pos 17) ++ codes "\n"))))))))
unfolding is_on rank prints impl level_of level_to_abort saved_errno format_time error_text
    func_text finish_line level_name from_literal find_last cut_literal
log_at-line_example =
    log_at-line info log_fatal site (text (codes "hello") ∷ []) (codes "net") (codes "a.cpp") refl
      refl (ground arith) (ground arith) (omega arith)
