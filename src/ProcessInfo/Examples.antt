-- ===== src/ProcessInfo/Examples.antt =====
-- Texts of /proc as base/ProcessInfo.cpp reads them.
use cly_server.Base.{◌≡◌, refl, true, [], ◌∷◌, ◌++◌, codes, arith, ok}
use cly_server.Base.Int.{pos}
use cly_server.Base.Decimal.{decimal}
use cly_server.StringPiece.{as_string}
use cly_server.ProcessInfo.{
  procname, num_threads, is_prefix, opened_files, scan_dir, scan, fd_dir_filter, starts_with_digit,
  is_digit,
}
use cly_server.ProcessInfo.Names.{procname-stat}
use cly_server.ProcessInfo.Counts.{num_threads-status}

procname-stat_example :
    as_string (procname (codes "12 " ++ b'(' ∷ (codes "a (b) c" ++ b')' ∷ codes " S 1")))
    ≡ codes "a (b) c"
procname-stat_example =
    procname-stat (codes "12 ") (codes "a (b) c") (codes " S 1") (ground arith) (ground arith)

num_threads-status_example :
    num_threads
      (codes "Tgid: 4\n" ++ (codes "Threads:" ++ (9 ∷ decimal 3 ++ b'\n' ∷ codes "SigQ: 0")))
    ≡ pos 3
unfolding is_prefix
num_threads-status_example =
    num_threads-status (codes "Tgid: 4\n") 3 (codes "SigQ: 0") (omega arith) (ground arith)

-- The entries "." and ".." are not counted.
opened_files_skips : opened_files (codes "." ∷ codes ".." ∷ codes "0" ∷ codes "12" ∷ []) true ≡ ok 2
unfolding opened_files scan_dir scan fd_dir_filter starts_with_digit is_digit
opened_files_skips = refl
