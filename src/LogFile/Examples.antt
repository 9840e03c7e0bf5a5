-- ===== src/LogFile/Examples.antt =====
-- A log of base/LogFile.cpp that moves on to a new file, on concrete data.
use cly_server.Base.{◌≡◌, refl, true, false, some, [], ◌∷◌, codes, arith, ok}
use cly_server.FileUtil.{Fwrite, append, append_loop, write, count_written, open_append}
use cly_server.LogFile.{
  LogFile, Process, World, append_unlocked, after_append, roll_on, roll_file, change_file, period,
  get_log_file_name, first_log, has_slash, new,
}
use cly_server.LogFile
use cly_server.LogFile.Rolling.{Inv, Sound}
use cly_server.LogFile.Lines.{Reachable, created, appended, Reachable-Inv}
use cly_server.LogFile.Names.{Apart, Reachable-Apart}

abbrev unary : Process
unary = record { time_text = λ t. t ∷ []; hostname = codes "host"; pid = 7 }

-- A log named "cly" with files of at most 4 bytes.
abbrev fresh : LogFile
fresh = record {
  basename = codes "cly";
  roll_size = 4;
  flush_interval = 3;
  check_every_n = 1024;
  count = 0;
  start_of_period = 0;
  last_roll = 1000;
  last_flush = 1000;
  file = record {
    name = get_log_file_name unary (codes "cly") 1000;
    taken = [];
    flushed = 0;
    written_bytes = 0;
  };
  older = [];
}

fresh-Reachable : Reachable unary fresh []
unfolding new open_append first_log period has_slash
fresh-Reachable = created (codes "cly") 4 3 1024 1000 refl

abbrev byte : Fwrite
byte = record { count = 1; error = false }

abbrev at_1001 : World
at_1001 = record {
  answers = byte ∷ byte ∷ byte ∷ byte ∷ byte ∷ [];
  now = 1001;
  roll_now = 1001;
  opened = true;
}

at_1001-Sound : Sound (codes "hello") at_1001
at_1001-Sound = ground arith

abbrev rolled_log : LogFile
rolled_log = record fresh {
  last_roll = 1001;
  last_flush = 1001;
  file = record {
    name = get_log_file_name unary (codes "cly") 1001;
    taken = [];
    flushed = 0;
    written_bytes = 0;
  };
  older = record fresh.file { taken = codes "hello"; written_bytes = 5 } ∷ [];
}

-- A line of five bytes is written whole, and the next one goes to a new file.
hello_rolls : append_unlocked unary fresh (codes "hello") at_1001 ≡ some (ok rolled_log)
unfolding append_unlocked LogFile.appended append append_loop write count_written after_append
    roll_on roll_file open_append change_file period
hello_rolls = refl

rolled_log-Reachable : Reachable unary rolled_log (codes "hello")
rolled_log-Reachable = appended (codes "hello") at_1001 fresh-Reachable at_1001-Sound hello_rolls

Reachable-Inv_example : Inv unary (codes "hello") rolled_log
Reachable-Inv_example = Reachable-Inv rolled_log-Reachable

Reachable-Apart_example : Apart (rolled_log.file ∷ rolled_log.older)
Reachable-Apart_example = Reachable-Apart (λ s t (e : s ∷ [] ≡ t ∷ []). cc) rolled_log-Reachable
