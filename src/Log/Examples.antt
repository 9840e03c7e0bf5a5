-- ===== src/Log/Examples.antt =====
-- Prints of base/LogStream.h and a turn of base/AsyncLogging.cpp on concrete data.
use cly_server.Base.{
  ◌≤◌, ◌≡◌, refl, true, List, [], ◌∷◌, ◌++◌, length, codes, if◌then◌else◌, ok, arith,
}
use cly_server.Base.Int.{pos, negsuc}
use cly_server.Log.{FixedBuffer, convert, avail, append}
use cly_server.Log.Numbers.{read, read-convert}
use cly_server.Log.Bounds.{Print, text, integer, pointer, truth, print_all, Holds, print_all-Holds}
use cly_server.Log.Async.{AsyncLogging, fresh, start, log, exchange, write_out, joined}
use cly_server.Log.Exchange.{Reachable, started, logged}
use cly_server.Log.Turns.{turn-Reachable, logged_in_order}

read-convert_example :
    (read (convert (negsuc 41)) ≡ negsuc 41) × (length (convert (negsuc 41)) ≤ 21)
read-convert_example = read-convert (negsuc 41) (omega arith)

abbrev prints : List Print
prints = text (codes "fd = ") ∷ integer (pos 7) ∷ truth true ∷ pointer 255 ∷ []

abbrev small : FixedBuffer
small = record { size = 60; text = codes "n" }

print_all-Holds_example : Holds small prints (print_all small prints)
print_all-Holds_example =
    print_all-Holds prints small (tt, (omega arith, (tt, (tt, tt)))) (omega arith)

abbrev one_line : AsyncLogging
one_line = record start { current = record fresh { text = codes "hello" } }

one_line-Reachable : Reachable one_line (codes "hello")
unfolding log start avail append
one_line-Reachable = logged (codes "hello") started (omega arith)

turn-Reachable_example :
    (a' : AsyncLogging) × ((if one_line.writing then write_out [] one_line else exchange one_line)
      ≡ ok a')
    × Reachable a' (codes "hello")
turn-Reachable_example = turn-Reachable [] one_line-Reachable

logged_in_order_example :
    one_line.output
      ++ (joined one_line.write_log ++ (joined one_line.buffers ++ one_line.current.text))
    ≡ codes "hello"
unfolding start
logged_in_order_example = logged_in_order one_line-Reachable refl
