-- ===== src/Loop/Examples.antt =====
-- The loop of net/EventLoop.cpp with two functors from another thread.
use cly_server.Base.{◌+◌, ◌<◌, ◌≡◌, ◌≢◌, refl, true, false, [], ◌∷◌, ◌++◌, some, arith}
use cly_server.Loop.{EventLoop, polling, handling, new, wakeup, push, begin_loop}
use cly_server.Loop.Steps.{Reachable, created, pushed, woken, begun}
use cly_server.Loop.Delivery.{advances, called_in_order, waiting_called}

abbrev started : EventLoop
started = record new { looping = true; quit_asked = false; stage = polling }

-- Both were pushed, and the thread wrote to the eventfd once each.
abbrev two_waiting : EventLoop
two_waiting = record started { pending = 7 ∷ 8 ∷ []; wakeups = 2 }

two_waiting-Reachable : Reachable two_waiting (7 ∷ 8 ∷ [])
unfolding new push wakeup begin_loop
two_waiting-Reachable =
    woken
      (woken (pushed 8 (pushed 7 (begun {l = new} {l' = started} created refl refl))) (omega arith))
      (omega arith)

called_in_order_example :
    (two_waiting.called ++ (two_waiting.functors ++ two_waiting.pending) ≡ 7 ∷ 8 ∷ [])
    × (two_waiting.stage ≢ handling
        → two_waiting.pending ≢ []
        → 0 < two_waiting.wakeups + two_waiting.owed)
called_in_order_example = called_in_order two_waiting-Reachable

waiting_called_example :
    (l' : EventLoop) × (advances 4 two_waiting ≡ some l')
    × (l'.called ≡ 7 ∷ 8 ∷ [])
    × (l'.pending ≡ [])
unfolding new
waiting_called_example = waiting_called two_waiting-Reachable refl refl (λ e. cc)
