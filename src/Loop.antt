-- ===== src/Loop.antt =====
-- net/EventLoop.h and net/EventLoop.cpp: the functors that other threads and the loop's own hand to a
-- loop, and the eventfd that wakes it. A functor is known by a number.
pub mod Steps
pub mod Invariant
pub mod Delivery
pub mod Channels
pub mod Turn
pub mod Round
mod Examples
use cly_server.Base.{
  ℕ, ◌+◌, ◌-◌, ◌<◌, ◌^◌, Bool, true, false, not, ◌||◌, List, [], ◌∷◌, ◌++◌, ltb, if◌then◌else◌,
  Option, none, some, Result, ok, fault, assert, ◌>>=◌, ◌>>◌,
}

-- Where the loop's thread is: not in `loop()`, in poll(2), at the handlers of the active channels,
-- or in `doPendingFunctors` once it has swapped.
pub data Stage : Type 0 where
  idle polling handling calling : Stage

pub record EventLoop : Type 0 where
  pub stage : Stage
  pub looping : Bool
  pub quit_asked : Bool
  pub calling_pending : Bool
  pub pending : List ℕ
  -- What `doPendingFunctors` has swapped out and not called yet, and all that was ever called.
  pub functors : List ℕ
  pub called : List ℕ
  -- The counter of the eventfd.
  pub wakeups : ℕ
  -- The threads that have pushed a functor and not yet written to the eventfd.
  pub owed : ℕ

unfoldable pub new : EventLoop
new = record {
  stage = idle;
  looping = false;
  quit_asked = false;
  calling_pending = false;
  pending = [];
  functors = [];
  called = [];
  wakeups = 0;
  owed = 0;
}

-- A write that would take the counter of the eventfd past its greatest value fails, and is logged.
abbrev pub max_wakeups : ℕ
max_wakeups = 2 ^ 64 - 2

unfoldable pub wakeup : EventLoop → EventLoop
wakeup l = if ltb l.wakeups max_wakeups then record l { wakeups = l.wakeups + 1 } else l

-- The critical section of `queueInLoop`.
unfoldable pub push : EventLoop → ℕ → EventLoop
push l cb = record l { pending = l.pending ++ cb ∷ [] }

unfoldable pub needs_wakeup : Bool → EventLoop → Bool
needs_wakeup in_loop_thread l = not in_loop_thread || l.calling_pending

-- `queueInLoop`, where no other thread comes between its two halves.
unfoldable pub queue_in_loop : Bool → EventLoop → ℕ → EventLoop
queue_in_loop in_loop_thread l cb =
    if needs_wakeup in_loop_thread l then wakeup (push l cb) else push l cb

unfoldable pub run_in_loop : Bool → EventLoop → ℕ → EventLoop
run_in_loop in_loop_thread l cb =
    if in_loop_thread then record l { called = l.called ++ cb ∷ [] } else queue_in_loop false l cb

-- `handleRead`: reading an eventfd sets its counter to zero.
unfoldable pub handle_read : EventLoop → EventLoop
handle_read l = record l { wakeups = 0 }

unfoldable pub quit : EventLoop → EventLoop
quit l = record l { quit_asked = true }

-- The beginning of `loop()`, up to its first poll(2). A call of `quit` just before the first test of
-- `quit_` is seen at the next test.
unfoldable pub begin_loop : EventLoop → Result EventLoop
begin_loop l = do
  assert (not l.looping)
  ok (record l { looping = true; quit_asked = false; stage = polling })

unfoldable pub poll_returns : EventLoop → EventLoop
poll_returns l = record l { stage = handling }

-- The first half of `doPendingFunctors`.
unfoldable pub swap_pending : EventLoop → EventLoop
swap_pending l = record l {
  stage = calling;
  calling_pending = true;
  functors = l.pending;
  pending = [];
}

unfoldable pub call_next : EventLoop → ℕ → List ℕ → EventLoop
call_next l f fs = record l { functors = fs; called = l.called ++ f ∷ [] }

-- Its end, and the test of `while (!quit_)`.
unfoldable pub next_turn : EventLoop → EventLoop
next_turn l =
    if l.quit_asked
    then record l { stage = idle; calling_pending = false; looping = false }
    else record l { stage = polling; calling_pending = false }

-- A step of the loop in `doPendingFunctors`.
unfoldable pub call : EventLoop → List ℕ → EventLoop
call l [] = next_turn l
call l (f ∷ fs) = call_next l f fs

unfoldable pub advance_at : Bool → EventLoop → Stage → Option EventLoop
advance_at ready l idle = none
advance_at ready l polling = if ready || ltb 0 l.wakeups then some (poll_returns l) else none
advance_at ready l handling = some (swap_pending (if ltb 0 l.wakeups then handle_read l else l))
advance_at ready l calling = some (call l l.functors)

-- What the loop's thread does next on its own; `none` where it is not in `loop()`, or is blocked in
-- poll(2), which has no timeout: `ready` tells whether another channel than that of the eventfd is.
unfoldable pub advance : Bool → EventLoop → Option EventLoop
advance ready l = advance_at ready l l.stage
