-- ===== src/Thread.antt =====
-- base/Thread.h, base/Thread.cpp, net/EventLoopThread.h and net/EventLoopThread.cpp: a thread, and
-- the hand-over of the loop that it runs. What a mutex guards is one step.
pub mod Phases
pub mod Moves
pub mod Handover
pub mod Startup
pub mod Failure
mod Examples
use cly_server.Base.{
  ℕ, ◌+◌, Bool, true, false, not, ◌||◌, Option, none, some, List, [], ◌∷◌, ◌++◌, ltb, if◌then◌else◌,
  take, codes, Result, ok, fault, assert, ◌>>=◌, ◌>>◌,
}
use cly_server.Base.Fault.{Fault, future_error, null_pointer}
use cly_server.Base.Decimal.{decimal}

-- The promise of a thread: whether its future was taken, and whether its value is set.
pub record Thread : Type 0 where
  pub started : Bool
  pub joined : Bool
  pub tid : ℕ
  pub name : List ℕ
  pub has_future : Bool
  pub latch : Bool

-- `setDefaultName`, with the count of the threads that were created.
unfoldable pub default_name : ℕ → List ℕ → List ℕ
default_name num [] = take 31 (codes "Thread" ++ decimal num)
default_name num (c ∷ cs) = c ∷ cs

unfoldable pub new_thread : ℕ → List ℕ → ℕ × Thread
new_thread num_created name = (
  num_created + 1,
  record {
    started = false;
    joined = false;
    tid = 0;
    name = default_name (num_created + 1) name;
    has_future = false;
    latch = false;
  },
)

-- A future is taken once.
unfoldable pub get_future : Thread → Result Thread
get_future t = if t.has_future then fault future_error else ok (record t { has_future = true })

-- `Thread::start` up to `pthread_create`, where that fails, and behind the latch.
unfoldable pub begin_start : Thread → Result Thread
begin_start t =
    get_future t >>= λ t'. (assert (not t'.started) >> ok (record t' { started = true }))

unfoldable pub undo_start : Thread → Thread
undo_start t = record t { started = false }

unfoldable pub end_start : Thread → Result Thread
end_start t = assert (ltb 0 t.tid) >> ok t

unfoldable pub join : Thread → Result Thread
join t = assert t.started >> (assert (not t.joined) >> ok (record t { joined = true }))

-- Where the thread that owns a loop's thread is: before `startLoop`, at the latch of
-- `Thread::start`, before the mutex, in the wait on the condition variable, behind `startLoop`; in
-- the destructor behind its test of `loop_`, with the `loop_` that it calls `quit` of, and in the
-- join; and behind it, whether it joined or not.
pub data Starter : Type 0 where
  idle latching locking waiting quitting joining : Starter
  returned : ℕ → Starter
  calling_quit : ℕ → Starter
  gone : Bool → Starter
  crashed : Fault → Starter

-- Where the new thread is: not there, at the head of `runInThread`, before it sets the promise,
-- before it has a loop that the callback has seen, before it hands the loop over, in `loop()`,
-- before the mutex behind it, and at its end.
pub data Child : Type 0 where
  unborn born known building publishing looping ended done : Child

pub record LoopThread : Type 0 where
  pub thread : Thread
  pub starter : Starter
  pub child : Child
  pub loop : Option ℕ
  pub exiting : Bool
  pub quit_asked : Bool
  -- Whether the callback was called.
  pub called_back : Bool

-- What does not depend on the two threads: whether there is a callback, whether `pthread_create`
-- succeeds, the number that gettid gives, the address of the new thread's loop, and whether
-- somebody else than the destructor may have the loop quit.
pub record Setup : Type 0 where
  pub has_callback : Bool
  pub is_created : Bool
  pub gettid : ℕ
  pub new_loop : ℕ
  pub others_quit : Bool

unfoldable pub new : Thread → LoopThread
new t = record {
  thread = t;
  starter = idle;
  child = unborn;
  loop = none;
  exiting = false;
  quit_asked = false;
  called_back = false;
}

unfoldable pub after_begin : Setup → LoopThread → Result Thread → LoopThread
after_begin u s (fault e) = record s { starter = crashed e }
after_begin u s (ok t) =
    if u.is_created
    then record s { thread = t; starter = latching; child = born }
    else record s { thread = undo_start t; starter = locking }

unfoldable pub after_latch : LoopThread → Result Thread → LoopThread
after_latch s (fault e) = record s { starter = crashed e }
after_latch s (ok t) = record s { thread = t; starter = locking }

-- A turn of `while(loop_ == NULL)`.
unfoldable pub look : LoopThread → Option ℕ → LoopThread
look s none = record s { starter = waiting }
look s (some l) = record s { starter = returned l }

-- `pthread_join`.
unfoldable pub joined_at : LoopThread → Child → Option LoopThread
joined_at s done = some (record s { starter = gone true })
joined_at s _ = none

-- The destructor's second reading of `loop_`, for the call.
unfoldable pub load : LoopThread → Option ℕ → LoopThread
load s none = record s { starter = crashed null_pointer }
load s (some l) = record s { starter = calling_quit l }

unfoldable pub after_join : LoopThread → Result Thread → LoopThread
after_join s (fault e) = record s { starter = crashed e }
after_join s (ok t) = record s { thread = t; starter = joining }

-- `quit` writes to the loop, which is a local variable of the new thread, and the join begins.
unfoldable pub quit_at : LoopThread → Child → LoopThread
quit_at s done = record s { starter = crashed null_pointer }
quit_at s _ = after_join (record s { quit_asked = true }) (join s.thread)

-- What the owner does next in `startLoop` or in the destructor, where it is not blocked.
unfoldable pub starter_at : Setup → LoopThread → Starter → Option LoopThread
starter_at u s idle = some (after_begin u s (begin_start s.thread))
starter_at u s latching = if s.thread.latch then some (after_latch s (end_start s.thread)) else none
starter_at u s locking = some (look s s.loop)
starter_at u s waiting = none
starter_at u s quitting = some (load s s.loop)
starter_at u s (calling_quit l) = some (quit_at s s.child)
starter_at u s joining = joined_at s s.child
starter_at u s (returned l) = none
starter_at u s (gone b) = none
starter_at u s (crashed e) = none

-- `notify_one`, and a wait that ends.
unfoldable pub wake : Starter → Starter
wake waiting = locking
wake s = s

-- What the new thread does next, by `runInThread` and `threadFunc`.
unfoldable pub child_at : Setup → LoopThread → Child → Option LoopThread
child_at u s unborn = none
child_at u s born = some (record s { thread = record s.thread { tid = u.gettid }; child = known })
child_at u s known = some (record s { thread = record s.thread { latch = true }; child = building })
child_at u s building = some (record s { called_back = u.has_callback; child = publishing })
child_at u s publishing =
    some (record s { loop = some u.new_loop; starter = wake s.starter; child = looping })
child_at u s looping = none
child_at u s ended = some (record s { loop = none; child = done })
child_at u s done = none

-- The destructor up to its test of `loop_`, which takes no mutex.
unfoldable pub exit_with : LoopThread → Option ℕ → LoopThread
exit_with s none = record s { starter = gone false }
exit_with s (some l) = record s { starter = quitting }

unfoldable pub destroy_at : LoopThread → Starter → Option LoopThread
destroy_at s (returned l) = some (exit_with (record s { exiting = true }) s.loop)
destroy_at s _ = none

-- The end of `loop()`: once it was asked to quit.
unfoldable pub loop_returns_at : Setup → LoopThread → Child → Option LoopThread
loop_returns_at u s looping =
    if u.others_quit || s.quit_asked then some (record s { child = ended }) else none
loop_returns_at u s _ = none

-- Who moves: the owner, the new thread, a wait that ends without a notification, the end of `loop()`,
-- or the owner that destroys the object.
pub data Move : Type 0 where
  starter_moves child_moves wait_ends loop_returns destroys : Move

unfoldable pub step : Setup → Move → LoopThread → Option LoopThread
step u starter_moves s = starter_at u s s.starter
step u child_moves s = child_at u s s.child
step u wait_ends s = some (record s { starter = wake s.starter })
step u loop_returns s = loop_returns_at u s s.child
step u destroys s = destroy_at s s.starter
