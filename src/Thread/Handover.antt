-- ===== src/Thread/Handover.antt =====
-- The hand-over of a loop by net/EventLoopThread.cpp, under any interleaving of the two threads.
use cly_server.Base.{none, ℕ, ◌+◌, ◌≡◌, refl, true, some, List}
use cly_server.Thread.{
  Starter, returned, gone, crashed, done, LoopThread, Setup, new, new_thread, default_name, Move,
  step, quitting, calling_quit, looping, done,
}
use cly_server.Thread.Phases.{
  fresh, at_birth, at_tid, latched, locks, waits, has, quits, calls, joins, left, is_started,
  is_joined, is_exiting, is_counted, tid_of, loop_of, called_of, shape, Fits, fits, Works, Calm,
}
use cly_server.Thread.Moves.{step-Fits}

-- The states that come about from a new object.
pub data Reachable (u : Setup) (num : ℕ) (name : List ℕ) : LoopThread → Type 0 where
  made : Reachable u num name (new (new_thread num name).1)
  stepped :
      {s s' : LoopThread} (m : Move)
      → Reachable u num name s
      → step u m s ≡ some s'
      → Reachable u num name s'

pub Reachable-Fits :
    (u : Setup) (num : ℕ) (name : List ℕ) (s : LoopThread)
    → Works u
    → Calm u
    → Reachable u num name s
    → Fits u (default_name (num + 1) name) s
unfolding new new_thread shape is_started is_joined is_exiting is_counted tid_of loop_of called_of
Reachable-Fits u num name s w calm made = fits fresh
Reachable-Fits u num name s' w calm (stepped m r e) =
    step-Fits u (default_name (num + 1) name) m w calm (Reachable-Fits u num name _ w calm r) e

-- What holds where the owner is: behind `startLoop`, and in the destructor up to its call of
-- `quit`, it has the loop of the new thread, which is still in `loop()`, the callback was called
-- for it if there is one, and the number of the thread is known; behind the destructor the thread
-- was joined and is at its end; no assertion fails, no future is taken twice, and `quit` is called
-- of no loop that is gone.
pub IsSound : Setup → LoopThread → Starter → Type 0
IsSound u s (returned l) =
    (l ≡ u.new_loop)
    × (s.child ≡ looping)
    × (s.called_back ≡ u.has_callback)
    × (s.thread.tid ≡ u.gettid)
IsSound u s quitting = (s.loop ≡ some u.new_loop) × (s.child ≡ looping)
IsSound u s (calling_quit l) = (l ≡ u.new_loop) × (s.child ≡ looping)
IsSound u s (gone joined) = (joined ≡ true) × (s.child ≡ done) × (s.loop ≡ none)
IsSound u s (crashed f) = ⊥
IsSound u s _ = Unit

Fits-IsSound : (u : Setup) (name : List ℕ) {s : LoopThread} → Fits u name s → IsSound u s s.starter
unfolding IsSound shape is_started is_joined is_exiting is_counted tid_of loop_of called_of
Fits-IsSound u name (fits fresh) = tt
Fits-IsSound u name (fits at_birth) = tt
Fits-IsSound u name (fits at_tid) = tt
Fits-IsSound u name (fits (latched h)) = tt
Fits-IsSound u name (fits (locks h)) = tt
Fits-IsSound u name (fits (waits h)) = tt
Fits-IsSound u name (fits has) = (refl, refl, refl, refl)
Fits-IsSound u name (fits quits) = (refl, refl)
Fits-IsSound u name (fits calls) = (refl, refl)
Fits-IsSound u name (fits (joins h)) = tt
Fits-IsSound u name (fits left) = (refl, refl, refl)

-- Where `pthread_create` succeeds and gives a number that is not 0, and where only the destructor
-- has the loop quit, every order of the moves of the two threads, with waits that end without a
-- notification and with the destructor in four moves, leads to sound states only.
pub Reachable-IsSound :
    (u : Setup) (num : ℕ) (name : List ℕ) (s : LoopThread)
    → Works u
    → Calm u
    → Reachable u num name s
    → IsSound u s s.starter
Reachable-IsSound u num name s w calm r =
    Fits-IsSound u (default_name (num + 1) name) (Reachable-Fits u num name s w calm r)
