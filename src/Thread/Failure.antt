-- ===== src/Thread/Failure.antt =====
-- What net/EventLoopThread.cpp does where `pthread_create` fails.
use cly_server.Base.{
  ℕ, ◌+◌, ◌≡◌, refl, subst, ap, sym, ◌∙◌, Bool, true, false, Option, none, some, List,
  if◌then◌else◌, arith, ◌⊎◌, inl, inr,
}
use cly_server.Thread.{
  get_future, begin_start, undo_start, Starter, idle, latching, locking, waiting, unborn, born,
  LoopThread, Setup, new, new_thread, default_name, after_begin, look, starter_at, wake, child_at,
  destroy_at, loop_returns_at, Move, starter_moves, child_moves, wait_ends, loop_returns, destroys,
  step,
}
use cly_server.Thread.Handover.{Reachable, made, stepped}

-- The object where no thread was made: untouched, or with the future taken, before the mutex or in
-- the wait.
abbrev alone : List ℕ → Starter → Bool → LoopThread
alone name st taken = record {
  thread = record {
    started = false;
    joined = false;
    tid = 0;
    name = name;
    has_future = taken;
    latch = false;
  };
  starter = st;
  child = unborn;
  loop = none;
  exiting = false;
  quit_asked = false;
  called_back = false;
}

data Alone (name : List ℕ) : LoopThread → Type 0 where
  untouched : Alone name (alone name idle false)
  at_mutex : Alone name (alone name locking true)
  in_wait : Alone name (alone name waiting true)

moved :
    (name : List ℕ) {s s' : LoopThread}
    → Alone name s
    → ◌≡◌ {A = Option LoopThread} (some s) (some s')
    → Alone name s'
moved name a e = subst (Alone name) (some_injective e) a
  where
    some_injective : {x y : LoopThread} → ◌≡◌ {A = Option LoopThread} (some x) (some y) → x ≡ y
    some_injective h = cc

abbrev begun : List ℕ → Bool → Option LoopThread
begun name created =
    let s = alone name idle false in
    let t = record s.thread { has_future = true; started = true } in
    some (
      if created
      then record s { thread = t; starter = latching; child = born }
      else record s { thread = undo_start t; starter = locking })

step-Alone :
    (u : Setup) (name : List ℕ) (m : Move) {s s' : LoopThread}
    → u.is_created ≡ false
    → Alone name s
    → step u m s ≡ some s'
    → Alone name s'
unfolding step starter_at child_at begin_start get_future after_begin undo_start look wake
    destroy_at loop_returns_at
step-Alone u name starter_moves w untouched e = moved name at_mutex (sym (ap (begun name) w) ∙ e)
step-Alone u name starter_moves w at_mutex e = moved name in_wait e
step-Alone u name starter_moves w in_wait e = absurd (ground arith)
step-Alone u name child_moves w untouched e = absurd (ground arith)
step-Alone u name child_moves w at_mutex e = absurd (ground arith)
step-Alone u name child_moves w in_wait e = absurd (ground arith)
step-Alone u name wait_ends w untouched e = moved name untouched e
step-Alone u name wait_ends w at_mutex e = moved name at_mutex e
step-Alone u name wait_ends w in_wait e = moved name at_mutex e
step-Alone u name loop_returns w untouched e = absurd (ground arith)
step-Alone u name loop_returns w at_mutex e = absurd (ground arith)
step-Alone u name loop_returns w in_wait e = absurd (ground arith)
step-Alone u name destroys w untouched e = absurd (ground arith)
step-Alone u name destroys w at_mutex e = absurd (ground arith)
step-Alone u name destroys w in_wait e = absurd (ground arith)

Reachable-Alone :
    (u : Setup) (num : ℕ) (name : List ℕ) {s : LoopThread}
    → u.is_created ≡ false
    → Reachable u num name s
    → Alone (default_name (num + 1) name) s
unfolding new new_thread
Reachable-Alone u num name w made = untouched
Reachable-Alone u num name w (stepped m r e) =
    step-Alone u (default_name (num + 1) name) m w (Reachable-Alone u num name w r) e

-- Where `pthread_create` fails, `startLoop` never returns: the owner is before the call, at the
-- mutex or in the wait, and nobody is there to hand a loop over.
pub failed-blocks :
    (u : Setup) (num : ℕ) (name : List ℕ) (s : LoopThread)
    → u.is_created ≡ false
    → Reachable u num name s
    → ((s.starter ≡ idle) ⊎ ((s.starter ≡ locking) ⊎ (s.starter ≡ waiting)))
      × (s.child ≡ unborn)
      × (s.loop ≡ none)
failed-blocks u num name s w r = blocked (Reachable-Alone u num name w r)
  where
    blocked :
        {s' : LoopThread}
        → Alone (default_name (num + 1) name) s'
        → ((s'.starter ≡ idle) ⊎ ((s'.starter ≡ locking) ⊎ (s'.starter ≡ waiting)))
          × (s'.child ≡ unborn)
          × (s'.loop ≡ none)
    blocked untouched = (inl refl, refl, refl)
    blocked at_mutex = (inr (inl refl), refl, refl)
    blocked in_wait = (inr (inr refl), refl, refl)
