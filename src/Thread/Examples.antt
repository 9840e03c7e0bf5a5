-- ===== src/Thread/Examples.antt =====
-- The hand-over of a loop of net/EventLoopThread.cpp on concrete data.
use cly_server.Base.{
  ℕ, sym, ap, subst, ◌∙◌, Option, Option-cases, inl, inr, ◌≤◌, ◌≡◌, refl, Bool, true, false, none,
  some, List, [], ◌∷◌, length, codes, ◌⊎◌,
}
use cly_server.Base.Fault.{null_pointer}
use cly_server.Thread.{
  child_moves, destroys, loop_returns, load, destroy_at, exit_with, loop_returns_at, crashed, done,
  idle, locking, waiting, returned, unborn, looping, LoopThread, Setup, new, new_thread,
  default_name, get_future, begin_start, undo_start, end_start, after_begin, after_latch, look,
  starter_at, wake, child_at, step, starter_moves,
}
use cly_server.Thread.Handover.{Reachable, made, stepped, IsSound, Reachable-IsSound}
use cly_server.Thread.Startup.{side, and_then, run, GoesOn, run-returns}
use cly_server.Thread.Failure.{failed-blocks}

abbrev works : Setup
works = record {
  has_callback = true;
  is_created = true;
  gettid = 41;
  new_loop = 7;
  others_quit = false;
}

abbrev fails : Setup
fails = record {
  has_callback = true;
  is_created = false;
  gettid = 41;
  new_loop = 7;
  others_quit = false;
}

-- The owner waits before the new thread hands its loop over.
abbrev schedule : List Bool
schedule = true ∷ false ∷ false ∷ true ∷ true ∷ false ∷ false ∷ true ∷ []

abbrev at_the_end : LoopThread
at_the_end = record {
  thread = record {
    started = true;
    joined = false;
    tid = 41;
    name = codes "io";
    has_future = true;
    latch = true;
  };
  starter = returned 7;
  child = looping;
  loop = some 7;
  exiting = false;
  quit_asked = false;
  called_back = true;
}

run-returns_example : (length schedule ≤ 12) × GoesOn works at_the_end
unfolding run and_then step side starter_at child_at begin_start get_future end_start after_begin
    after_latch look wake new new_thread default_name
run-returns_example = run-returns works 0 (codes "io") schedule at_the_end (refl, refl) refl

-- The states along a schedule come about.
run-Reachable :
    (u : Setup) (num : ℕ) (name : List ℕ) (bs : List Bool) (s s' : LoopThread)
    → Reachable u num name s
    → run u bs s ≡ some s'
    → Reachable u num name s'
unfolding run and_then
run-Reachable u num name [] s s' r e = subst (Reachable u num name) (some_injective e) r
  where
    some_injective : {x y : LoopThread} → ◌≡◌ {A = Option LoopThread} (some x) (some y) → x ≡ y
    some_injective h = cc
run-Reachable u num name (b ∷ bs) s s' r e = elim (Option-cases (step u (side b) s)) [
  | inl stuck ↦ absurd (not_some (sym (ap (λ o. and_then o (run u bs)) stuck) ∙ e))
  | inr (next, moves) ↦
      run-Reachable u num name bs next s' (stepped (side b) r moves)
        (sym (ap (λ o. and_then o (run u bs)) moves) ∙ e)
]
  where
    not_some : ◌≡◌ {A = Option LoopThread} none (some s') → ⊥
    not_some h = cc

at_the_end-Reachable : Reachable works 0 (codes "io") at_the_end
unfolding run and_then step side starter_at child_at begin_start get_future end_start after_begin
    after_latch look wake new new_thread default_name
at_the_end-Reachable =
    run-Reachable works 0 (codes "io") schedule (new (new_thread 0 (codes "io")).1) at_the_end made
      refl

Reachable-IsSound_example : IsSound works at_the_end (returned 7)
Reachable-IsSound_example =
    Reachable-IsSound works 0 (codes "io") at_the_end (refl, refl) refl at_the_end-Reachable

-- Where somebody else may have the loop quit, the destructor can find the loop there and then gone.
abbrev shared : Setup
shared = record works { others_quit = true }

at_the_end_shared : Reachable shared 0 (codes "io") at_the_end
unfolding run and_then step side starter_at child_at begin_start get_future end_start after_begin
    after_latch look wake new new_thread default_name
at_the_end_shared =
    run-Reachable shared 0 (codes "io") schedule (new (new_thread 0 (codes "io")).1) at_the_end made
      refl

abbrev lost : LoopThread
lost = record at_the_end {
  starter = crashed null_pointer;
  child = done;
  loop = none;
  exiting = true;
}

destructor_races : Reachable shared 0 (codes "io") lost
unfolding step starter_at load child_at destroy_at exit_with loop_returns_at
destructor_races =
    stepped starter_moves
      (stepped child_moves (stepped loop_returns (stepped destroys at_the_end_shared refl) refl)
        refl)
      refl

abbrev no_thread : LoopThread
no_thread = record {
  thread = record {
    started = false;
    joined = false;
    tid = 0;
    name = codes "io";
    has_future = true;
    latch = false;
  };
  starter = locking;
  child = unborn;
  loop = none;
  exiting = false;
  quit_asked = false;
  called_back = false;
}

failed-blocks_example :
    ((no_thread.starter ≡ idle) ⊎ ((no_thread.starter ≡ locking) ⊎ (no_thread.starter ≡ waiting)))
    × (no_thread.child ≡ unborn)
    × (no_thread.loop ≡ none)
unfolding step starter_at begin_start get_future after_begin undo_start new new_thread default_name
failed-blocks_example =
    failed-blocks fails 0 (codes "io") no_thread refl (stepped starter_moves made refl)
