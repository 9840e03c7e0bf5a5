-- ===== src/Thread/Moves.antt =====
-- That each move of the two threads of net/EventLoopThread.cpp leads from one state of
-- Thread.Phases to another.
use cly_server.Base.{
  ℕ, ◌≡◌, ap, sym, ◌∙◌, Bool, true, Option, none, some, ◌||◌, List, if◌then◌else◌, arith,
}
use cly_server.Thread.{
  get_future, begin_start, end_start, join, Starter, idle, latching, locking, waiting, joining,
  returned, gone, Child, unborn, born, building, publishing, looping, ended, done, LoopThread, load,
  quit_at, quitting, calling_quit, Setup, after_begin, after_latch, look, joined_at, starter_at,
  wake, after_join, exit_with, destroy_at, undo_start, loop_returns_at, Move, starter_moves,
  child_moves, wait_ends, loop_returns, destroys, step,
}
use cly_server.Thread.Phases.{
  at_building, at_publishing, at_looping, over_looping, over_ended, over_done, wait_building,
  wait_publishing, Allowed, fresh, at_birth, at_tid, latched, locks, waits, has, quits, calls,
  joins, left, Calm, is_started, is_joined, is_exiting, is_counted, tid_of, loop_of, called_of,
  shape, Fits, fits, moved, child-Fits, Works, latch-Fits,
}

abbrev pub begun : Setup → List ℕ → Bool → Option LoopThread
begun u name created =
    let s = shape u name idle unborn in
    let t = record s.thread { has_future = true; started = true } in
    some (
      if created
      then record s { thread = t; starter = latching; child = born }
      else record s { thread = undo_start t; starter = locking })

pub starter-Fits :
    (u : Setup) (name : List ℕ) (s' : LoopThread) {st : Starter} {c : Child}
    → Works u
    → Allowed u st c
    → starter_at u (shape u name st c) st ≡ some s'
    → Fits u name s'
unfolding starter_at load quit_at after_join join begin_start get_future after_begin look joined_at
    end_start after_latch shape is_started is_joined is_exiting is_counted tid_of loop_of called_of
starter-Fits u name s' (created, positive) fresh e =
    moved u name s' latching born at_birth (sym (ap (begun u name) created) ∙ e)
starter-Fits u name s' w at_birth e = absurd (ground arith)
starter-Fits u name s' w at_tid e = absurd (ground arith)
starter-Fits u name s' w (latched c) e = latch-Fits u name s' w c e
starter-Fits u name s' w (locks at_building) e =
    moved u name s' waiting building (waits wait_building) e
starter-Fits u name s' w (locks at_publishing) e =
    moved u name s' waiting publishing (waits wait_publishing) e
starter-Fits u name s' w (locks at_looping) e = moved u name s' (returned u.new_loop) looping has e
starter-Fits u name s' w (waits c) e = absurd (ground arith)
starter-Fits u name s' w has e = absurd (ground arith)
starter-Fits u name s' w quits e = moved u name s' (calling_quit u.new_loop) looping calls e
starter-Fits u name s' w calls e = moved u name s' joining looping (joins over_looping) e
starter-Fits u name s' w (joins over_looping) e = absurd (ground arith)
starter-Fits u name s' w (joins over_ended) e = absurd (ground arith)
starter-Fits u name s' w (joins over_done) e = moved u name s' (gone true) done left e
starter-Fits u name s' w left e = absurd (ground arith)

pub wait-Fits :
    (u : Setup) (name : List ℕ) (s' : LoopThread) {st : Starter} {c : Child}
    → Allowed u st c
    → step u wait_ends (shape u name st c) ≡ some s'
    → Fits u name s'
unfolding step wake shape is_started is_joined is_exiting is_counted tid_of loop_of called_of
wait-Fits u name s' {st} {c} fresh e = moved u name s' st c fresh e
wait-Fits u name s' {st} {c} at_birth e = moved u name s' st c at_birth e
wait-Fits u name s' {st} {c} at_tid e = moved u name s' st c at_tid e
wait-Fits u name s' {st} {c} (latched h) e = moved u name s' st c (latched h) e
wait-Fits u name s' {st} {c} (locks h) e = moved u name s' st c (locks h) e
wait-Fits u name s' {st} {c} has e = moved u name s' st c has e
wait-Fits u name s' {st} {c} quits e = moved u name s' st c quits e
wait-Fits u name s' {st} {c} calls e = moved u name s' st c calls e
wait-Fits u name s' {st} {c} (joins h) e = moved u name s' st c (joins h) e
wait-Fits u name s' {st} {c} left e = moved u name s' st c left e
wait-Fits u name s' (waits wait_building) e = moved u name s' locking building (locks at_building) e
wait-Fits u name s' (waits wait_publishing) e =
    moved u name s' locking publishing (locks at_publishing) e

abbrev may_end : LoopThread → Bool → Option LoopThread
may_end s others = if others || s.quit_asked then some (record s { child = ended }) else none

not_none : {s : LoopThread} → ¬ (◌≡◌ {A = Option LoopThread} none (some s))
not_none e = cc

pub end-Fits :
    (u : Setup) (name : List ℕ) (s' : LoopThread) {st : Starter} {c : Child}
    → Calm u
    → Allowed u st c
    → loop_returns_at u (shape u name st c) c ≡ some s'
    → Fits u name s'
unfolding loop_returns_at shape is_started is_joined is_exiting is_counted tid_of loop_of called_of
end-Fits u name s' calm (joins over_looping) e =
    moved u name s' joining ended (joins over_ended)
      (sym (ap (may_end (shape u name joining looping)) calm) ∙ e)
end-Fits u name s' calm fresh e = absurd (ground arith)
end-Fits u name s' calm at_birth e = absurd (ground arith)
end-Fits u name s' calm at_tid e = absurd (ground arith)
end-Fits u name s' calm (latched at_building) e = absurd (ground arith)
end-Fits u name s' calm (latched at_publishing) e = absurd (ground arith)
end-Fits u name s' calm (locks at_building) e = absurd (ground arith)
end-Fits u name s' calm (locks at_publishing) e = absurd (ground arith)
end-Fits u name s' calm (waits wait_building) e = absurd (ground arith)
end-Fits u name s' calm (waits wait_publishing) e = absurd (ground arith)
end-Fits u name s' calm (joins over_ended) e = absurd (ground arith)
end-Fits u name s' calm (joins over_done) e = absurd (ground arith)
end-Fits u name s' calm left e = absurd (ground arith)
end-Fits u name s' calm (latched at_looping) e =
    absurd (not_none (sym (ap (may_end (shape u name latching looping)) calm) ∙ e))
end-Fits u name s' calm (locks at_looping) e =
    absurd (not_none (sym (ap (may_end (shape u name locking looping)) calm) ∙ e))
end-Fits u name s' calm has e =
    absurd (not_none (sym (ap (may_end (shape u name (returned u.new_loop) looping)) calm) ∙ e))
end-Fits u name s' calm quits e =
    absurd (not_none (sym (ap (may_end (shape u name quitting looping)) calm) ∙ e))
end-Fits u name s' calm calls e =
    absurd (not_none (sym (ap (may_end (shape u name (calling_quit u.new_loop) looping)) calm) ∙ e))

pub destroy-Fits :
    (u : Setup) (name : List ℕ) (s' : LoopThread) {st : Starter} {c : Child}
    → Allowed u st c
    → destroy_at (shape u name st c) st ≡ some s'
    → Fits u name s'
unfolding destroy_at exit_with after_join join shape is_started is_joined is_exiting is_counted
    tid_of loop_of called_of
destroy-Fits u name s' has e = moved u name s' quitting looping quits e
destroy-Fits u name s' fresh e = absurd (ground arith)
destroy-Fits u name s' at_birth e = absurd (ground arith)
destroy-Fits u name s' at_tid e = absurd (ground arith)
destroy-Fits u name s' (latched h) e = absurd (ground arith)
destroy-Fits u name s' (locks h) e = absurd (ground arith)
destroy-Fits u name s' (waits h) e = absurd (ground arith)
destroy-Fits u name s' quits e = absurd (ground arith)
destroy-Fits u name s' calls e = absurd (ground arith)
destroy-Fits u name s' (joins h) e = absurd (ground arith)
destroy-Fits u name s' left e = absurd (ground arith)

pub step-Fits :
    (u : Setup) (name : List ℕ) (m : Move) {s s' : LoopThread}
    → Works u
    → Calm u
    → Fits u name s
    → step u m s ≡ some s'
    → Fits u name s'
unfolding step shape
step-Fits u name starter_moves {s} {s'} w calm (fits a) e = starter-Fits u name s' w a e
step-Fits u name child_moves {s} {s'} w calm (fits a) e = child-Fits u name s' a e
step-Fits u name wait_ends {s} {s'} w calm (fits a) e = wait-Fits u name s' a e
step-Fits u name loop_returns {s} {s'} w calm (fits a) e = end-Fits u name s' calm a e
step-Fits u name destroys {s} {s'} w calm (fits a) e = destroy-Fits u name s' a e
