-- ===== src/Thread/Startup.antt =====
-- That `startLoop` of net/EventLoopThread.cpp returns: no wake-up is lost, and the moves are bounded.
use cly_server.Base.{
  ℕ, suc, ◌+◌, ◌<◌, ◌≤◌, ◌≡◌, refl, subst, ap, sym, ◌∙◌, Bool, true, false, Option, none, some,
  List, [], ◌∷◌, arith, length, ◌⊎◌, inl, inr, Option-cases,
}
use cly_server.Thread.{
  get_future, begin_start, end_start, Starter, idle, latching, locking, waiting, returned, Child,
  unborn, born, known, building, publishing, looping, LoopThread, Setup, new, new_thread,
  default_name, after_begin, after_latch, look, joined_at, starter_at, wake, child_at, Move,
  starter_moves, child_moves, step,
}
use cly_server.Thread.Phases.{
  is_started, is_joined, is_exiting, is_counted, tid_of, loop_of, called_of, shape, Works,
  after_check,
}
use cly_server.Thread.Moves.{begun}

-- The states up to the end of `startLoop`, where the loop of the new thread does not end before.
pub data Early (u : Setup) : Starter → Child → Type 0 where
  fresh : Early u idle unborn
  at_birth : Early u latching born
  at_tid : Early u latching known
  latched_building : Early u latching building
  latched_publishing : Early u latching publishing
  latched_looping : Early u latching looping
  locks_building : Early u locking building
  locks_publishing : Early u locking publishing
  locks_looping : Early u locking looping
  waits_building : Early u waiting building
  waits_publishing : Early u waiting publishing
  has : Early u (returned u.new_loop) looping

-- How many moves are left at most.
pub moves_left : {u : Setup} {st : Starter} {c : Child} → Early u st c → ℕ
moves_left fresh = 12
moves_left at_birth = 11
moves_left at_tid = 9
moves_left latched_building = 7
moves_left latched_publishing = 5
moves_left latched_looping = 3
moves_left locks_building = 6
moves_left locks_publishing = 4
moves_left locks_looping = 2
moves_left waits_building = 5
moves_left waits_publishing = 3
moves_left has = 0

-- An early state from which fewer than some number of moves are left.
data Within (u : Setup) (name : List ℕ) (n : ℕ) : LoopThread → Type 0 where
  within :
      {st : Starter} {c : Child} (a : Early u st c)
      → moves_left a < n
      → Within u name n (shape u name st c)

moved :
    (u : Setup) (name : List ℕ) (n : ℕ) (s' : LoopThread) {st : Starter} {c : Child}
    → (a : Early u st c) → moves_left a < n
    → ◌≡◌ {A = Option LoopThread} (some (shape u name st c)) (some s')
    → Within u name n s'
moved u name n s' a h e = subst (Within u name n) (some_injective e) (within a h)
  where
    some_injective : {x y : LoopThread} → ◌≡◌ {A = Option LoopThread} (some x) (some y) → x ≡ y
    some_injective h = cc

starter-Within :
    (u : Setup) (name : List ℕ) (s' : LoopThread) {st : Starter} {c : Child}
    → Works u
    → (a : Early u st c) → starter_at u (shape u name st c) st ≡ some s'
    → Within u name (moves_left a) s'
unfolding moves_left starter_at begin_start get_future after_begin look joined_at end_start
    after_latch shape is_started is_joined is_exiting is_counted tid_of loop_of called_of
starter-Within u name s' (created, positive) fresh e =
    moved u name 12 s' at_birth (omega arith) (sym (ap (begun u name) created) ∙ e)
starter-Within u name s' w at_birth e = absurd (ground arith)
starter-Within u name s' w at_tid e = absurd (ground arith)
starter-Within u name s' (created, positive) latched_building e =
    moved u name 7 s' locks_building (omega arith)
      (sym (ap (after_check u name building) positive) ∙ e)
starter-Within u name s' (created, positive) latched_publishing e =
    moved u name 5 s' locks_publishing (omega arith)
      (sym (ap (after_check u name publishing) positive) ∙ e)
starter-Within u name s' (created, positive) latched_looping e =
    moved u name 3 s' locks_looping (omega arith)
      (sym (ap (after_check u name looping) positive) ∙ e)
starter-Within u name s' w locks_building e = moved u name 6 s' waits_building (omega arith) e
starter-Within u name s' w locks_publishing e = moved u name 4 s' waits_publishing (omega arith) e
starter-Within u name s' w locks_looping e = moved u name 2 s' has (omega arith) e
starter-Within u name s' w waits_building e = absurd (ground arith)
starter-Within u name s' w waits_publishing e = absurd (ground arith)
starter-Within u name s' w has e = absurd (ground arith)

child-Within :
    (u : Setup) (name : List ℕ) (s' : LoopThread) {st : Starter} {c : Child}
    → (a : Early u st c) → child_at u (shape u name st c) c ≡ some s'
    → Within u name (moves_left a) s'
unfolding moves_left child_at wake shape is_started is_joined is_exiting is_counted tid_of loop_of
    called_of
child-Within u name s' fresh e = absurd (ground arith)
child-Within u name s' at_birth e = moved u name 11 s' at_tid (omega arith) e
child-Within u name s' at_tid e = moved u name 9 s' latched_building (omega arith) e
child-Within u name s' latched_building e = moved u name 7 s' latched_publishing (omega arith) e
child-Within u name s' latched_publishing e = moved u name 5 s' latched_looping (omega arith) e
child-Within u name s' latched_looping e = absurd (ground arith)
child-Within u name s' locks_building e = moved u name 6 s' locks_publishing (omega arith) e
child-Within u name s' locks_publishing e = moved u name 4 s' locks_looping (omega arith) e
child-Within u name s' locks_looping e = absurd (ground arith)
child-Within u name s' waits_building e = moved u name 5 s' waits_publishing (omega arith) e
child-Within u name s' waits_publishing e = moved u name 3 s' locks_looping (omega arith) e
child-Within u name s' has e = absurd (ground arith)

-- A schedule: at each move the owner's turn or the new thread's; it may only name one that can move.
unfoldable pub side : Bool → Move
side true = starter_moves
side false = child_moves

unfoldable pub and_then : Option LoopThread → (LoopThread → Option LoopThread) → Option LoopThread
and_then none f = none
and_then (some s) f = f s

unfoldable pub run : Setup → List Bool → LoopThread → Option LoopThread
run u [] s = some s
run u (b ∷ bs) s = and_then (step u (side b) s) (run u bs)

side-Within :
    (u : Setup) (name : List ℕ) (b : Bool) (s' : LoopThread) {st : Starter} {c : Child}
    → Works u
    → (a : Early u st c) → step u (side b) (shape u name st c) ≡ some s'
    → Within u name (moves_left a) s'
unfolding step side shape
side-Within u name true s' w a e = starter-Within u name s' w a e
side-Within u name false s' w a e = child-Within u name s' a e

-- That a state is the end of `startLoop`, or one of the two threads can move.
abbrev pub GoesOn : Setup → LoopThread → Type 0
GoesOn u s =
    (s.starter ≡ returned u.new_loop)
    ⊎ ((b : Bool) × (s' : LoopThread) × (step u (side b) s ≡ some s'))

Early-GoesOn :
    (u : Setup) (name : List ℕ) {st : Starter} {c : Child}
    → Early u st c
    → GoesOn u (shape u name st c)
unfolding step side starter_at child_at shape is_counted loop_of
Early-GoesOn u name fresh = inr (true, _, refl)
Early-GoesOn u name at_birth = inr (false, _, refl)
Early-GoesOn u name at_tid = inr (false, _, refl)
Early-GoesOn u name latched_building = inr (true, _, refl)
Early-GoesOn u name latched_publishing = inr (true, _, refl)
Early-GoesOn u name latched_looping = inr (true, _, refl)
Early-GoesOn u name locks_building = inr (true, _, refl)
Early-GoesOn u name locks_publishing = inr (true, _, refl)
Early-GoesOn u name locks_looping = inr (true, _, refl)
Early-GoesOn u name waits_building = inr (false, _, refl)
Early-GoesOn u name waits_publishing = inr (false, _, refl)
Early-GoesOn u name has = inl refl

run-Within :
    (u : Setup) (name : List ℕ) (bs : List Bool) (n : ℕ) {s' : LoopThread} (s : LoopThread)
    → Works u
    → Within u name n s'
    → run u bs s' ≡ some s
    → (suc (length bs) ≤ n) × GoesOn u s
unfolding run and_then
run-Within u name [] n s w (within a h) e =
    (omega (arith, h), subst (GoesOn u) (some_injective e) (Early-GoesOn u name a))
  where
    some_injective : {x y : LoopThread} → ◌≡◌ {A = Option LoopThread} (some x) (some y) → x ≡ y
    some_injective h = cc
run-Within u name (b ∷ bs) n {s'} s w (within a h) e = elim (Option-cases (step u (side b) s')) [
  | inl stuck ↦ absurd (not_some (sym (ap (λ o. and_then o (run u bs)) stuck) ∙ e))
  | inr (next, moves) ↦
      let (short, on) =
        run-Within u name bs (moves_left a) s w (side-Within u name b next w a moves)
          (sym (ap (λ o. and_then o (run u bs)) moves) ∙ e) in
      (omega (arith, short, h), on)
]
  where
    not_some : ◌≡◌ {A = Option LoopThread} none (some s) → ⊥
    not_some h = cc

-- From a new object, where `pthread_create` succeeds, gives a number that is not 0, and no wait
-- ends without a notification, the two threads make at most 12 moves in any order while the loop
-- runs; and as long as `startLoop` has not returned the new loop, one of them can move, so that no
-- wake-up is lost.
pub run-returns :
    (u : Setup) (num : ℕ) (name : List ℕ) (bs : List Bool) (s : LoopThread)
    → Works u
    → run u bs (new (new_thread num name).1) ≡ some s
    → (length bs ≤ 12) × GoesOn u s
unfolding new new_thread shape is_started is_joined is_exiting is_counted tid_of loop_of called_of
    moves_left
run-returns u num name bs s w e =
    let (short, on) =
      run-Within u (default_name (num + 1) name) bs 13 s w (within fresh (omega arith)) e in
    (omega (arith, short), on)
