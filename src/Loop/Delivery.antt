-- ===== src/Loop/Delivery.antt =====
-- The functors of net/EventLoop.cpp: which are called, when, and what may keep them waiting.
use cly_server.Base.{
  ℕ, zero, suc, ◌+◌, ◌<◌, ◌≡◌, ◌≢◌, refl, sym, ap, ◌∙◌, true, false, List, [], ◌∷◌, ◌++◌,
  append_assoc, append-nil, length, lt→ltb, Option, none, some, ok, arith,
}
use cly_server.Loop.{
  EventLoop, polling, handling, calling, quit, push, begin_loop, poll_returns, handle_read,
  swap_pending, call, call_next, advance, advance_at, queue_in_loop, needs_wakeup,
}
use cly_server.Loop.Steps.{Reachable}
use cly_server.Loop.Invariant.{Reachable-Inv}

-- However the threads interleave, if the loop's own queues none before `loop()` and none while it is
-- blocked in poll(2), the functors are called in the order in which they were queued, each
-- once: what was called, what is being called in this turn and what waits make up the queue. And the
-- loop cannot sleep on a functor: while one waits and the loop has not got past poll(2), the eventfd
-- is readable or a thread is about to write to it.
pub called_in_order :
    {l : EventLoop} {q : List ℕ}
    → Reachable l q
    → (l.called ++ (l.functors ++ l.pending) ≡ q)
      × (l.stage ≢ handling → l.pending ≢ [] → 0 < l.wakeups + l.owed)
called_in_order r = let v = Reachable-Inv r in (v.order, v.announced)

abbrev and_then : Option EventLoop → (EventLoop → Option EventLoop) → Option EventLoop
and_then none k = none
and_then (some l) k = k l

-- The turns of the loop's own thread, left alone, with no other channel ready.
pub advances : ℕ → EventLoop → Option EventLoop
advances zero l = some l
advances (suc n) l = and_then (advance false l) (advances n)

advances-suc :
    (n : ℕ) (l l' : EventLoop) → advance false l ≡ some l' → advances (suc n) l ≡ advances n l'
unfolding advances
advances-suc n l l' e = rw e

advance-polling :
    (l : EventLoop) → l.stage ≡ polling → 0 < l.wakeups → advance false l ≡ some (poll_returns l)
unfolding advance advance_at
advance-polling l at h = ap (advance_at false l) at ∙ rw (lt→ltb 0 l.wakeups h)

advance-handling :
    (l : EventLoop)
    → l.stage ≡ handling
    → 0 < l.wakeups
    → advance false l ≡ some (swap_pending (handle_read l))
unfolding advance advance_at
advance-handling l at h = ap (advance_at false l) at ∙ rw (lt→ltb 0 l.wakeups h)

advance-calling :
    (l : EventLoop) (f : ℕ) (fs : List ℕ)
    → l.stage ≡ calling
    → l.functors ≡ f ∷ fs
    → advance false l ≡ some (call_next l f fs)
unfolding advance advance_at call
advance-calling l f fs at e = ap (advance_at false l) at ∙ ap (λ k. some (call l k)) e

calls_all :
    (fs : List ℕ) (l : EventLoop)
    → l.stage ≡ calling
    → l.functors ≡ fs
    → (l' : EventLoop) × (advances (length fs) l ≡ some l')
      × (l'.called ≡ l.called ++ fs)
      × (l'.pending ≡ l.pending)
unfolding advances call_next
calls_all [] l at e = (l, refl, sym (append-nil l.called), refl)
calls_all (f ∷ fs) l at e =
    let (l', e', c, p) = calls_all fs (call_next l f fs) at refl in
    (
      l',
      advances-suc (length fs) l (call_next l f fs) (advance-calling l f fs at e) ∙ e',
      c ∙ append_assoc l.called (f ∷ []) fs,
      p,
    )

-- A loop in poll(2) that no thread is about to write to calls every functor that waits, within a step
-- for each and two more, and in the order of the queue.
pub waiting_called :
    {l : EventLoop} {q : List ℕ}
    → Reachable l q
    → l.stage ≡ polling
    → l.owed ≡ 0
    → l.pending ≢ []
    → (l' : EventLoop) × (advances (length l.pending + 2) l ≡ some l')
      × (l'.called ≡ q)
      × (l'.pending ≡ [])
unfolding poll_returns handle_read swap_pending
waiting_called {l} {q} r at none_owed waits =
    let v = Reachable-Inv r in
    let awake : 0 < l.wakeups = omega (arith, v.announced (λ h. cc) waits) in
    let n : ℕ = length l.pending in
    let (l', e, c, p) =
      calls_all l.pending (swap_pending (handle_read (poll_returns l))) refl refl in
    (
      l',
      ap (λ k. advances k l) {x = n + 2} {y = suc (suc n)} (omega arith)
          ∙ advances-suc (suc n) l (poll_returns l) (advance-polling l at awake)
          ∙ advances-suc n (poll_returns l) (swap_pending (handle_read (poll_returns l)))
              (advance-handling (poll_returns l) refl awake)
          ∙ e,
      c ∙ ap (λ xs. l.called ++ (xs ++ l.pending)) (sym (v.swapped_out (λ h. cc))) ∙ v.order,
      p,
    )

queue_in_loop-own :
    (l : EventLoop) (cb : ℕ) → l.calling_pending ≡ false → queue_in_loop true l cb ≡ push l cb
unfolding queue_in_loop needs_wakeup
queue_in_loop-own l cb flag = rw flag

begin_loop-rest :
    (l : EventLoop)
    → l.looping ≡ false
    → begin_loop l ≡ ok (record l { looping = true; quit_asked = false; stage = polling })
unfolding begin_loop
begin_loop-rest l h = ground arith

blocked : (l : EventLoop) → l.stage ≡ polling → l.wakeups ≡ 0 → advance false l ≡ none
unfolding advance advance_at
blocked l at h = ap (advance_at false l) at ∙ ground arith

-- A functor that the loop's own thread queues before `loop()` may wait for ever: nothing writes to
-- the eventfd, and poll(2) has no timeout. The loop begins, and blocks with the functor waiting.
pub queued_first_sleeps :
    (l : EventLoop) (cb : ℕ)
    → l.looping ≡ false
    → l.calling_pending ≡ false
    → l.wakeups ≡ 0
    → (l' : EventLoop) × (begin_loop (queue_in_loop true l cb) ≡ ok l')
      × (l'.pending ≡ l.pending ++ cb ∷ [])
      × (advance false l' ≡ none)
unfolding push
queued_first_sleeps l cb rest flag zero_count =
    let l' : EventLoop = record (push l cb) {
      looping = true;
      quit_asked = false;
      stage = polling;
    } in
    (
      l',
      ap begin_loop (queue_in_loop-own l cb flag) ∙ begin_loop-rest (push l cb) rest,
      refl,
      blocked l' refl zero_count,
    )

polling_blocked : (l : EventLoop) → advance_at false l polling ≡ none → l.wakeups ≡ 0
unfolding advance_at
polling_blocked l h = ground arith

-- `quit` does not end a loop that is blocked in poll(2), nor wake it.
pub quit_sleeps :
    (l : EventLoop) → l.stage ≡ polling → advance false l ≡ none → advance false (quit l) ≡ none
unfolding quit advance
quit_sleeps l at none_now =
    blocked (quit l) at (polling_blocked l (sym (ap (advance_at false l) at) ∙ none_now))
