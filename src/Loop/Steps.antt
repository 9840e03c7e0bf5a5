-- ===== src/Loop/Steps.antt =====
-- The interleavings of net/EventLoop.cpp: the loop's thread, and any number of others.
use cly_server.Base.{ℕ, ◌+◌, ◌-◌, ◌<◌, ◌≡◌, ◌≢◌, true, false, List, [], ◌∷◌, ◌++◌, ok}
use cly_server.Loop.{
  EventLoop, idle, polling, handling, calling, new, wakeup, push, queue_in_loop, handle_read, quit,
  begin_loop, poll_returns, swap_pending, call_next, next_turn,
}

-- A loop that comes about, with all the functors ever queued, in order. A thread that is not the
-- loop's pushes and writes to the eventfd in two steps. The loop's own thread queues from handlers
-- and functors, not before `loop()`.
pub data Reachable : EventLoop → List ℕ → Type 0 where
  created : Reachable new []
  pushed :
      {l : EventLoop} {q : List ℕ} (cb : ℕ)
      → Reachable l q
      → Reachable (record (push l cb) { owed = l.owed + 1 }) (q ++ cb ∷ [])
  woken :
      {l : EventLoop} {q : List ℕ}
      → Reachable l q
      → 0 < l.owed
      → Reachable (wakeup (record l { owed = l.owed - 1 })) q
  queued :
      {l : EventLoop} {q : List ℕ} (cb : ℕ)
      → Reachable l q
      → l.stage ≢ idle
      → l.stage ≢ polling
      → Reachable (queue_in_loop true l cb) (q ++ cb ∷ [])
  quitted : {l : EventLoop} {q : List ℕ} → Reachable l q → Reachable (quit l) q
  begun :
      {l l' : EventLoop} {q : List ℕ}
      → Reachable l q
      → l.stage ≡ idle
      → begin_loop l ≡ ok l'
      → Reachable l' q
  returned :
      {l : EventLoop} {q : List ℕ}
      → Reachable l q
      → l.stage ≡ polling
      → Reachable (poll_returns l) q
  read :
      {l : EventLoop} {q : List ℕ}
      → Reachable l q
      → l.stage ≡ handling
      → Reachable (handle_read l) q
  swapped :
      {l : EventLoop} {q : List ℕ}
      → Reachable l q
      → l.stage ≡ handling
      → Reachable (swap_pending l) q
  ran :
      {l : EventLoop} {q : List ℕ} (f : ℕ) (fs : List ℕ)
      → Reachable l q
      → l.stage ≡ calling
      → l.functors ≡ f ∷ fs
      → Reachable (call_next l f fs) q
  turned :
      {l : EventLoop} {q : List ℕ}
      → Reachable l q
      → l.stage ≡ calling
      → l.functors ≡ []
      → Reachable (next_turn l) q

pub record Inv (l : EventLoop) (q : List ℕ) : Type 0 where
  -- What was called, what is to be called in this turn and what waits are all that was queued.
  pub order : l.called ++ (l.functors ++ l.pending) ≡ q
  -- A functor that waits while the loop will go to poll(2) before it swaps is announced.
  pub announced : l.stage ≢ handling → l.pending ≢ [] → 0 < l.wakeups + l.owed
  pub swapped_out : l.stage ≢ calling → l.functors ≡ []
  pub flagged : l.stage ≡ calling → l.calling_pending ≡ true
  pub at_rest : l.stage ≡ idle → l.looping ≡ false
