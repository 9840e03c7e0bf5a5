-- ===== src/Loop/Invariant.antt =====
-- The invariant of Loop.Steps at each step of net/EventLoop.cpp.
use mathlib.Core.Bool.{false≢true}
use cly_server.Base.{
  ℕ, ◌+◌, ◌-◌, ◌<◌, ◌≡◌, ◌≢◌, refl, sym, ap, subst, ◌∙◌, Bool, true, false, List, [], ◌∷◌, ◌++◌,
  append-nil, append_assoc, lt→ltb, dec_lt, if◌then◌else◌, ok, arith,
}
use cly_server.Loop.{
  EventLoop, Stage, idle, polling, handling, calling, new, wakeup, max_wakeups, push, needs_wakeup,
  queue_in_loop, handle_read, quit, begin_loop, poll_returns, swap_pending, call_next, next_turn,
}
use cly_server.Loop.Steps.{
  Reachable, Inv, created, pushed, woken, queued, quitted, begun, returned, read, swapped, ran,
  turned,
}

-- A wakeup leaves the counter above zero, and all else as it is.
pub wakeup_lem : (l : EventLoop) → (n : ℕ) × (wakeup l ≡ record l { wakeups = n }) × (0 < n)
unfolding wakeup
wakeup_lem l = elim (dec_lt l.wakeups max_wakeups) [
  | yes h ↦ (l.wakeups + 1, rw (lt→ltb l.wakeups max_wakeups h), omega arith)
  | no h ↦ (l.wakeups, ground arith, omega arith)
]

module _ {l : EventLoop} {q : List ℕ} (v : Inv l q) where
  order-push : (cb : ℕ) → l.called ++ (l.functors ++ (l.pending ++ cb ∷ [])) ≡ q ++ cb ∷ []
  order-push cb =
      ap (λ xs. l.called ++ xs) (sym (append_assoc l.functors l.pending (cb ∷ [])))
      ∙ sym (append_assoc l.called (l.functors ++ l.pending) (cb ∷ []))
      ∙ ap (λ xs. xs ++ cb ∷ []) v.order

  pub pushed-Inv : (cb : ℕ) → Inv (record (push l cb) { owed = l.owed + 1 }) (q ++ cb ∷ [])
  unfolding push
  pushed-Inv cb = record {
    order = order-push cb;
    announced = λ _ _. omega arith;
    swapped_out = v.swapped_out;
    flagged = v.flagged;
    at_rest = v.at_rest;
  }

  pub woken-Inv : 0 < l.owed → Inv (wakeup (record l { owed = l.owed - 1 })) q
  woken-Inv h =
      let (n, e, lt) = wakeup_lem (record l { owed = l.owed - 1 }) in
      rw e (record {
        order = v.order;
        announced = λ _ _. omega arith;
        swapped_out = v.swapped_out;
        flagged = v.flagged;
        at_rest = v.at_rest;
      })

  handled-Inv : (cb : ℕ) → l.stage ≡ handling → Inv (push l cb) (q ++ cb ∷ [])
  unfolding push
  handled-Inv cb at = record {
    order = order-push cb;
    announced = λ h _. absurd (h at);
    swapped_out = v.swapped_out;
    flagged = v.flagged;
    at_rest = v.at_rest;
  }

  announced-Inv : (cb : ℕ) → Inv (wakeup (push l cb)) (q ++ cb ∷ [])
  unfolding push
  announced-Inv cb =
      let (n, e, lt) = wakeup_lem (push l cb) in
      rw e (record {
        order = order-push cb;
        announced = λ _ _. omega arith;
        swapped_out = v.swapped_out;
        flagged = v.flagged;
        at_rest = v.at_rest;
      })

  -- From a handler no wakeup is needed, the swap being still to come; from a functor it is given.
  pub queued-Inv :
      (cb : ℕ) → l.stage ≢ idle → l.stage ≢ polling → Inv (queue_in_loop true l cb) (q ++ cb ∷ [])
  unfolding queue_in_loop needs_wakeup
  queued-Inv cb not_idle not_polling = by_flag l.calling_pending refl
    where
      by_flag :
          (b : Bool)
          → l.calling_pending ≡ b
          → Inv (if b then wakeup (push l cb) else push l cb) (q ++ cb ∷ [])
      by_flag true e = announced-Inv cb
      by_flag false e = by_stage l.stage refl
        where
          by_stage : (s : Stage) → l.stage ≡ s → Inv (push l cb) (q ++ cb ∷ [])
          by_stage idle at = absurd (not_idle at)
          by_stage polling at = absurd (not_polling at)
          by_stage handling at = handled-Inv cb at
          by_stage calling at = absurd (false≢true (sym e ∙ v.flagged at))

  pub quitted-Inv : Inv (quit l) q
  unfolding quit
  quitted-Inv = record {
    order = v.order;
    announced = v.announced;
    swapped_out = v.swapped_out;
    flagged = v.flagged;
    at_rest = v.at_rest;
  }

  begun_now :
      l.stage ≡ idle → Inv (record l { looping = true; quit_asked = false; stage = polling }) q
  begun_now at = record {
    order = v.order;
    announced = λ _ waits. v.announced (λ h. cc) waits;
    swapped_out = λ _. v.swapped_out (λ h. cc);
    flagged = λ h. cc;
    at_rest = λ h. cc;
  }

  pub returned-Inv : l.stage ≡ polling → Inv (poll_returns l) q
  unfolding poll_returns
  returned-Inv at = record {
    order = v.order;
    announced = λ h _. absurd (h refl);
    swapped_out = λ _. v.swapped_out (λ h. cc);
    flagged = λ h. cc;
    at_rest = λ h. cc;
  }

  pub read-Inv : l.stage ≡ handling → Inv (handle_read l) q
  unfolding handle_read
  read-Inv at = record {
    order = v.order;
    announced = λ h _. absurd (h at);
    swapped_out = v.swapped_out;
    flagged = v.flagged;
    at_rest = v.at_rest;
  }

  pub swapped-Inv : l.stage ≡ handling → Inv (swap_pending l) q
  unfolding swap_pending
  swapped-Inv at = record {
    order =
        ap (λ xs. l.called ++ xs)
          (append-nil l.pending ∙ ap (λ xs. xs ++ l.pending) (sym (v.swapped_out (λ h. cc))))
        ∙ v.order;
    announced = λ _ waits. absurd (waits refl);
    swapped_out = λ h. absurd (h refl);
    flagged = λ _. refl;
    at_rest = λ h. cc;
  }

  pub ran-Inv :
      (f : ℕ) (fs : List ℕ) → l.stage ≡ calling → l.functors ≡ f ∷ fs → Inv (call_next l f fs) q
  unfolding call_next
  ran-Inv f fs at some_left = record {
    order =
        append_assoc l.called (f ∷ []) (fs ++ l.pending)
        ∙ ap (λ xs. l.called ++ (xs ++ l.pending)) (sym some_left)
        ∙ v.order;
    announced = v.announced;
    swapped_out = λ h. absurd (h at);
    flagged = v.flagged;
    at_rest = v.at_rest;
  }

  turned_now :
      (stage : Stage) (looping : Bool)
      → l.stage ≡ calling
      → l.functors ≡ []
      → stage ≢ calling
      → (stage ≡ idle → looping ≡ false)
      → Inv (record l { stage = stage; calling_pending = false; looping = looping }) q
  turned_now stage looping at none_left ne rests = record {
    order = v.order;
    announced = λ _ waits. v.announced (λ h. cc) waits;
    swapped_out = λ _. none_left;
    flagged = λ h. absurd (ne h);
    at_rest = rests;
  }

  pub turned-Inv : l.stage ≡ calling → l.functors ≡ [] → Inv (next_turn l) q
  unfolding next_turn
  turned-Inv at none_left = by_quit l.quit_asked
    where
      by_quit :
          (b : Bool)
          → Inv
              (if b
                then record l { stage = idle; calling_pending = false; looping = false }
                else record l { stage = polling; calling_pending = false })
              q
      by_quit true = turned_now idle false at none_left (λ h. cc) (λ _. refl)
      by_quit false = turned_now polling l.looping at none_left (λ h. cc) (λ h. cc)

first : {x y : EventLoop} → ok x ≡ ok y → x ≡ y
first e = cc

-- A loop that is not in `loop()` can enter it: the assertion holds.
pub begin_loop-idle :
    {l : EventLoop} {q : List ℕ}
    → Inv l q
    → l.stage ≡ idle
    → begin_loop l ≡ ok (record l { looping = true; quit_asked = false; stage = polling })
unfolding begin_loop
begin_loop-idle {l} v at = begins (v.at_rest at)
  where
    begins :
        l.looping ≡ false
        → begin_loop l ≡ ok (record l { looping = true; quit_asked = false; stage = polling })
    begins h = ground arith

pub begun-Inv :
    {l l' : EventLoop} {q : List ℕ} → Inv l q → l.stage ≡ idle → begin_loop l ≡ ok l' → Inv l' q
begun-Inv {q = q} v at e =
    subst (λ x. Inv x q) (first (sym (begin_loop-idle v at) ∙ e)) (begun_now v at)

pub Reachable-Inv : {l : EventLoop} {q : List ℕ} → Reachable l q → Inv l q
unfolding new
Reachable-Inv created = record {
  order = refl;
  announced = λ _ waits. absurd (waits refl);
  swapped_out = λ _. refl;
  flagged = λ h. cc;
  at_rest = λ _. refl;
}
Reachable-Inv (pushed cb r) = pushed-Inv (Reachable-Inv r) cb
Reachable-Inv (woken r h) = woken-Inv (Reachable-Inv r) h
Reachable-Inv (queued cb r h k) = queued-Inv (Reachable-Inv r) cb h k
Reachable-Inv (quitted r) = quitted-Inv (Reachable-Inv r)
Reachable-Inv (begun r at e) = begun-Inv (Reachable-Inv r) at e
Reachable-Inv (returned r at) = returned-Inv (Reachable-Inv r) at
Reachable-Inv (read r at) = read-Inv (Reachable-Inv r) at
Reachable-Inv (swapped r at) = swapped-Inv (Reachable-Inv r) at
Reachable-Inv (ran f fs r at e) = ran-Inv (Reachable-Inv r) f fs at e
Reachable-Inv (turned r at e) = turned-Inv (Reachable-Inv r) at e
