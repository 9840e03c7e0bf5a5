-- ===== src/Connection/Calls.antt =====
-- Each call of net/TcpConnection.cpp on a connection that is sound.
use cly_server.Base.{
  ℕ, ◌-◌, ◌≡◌, ◌⊎◌, inl, inr, refl, ap, Bool, true, false, ◌&&◌, Option, some, List, [], ◌∷◌, ◌++◌,
  ◌==◌, if◌then◌else◌, length, take, ok, arith,
}
use cly_server.Connection.{
  Connection, State, connected, connecting, disconnected, disconnecting, Effect,
  write_complete_callback, wrote, Written, took, refused, ewouldblock, Outcome, is_connected,
  is_disconnected, send, send_in_loop, write_directly,
}
use cly_server.Connection.Trace.{Phase, up, next_of, watch, phase_of, sends, Admissible, Sound}

pub watch-append :
    (o : Option Phase) (xs ys : List Effect) → watch o (xs ++ ys) ≡ watch (watch o xs) ys
unfolding watch
watch-append o [] ys = refl
watch-append o (x ∷ xs) ys = watch-append (next_of o x) xs ys

-- What a call gives.
abbrev pub Steps : Connection → Outcome → Type 0
Steps c r =
    (c' : Connection) × (es : List Effect) × (r ≡ ok (c', es))
    × Sound c'
    × (watch (some (phase_of c.state)) es ≡ some (phase_of c'.state))

pub stays : (c : Connection) → Sound c → Steps c (ok (c, []))
unfolding watch
stays c v = (c, [], refl, v, refl)

-- The state of a connection that calls reach.
open_state :
    (c : Connection)
    → Sound c
    → (c.state ≡ connected) ⊎ ((c.state ≡ disconnecting) ⊎ (c.state ≡ disconnected))
open_state c v = by_state c.state refl
  where
    by_state :
        (s : State)
        → c.state ≡ s
        → (c.state ≡ connected) ⊎ ((c.state ≡ disconnecting) ⊎ (c.state ≡ disconnected))
    by_state disconnected e = inr (inr e)
    by_state connecting e = absurd (v.begun e)
    by_state connected e = inl e
    by_state disconnecting e = inr (inl e)

-- While the connection is up, `send` writes what the socket takes at once, and keeps nothing.
pub send-up :
    (c : Connection) (message : List ℕ) (n : ℕ)
    → Sound c
    → c.state ≡ connected
    → send c message (took n)
      ≡ ok (
        c,
        wrote (take n message)
            ∷ (if (length message - n == 0) && c.tells_complete
                then write_complete_callback ∷ []
                else []),
      )
unfolding send send_in_loop write_directly is_connected is_disconnected
send-up c message n v s = rw (s, v.never_writing, v.nothing_kept)

up_complete :
    (test : Bool) → watch (some up) (if test then write_complete_callback ∷ [] else []) ≡ some up
unfolding watch
up_complete true = refl
up_complete false = refl

-- A refused write, and any on a connection that is not up, changes nothing.
send-quiet :
    (c : Connection) (message : List ℕ) (written : Written)
    → (is_connected c.state ≡ false) ⊎ (written ≡ refused ewouldblock)
    → send c message written ≡ ok (c, [])
unfolding send send_in_loop write_directly
send-quiet c message (took n) h = ground arith
send-quiet c message (refused errno) h = ground arith

pub sends-Steps :
    (c : Connection) (message : List ℕ) (written : Written)
    → Sound c
    → Admissible c (sends message written)
    → Steps c (send c message written)
unfolding watch is_connected
sends-Steps c message (refused errno) v a =
    rw (send-quiet c message (refused errno) (inr (ap refused a))) (stays c v)
sends-Steps c message (took n) v a = by_state c.state refl
  where
    by_state : (s : State) → c.state ≡ s → Steps c (send c message (took n))
    by_state disconnected e = rw (send-quiet c message (took n) (inl (rw e refl))) (stays c v)
    by_state connecting e = absurd (v.begun e)
    by_state connected e = (
      c,
      wrote (take n message)
          ∷ (if (length message - n == 0) && c.tells_complete
              then write_complete_callback ∷ []
              else []),
      send-up c message n v e,
      v,
      rw e (up_complete ((length message - n == 0) && c.tells_complete)),
    )
    by_state disconnecting e = rw (send-quiet c message (took n) (inl (rw e refl))) (stays c v)
