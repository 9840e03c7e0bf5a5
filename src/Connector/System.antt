-- ===== src/Connector/System.antt =====
-- A net/Connector.cpp connector with its loop: the functors that wait, the timers that are set, and
-- every call that may come next.
use cly_server.Base.{
  ℕ, zero, suc, ◌≡◌, Bool, true, none, some, List, [], ◌∷◌, ◌++◌, ◌⊎◌, Result, ok, ◌>>=◌,
}
use cly_server.Connector.{
  Connector, disconnected, connected, Channel, Functor, start_in_loop, stop_in_loop, reset_channel,
  Effect, queue_in_loop, run_after, Dial, going, again, classify, new, start, stop, restart, reset,
  start_in_loop_of, stop_in_loop_of, handle_write, handle_error,
}

pub record System : Type 0 where
  pub connector : Connector
  -- The functors that wait in the loop, the next first.
  pub pending : List Functor
  -- How many timers are set that call `startInLoop`.
  pub timers : ℕ

unfoldable pub idle : System
idle = record { connector = new; pending = []; timers = 0 }

-- What an effect leaves with the loop.
unfoldable pub note : Effect → System → System
note (queue_in_loop f) s = record s { pending = s.pending ++ f ∷ [] }
note (run_after ms) s = record s { timers = suc s.timers }
note _ s = s

unfoldable pub note_all : List Effect → System → System
note_all [] s = s
note_all (e ∷ es) s = note_all es (note e s)

-- The calls of the owner, from the loop's thread or from another one, and those of the loop.
pub data Event : Type 0 where
  starts : Dial → Event
  starts_elsewhere : Event
  stops : Event
  restarts : Dial → Event
  runs : Dial → Event
  fires : Dial → Event
  writable : ℕ → Bool → Event
  in_error : Event

unfoldable pub with_connector : System → Connector × List Effect → System × List Effect
with_connector s (c, es) = (note_all es (record s { connector = c }), es)

unfoldable pub run : Connector → Functor → Dial → Result (Connector × List Effect)
run c start_in_loop dial = start_in_loop_of c dial
run c stop_in_loop dial = stop_in_loop_of c
run c reset_channel dial = ok (reset c, [])

-- The loop has nothing to run, or runs the functor that waits longest.
unfoldable pub run_next : System → List Functor → Dial → Result (System × List Effect)
run_next s [] dial = ok (s, [])
run_next s (f ∷ fs) dial =
    run s.connector f dial >>= λ r. ok (with_connector (record s { pending = fs }) r)

unfoldable pub fire : System → ℕ → Dial → Result (System × List Effect)
fire s zero dial = ok (s, [])
fire s (suc n) dial =
    start_in_loop_of s.connector dial >>= λ r. ok (with_connector (record s { timers = n }) r)

unfoldable pub step : System → Event → Result (System × List Effect)
step s (starts dial) = start_in_loop_of (start s.connector) dial >>= λ r. ok (with_connector s r)
step s starts_elsewhere =
    ok (with_connector s (start s.connector, queue_in_loop start_in_loop ∷ []))
step s stops = ok (with_connector s (stop s.connector))
step s (restarts dial) = restart s.connector dial >>= λ r. ok (with_connector s r)
step s (runs dial) = run_next s s.pending dial
step s (fires dial) = fire s s.timers dial
step s (writable err self_connect) =
    handle_write s.connector err self_connect >>= λ r. ok (with_connector s r)
step s in_error = handle_error s.connector >>= λ r. ok (with_connector s r)

-- How many calls of one kind wait.
abbrev pub resets : List Functor → ℕ
resets [] = 0
resets (reset_channel ∷ fs) = suc (resets fs)
resets (_ ∷ fs) = resets fs

abbrev pub start_calls : List Functor → ℕ
start_calls [] = 0
start_calls (start_in_loop ∷ fs) = suc (start_calls fs)
start_calls (_ ∷ fs) = start_calls fs

-- A dial that does not abort the process.
abbrev pub Dials : Dial → Type 0
Dials dial =
    (fd : ℕ) × (dial.socket ≡ some fd)
    × ((classify dial.errno ≡ going) ⊎ (classify dial.errno ≡ again))

-- Nothing is under way: no channel, and neither a timer nor a start that waits.
pub record Idle (s : System) : Type 0 where
  pub down : s.connector.state ≡ disconnected
  pub no_channel : s.connector.channel ≡ none
  pub no_timer : s.timers ≡ 0
  pub no_start : start_calls s.pending ≡ 0

-- What is asked of the callers. `start` is for a connector that is idle, `restart` for one that is
-- connected and whose channel is reset; a timer, set for half a second at least, fires after the
-- functors that waited when it was set; the loop calls the handlers of a channel that asks for it.
abbrev pub Admissible : System → Event → Type 0
Admissible s (starts dial) = Dials dial × Idle s
Admissible s starts_elsewhere = Idle s
Admissible s stops = Unit {0}
Admissible s (restarts dial) =
    Dials dial × (s.connector.state ≡ connected) × (s.connector.channel ≡ none)
Admissible s (runs dial) = Dials dial
Admissible s (fires dial) = Dials dial × (resets s.pending ≡ 0)
Admissible s (writable err self_connect) =
    (channel : Channel) × (s.connector.channel ≡ some channel) × (channel.writing ≡ true)
Admissible s in_error =
    (channel : Channel) × (s.connector.channel ≡ some channel) × (channel.writing ≡ true)

-- The connectors that come about, with all their effects.
pub data Reachable : System → List Effect → Type 0 where
  begun : Reachable idle []
  stepped :
      {s s' : System} {es es' : List Effect} (event : Event)
      → Reachable s es
      → Admissible s event
      → step s event ≡ ok (s', es')
      → Reachable s' (es ++ es')
