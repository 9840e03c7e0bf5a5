-- ===== src/Connector/Invariant.antt =====
-- The modes of a net/Connector.cpp connector and of what waits for it.
use cly_server.Base.{
  ℕ, ◌+◌, ◌*◌, ◌≤◌, ◌≡◌, refl, ap, ap₂, Bool, true, false, Option, none, some, List, [], ◌∷◌, ◌++◌,
  inl, inr, ◌==◌, min, if◌then◌else◌, Result, ok, ◌>>=◌, arith, ==_iff,
}
use cly_server.Connector.{
  Connector, State, disconnected, connecting, connected, Channel, Functor, start_in_loop,
  stop_in_loop, reset_channel, Effect, opened, closed, new_connection, max_retry_delay_ms,
  init_retry_delay_ms, Outcome, Dial, attempt, connect_with, connect_to, connecting_on, retry,
  is_null, is_disconnected, start_in_loop_of, remove_and_reset_channel, give_up,
}
use cly_server.Connector.System.{System, note, note_all, with_connector, resets, start_calls, Dials}

abbrev pub at : Bool → State → Option Channel → ℕ → List Functor → ℕ → System
at connect state channel delay pending timers = record {
  connector = record {
    connect = connect;
    state = state;
    channel = channel;
    retry_delay_ms = delay;
  };
  pending = pending;
  timers = timers;
}

abbrev pub Delay : ℕ → Type 0
Delay d = (init_retry_delay_ms ≤ d) × (d ≤ max_retry_delay_ms)

abbrev pub channel_on : ℕ → Bool → Option Channel
channel_on fd writing = some (record { fd = fd; writing = writing })

-- A connector is down and clear, dials, has failed and waits for its channel to be reset, is
-- connected and waits for it, or is connected and clear. At most one call of `startInLoop` waits,
-- and none while it dials or is connected.
pub data Inv : System → Type 0 where
  quiet :
      (b : Bool) (d : ℕ) (fs : List Functor) (n : ℕ)
      → n + start_calls fs ≤ 1
      → resets fs ≡ 0
      → Delay d
      → Inv (at b disconnected none d fs n)
  dialling :
      (b : Bool) (fd d : ℕ) (fs : List Functor)
      → start_calls fs ≡ 0
      → resets fs ≡ 0
      → Delay d
      → Inv (at b connecting (channel_on fd true) d fs 0)
  fading :
      (b : Bool) (fd d : ℕ) (fs : List Functor) (n : ℕ)
      → n ≤ 1
      → start_calls fs ≡ 0
      → resets fs ≡ 1
      → Delay d
      → Inv (at b disconnected (channel_on fd false) d fs n)
  linked :
      (b : Bool) (fd d : ℕ) (fs : List Functor)
      → start_calls fs ≡ 0
      → resets fs ≡ 1
      → Delay d
      → Inv (at b connected (channel_on fd false) d fs 0)
  settled :
      (b : Bool) (d : ℕ) (fs : List Functor)
      → start_calls fs ≡ 0
      → resets fs ≡ 0
      → Delay d
      → Inv (at b connected none d fs 0)

-- The socket that a connector has opened, and neither closed nor handed over.
abbrev pub next_held : Option ℕ → Effect → Option (Option ℕ)
next_held none (opened fd) = some (some fd)
next_held (some fd) (closed fd') = if fd == fd' then some none else none
next_held (some fd) (new_connection fd') = if fd == fd' then some none else none
next_held (some fd) (opened fd') = none
next_held none (closed fd') = none
next_held none (new_connection fd') = none
next_held o _ = some o

abbrev pub next_of : Option (Option ℕ) → Effect → Option (Option ℕ)
next_of none e = none
next_of (some o) e = next_held o e

unfoldable pub held : Option (Option ℕ) → List Effect → Option (Option ℕ)
held o [] = o
held o (e ∷ es) = held (next_of o e) es

abbrev pub socket_of : State → Option Channel → Option ℕ
socket_of connecting (some channel) = some channel.fd
socket_of _ _ = none

abbrev pub socket : System → Option ℕ
socket s = socket_of s.connector.state s.connector.channel

-- A call that succeeds, keeps the invariant and accounts for every socket.
abbrev pub Steps : System → Result (System × List Effect) → Type 0
Steps s r =
    (s' : System) × (es : List Effect) × (r ≡ ok (s', es))
    × Inv s'
    × (held (some (socket s)) es ≡ some (socket s'))

-- The same of a function of the connector, in the system that it is called in.
abbrev pub Goes : System → Outcome → Type 0
Goes s r =
    (c : Connector) × (es : List Effect) × (r ≡ ok (c, es))
    × Inv (with_connector s (c, es)).0
    × (held (some (socket s)) es ≡ some (socket (with_connector s (c, es)).0))

pub Goes-Steps :
    (s : System) {r : Outcome} → Goes s r → Steps s (r >>= λ x. ok (with_connector s x))
unfolding with_connector
Goes-Steps s (c, es, e, v, h) = (_, es, ap (λ r. r >>= λ x. ok (with_connector s x)) e, v, h)

pub doubled : (d : ℕ) → Delay d → Delay (min (d * 2) max_retry_delay_ms)
doubled d (lo, hi) = (omega arith, omega arith)

pub same_fd : (fd : ℕ) → (fd == fd) ≡ true
same_fd fd = (==_iff fd fd).1 refl

pub start_calls-append :
    (fs : List Functor) (f : Functor)
    → start_calls (fs ++ f ∷ []) ≡ start_calls fs + start_calls (f ∷ [])
start_calls-append [] f = omega arith
start_calls-append (start_in_loop ∷ fs) f = omega (arith, start_calls-append fs f)
start_calls-append (stop_in_loop ∷ fs) f = start_calls-append fs f
start_calls-append (reset_channel ∷ fs) f = start_calls-append fs f

pub resets-append :
    (fs : List Functor) (f : Functor) → resets (fs ++ f ∷ []) ≡ resets fs + resets (f ∷ [])
resets-append [] f = omega arith
resets-append (start_in_loop ∷ fs) f = resets-append fs f
resets-append (stop_in_loop ∷ fs) f = resets-append fs f
resets-append (reset_channel ∷ fs) f = omega (arith, resets-append fs f)

-- `startInLoop` where nothing is under way.
pub started :
    (b : Bool) (d : ℕ) (fs : List Functor)
    → start_calls fs ≡ 0
    → resets fs ≡ 0
    → Delay d
    → (dial : Dial) → Dials dial
    → Goes
        (at b disconnected none d fs 0)
        (start_in_loop_of (at b disconnected none d fs 0).connector dial)
unfolding start_in_loop_of connect_to connect_with attempt connecting_on retry is_null
    is_disconnected with_connector note note_all held
started false d fs st rs v dial ok_dial = (_, [], refl, quiet false d fs 0 (omega arith) rs v, refl)
started true d fs st rs v dial (fd, e, inl goes) = (
  _,
  _,
  ap₂ (λ o a. connect_with (at true disconnected none d fs 0).connector o a) e goes,
  dialling true fd d fs st rs v,
  refl,
)
started true d fs st rs v dial (fd, e, inr fails) = (
  _,
  _,
  ap₂ (λ o a. connect_with (at true disconnected none d fs 0).connector o a) e fails,
  quiet true (min (d * 2) max_retry_delay_ms) fs 1 (omega arith) rs (doubled d v),
  rw (same_fd fd),
)

-- What follows `removeAndResetChannel` where the connector dials: it gives the socket up.
pub gives_up :
    (b : Bool) (fd d : ℕ) (fs : List Functor)
    → start_calls fs ≡ 0
    → resets fs ≡ 0
    → Delay d
    → (st : State)
    → Goes (at b connecting (channel_on fd true) d fs 0) (
        remove_and_reset_channel (at b st (channel_on fd true) d fs 0).connector >>= λ r.
        ok (give_up r))
unfolding remove_and_reset_channel give_up retry with_connector note note_all held
gives_up true fd d fs st rs v state = (
  _,
  _,
  refl,
  fading true fd (min (d * 2) max_retry_delay_ms) (fs ++ reset_channel ∷ []) 1 (omega arith)
      (omega (arith, start_calls-append fs reset_channel))
      (omega (arith, resets-append fs reset_channel)) (doubled d v),
  rw (same_fd fd),
)
gives_up false fd d fs st rs v state = (
  _,
  _,
  refl,
  fading false fd d (fs ++ reset_channel ∷ []) 0 (omega arith)
      (omega (arith, start_calls-append fs reset_channel))
      (omega (arith, resets-append fs reset_channel)) v,
  rw (same_fd fd),
)
