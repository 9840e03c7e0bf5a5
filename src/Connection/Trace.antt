-- ===== src/Connection/Trace.antt =====
-- What the owner of a net/TcpConnection.cpp connection may see of it, and in which order.
use cly_server.Base.{
  ℕ, ◌+◌, ◌≤◌, ◌≡◌, ◌≢◌, ◌⊎◌, not, ◌||◌, Bool, true, false, Option, none, some, List, [], ◌∷◌, ◌++◌,
  if◌then◌else◌, length, ok,
}
use cly_server.Buffer.{Received, got, readable_bytes, offered, extra_size, max_size, retrieve_all}
use cly_server.Buffer.Invariant.{IsValid}
use cly_server.Poller.Events.{is_none}
use cly_server.Connection.{
  Connection, State, connected, connecting, disconnected, disconnecting, Effect,
  connection_callback, message_callback, write_complete_callback, close_callback, wrote,
  shutdown_write, queue_force_close, remove_channel, Written, refused, ewouldblock, Outcome, new,
  connect_established, connect_destroyed, send, shutdown, force_close, force_close_in_loop,
  handle_close, handle_read, handle_write, start_read, stop_read,
}

-- How far a connection is, as its effects tell.
pub data Phase : Type 0 where
  fresh up half closing down : Phase

-- What may come next. A connection comes up once; bytes go out only while it is up, and its writing
-- side is shut down once; it goes down once, and the close callback follows at once.
abbrev pub next : Phase → Effect → Option Phase
next fresh (connection_callback true) = some up
next up message_callback = some up
next up write_complete_callback = some up
next up (wrote bytes) = some up
next up shutdown_write = some half
next up queue_force_close = some half
next up (connection_callback false) = some closing
next half message_callback = some half
next half queue_force_close = some half
next half (connection_callback false) = some closing
next closing close_callback = some down
next phase remove_channel = some phase
next _ _ = none

abbrev pub next_of : Option Phase → Effect → Option Phase
next_of none e = none
next_of (some phase) e = next phase e

unfoldable pub watch : Option Phase → List Effect → Option Phase
watch o [] = o
watch o (e ∷ es) = watch (next_of o e) es

abbrev pub phase_of : State → Phase
phase_of connecting = fresh
phase_of connected = up
phase_of disconnecting = half
phase_of disconnected = down

-- The loop calls no handler of a channel that asks for no event or that it does not have.
abbrev pub is_unheard : Connection → Bool
is_unheard c = is_none c.events || not c.registered

-- The calls of a connection that is established: by its owner, by the message callback and by the
-- loop.
pub data Op : Type 0 where
  sends : List ℕ → Written → Op
  shuts : Op
  forces : Op
  forced : Op
  starts : Op
  stops : Op
  consumes : Op
  readable : Received → Op
  writable : Written → Op
  hung_up : Op
  destroyed : Op

unfoldable pub step : Connection → Op → Outcome
step c (sends message written) = send c message written
step c shuts = shutdown c
step c forces = force_close c
step c forced = force_close_in_loop c
step c starts = start_read c
step c stops = stop_read c
step c consumes = ok (record c { input = retrieve_all c.input }, [])
step c (readable received) =
    let out = handle_read c received in if is_unheard c then ok (c, []) else out
step c (writable written) =
    let out = handle_write c written in if is_unheard c then ok (c, []) else out
step c hung_up = let out = handle_close c in if is_unheard c then ok (c, []) else out
step c destroyed = connect_destroyed c

-- What a call may meet without the process being ended by it: no write fails but for lack of room,
-- no read fails, a read hands over no more than it was offered and memory is not exhausted. Reading
-- is not started again on a connection that is down. And nothing is asked of a channel that was
-- removed: it is removed once, and its mask is changed no more.
abbrev pub Admissible : Connection → Op → Type 0
Admissible c (sends message (refused errno)) = errno ≡ ewouldblock
Admissible c (readable (got input)) =
    (length input ≤ offered c.input) × (length c.input.bytes + extra_size ≤ max_size)
Admissible c (readable (Received.failed errno)) = ⊥
Admissible c starts =
    (c.state ≢ disconnected)
    × ((c.registered ≡ true) ⊎ ((not c.reading || not c.events.pollin) ≡ false))
Admissible c stops = (c.registered ≡ true) ⊎ ((c.reading || c.events.pollin) ≡ false)
Admissible c forced = (c.registered ≡ true) ⊎ (c.state ≡ disconnected)
Admissible c destroyed = c.registered ≡ true
Admissible c _ = Unit {0}

-- The connections that come about, with all their effects.
pub data Reachable : Connection → List Effect → Type 0 where
  established :
      {c : Connection} {es : List Effect} (tells_complete : Bool)
      → connect_established (new tells_complete) ≡ ok (c, es)
      → Reachable c es
  called :
      {c c' : Connection} {es es' : List Effect} (op : Op)
      → Reachable c es
      → Admissible c op
      → step c op ≡ ok (c', es')
      → Reachable c' (es ++ es')

-- What holds of them.
pub record Sound (c : Connection) : Type 0 where
  pub begun : c.state ≢ connecting
  pub deaf : c.state ≡ disconnected → is_none c.events ≡ true
  pub never_writing : c.events.pollout ≡ false
  pub nothing_kept : readable_bytes c.output ≡ 0
  pub valid : IsValid c.input
