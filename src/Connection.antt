-- ===== src/Connection.antt =====
-- net/TcpConnection.h and net/TcpConnection.cpp: one connection, as its loop's thread drives it.
-- `runInLoop` runs its argument at once there. What the connection does to the outside is a list of
-- effects, in order. A callback is called last in its function, or before a call that changes
-- nothing of the connection, so what it calls in turn are the next operations; `handleClose` calls
-- two, and what the first calls comes behind the second here.
pub mod Trace
pub mod Calls
pub mod Closing
pub mod Handlers
pub mod Protocol
pub mod Dispatch
mod Examples
use cly_server.Base.{
  ℕ, ◌+◌, ◌-◌, Bool, true, false, not, ◌&&◌, ◌||◌, Option, none, some, List, [], ◌∷◌, ◌++◌, ltb,
  leb, ◌==◌, if◌then◌else◌, length, take, Result, ok, fault, aborted, out_of_range, assert, ◌>>=◌,
  ◌>>◌,
}
use cly_server.Buffer.{
  Buffer, Received, got, contents, readable_bytes, retrieve, retrieve_all, read_fd,
}
use cly_server.Buffer
use cly_server.Poller.Events.{Mask, none_event, is_none}

pub data State : Type 0 where
  disconnected connecting connected disconnecting : State

pub record Connection : Type 0 where
  pub state : State
  pub reading : Bool
  -- The mask of the channel.
  pub events : Mask
  -- Whether the poller has the channel, at the index that the channel holds.
  pub registered : Bool
  pub input : Buffer
  pub output : Buffer
  -- Whether `writeCompleteCallback_` is set.
  pub tells_complete : Bool

pub data Effect : Type 0 where
  connection_callback : Bool → Effect
  message_callback : Effect
  write_complete_callback : Effect
  close_callback : Effect
  wrote : List ℕ → Effect
  shutdown_write : Effect
  queue_force_close : Effect
  remove_channel : Effect

-- What write(2) answers: how many bytes the socket took, or an error number.
pub data Written : Type 0 where
  took : ℕ → Written
  refused : ℕ → Written

abbrev pub ewouldblock : ℕ
ewouldblock = 11

abbrev pub Outcome : Type 0
Outcome = Result (Connection × List Effect)

unfoldable pub new : Bool → Connection
new tells_complete = record {
  state = connecting;
  reading = true;
  events = none_event;
  registered = false;
  input = Buffer.new Buffer.initial_size;
  output = Buffer.new Buffer.initial_size;
  tells_complete = tells_complete;
}

unfoldable pub is_connected : State → Bool
is_connected connected = true
is_connected _ = false

unfoldable pub is_connecting : State → Bool
is_connecting connecting = true
is_connecting _ = false

unfoldable pub is_disconnected : State → Bool
is_disconnected disconnected = true
is_disconnected _ = false

unfoldable pub is_disconnecting : State → Bool
is_disconnecting disconnecting = true
is_disconnecting _ = false

-- `state_ == kConnected || state_ == kDisconnecting`.
unfoldable pub is_open : State → Bool
is_open s = is_connected s || is_disconnecting s

-- `Channel::update` of a channel that was registered before. Once it is removed its index is stale,
-- and the poller writes to the entry of another channel or past the end.
unfoldable pub update_mask : Connection → Mask → Result Connection
update_mask c events =
    if c.registered then ok (record c { events = events }) else fault out_of_range

unfoldable pub connect_established : Connection → Outcome
connect_established c = do
  assert (is_connecting c.state)
  ok (
    record c { state = connected; events = record c.events { pollin = true }; registered = true },
    connection_callback true ∷ [],
  )

-- `Channel::remove`, whose poller looks the entry up by the index.
unfoldable pub connect_destroyed : Connection → Outcome
connect_destroyed c =
    if c.registered
    then ok (record c { registered = false }, remove_channel ∷ [])
    else fault out_of_range

-- The direct write of `sendInLoop`. Another error than EWOULDBLOCK is logged by `LOG_SYSERR`, which
-- aborts.
unfoldable pub write_directly : Connection → List ℕ → Written → Outcome
write_directly c message (took n) = ok (
  c,
  wrote (take n message)
      ∷ (if (length message - n == 0) && c.tells_complete
          then write_complete_callback ∷ []
          else []),
)
write_directly c message (refused errno) =
    if errno == ewouldblock then ok (c, []) else fault aborted

unfoldable pub send_in_loop : Connection → List ℕ → Written → Outcome
send_in_loop c message written =
    if is_disconnected c.state
    then ok (c, [])
    else if not c.events.pollout && (readable_bytes c.output == 0)
    then write_directly c message written
    else ok (c, [])

unfoldable pub send : Connection → List ℕ → Written → Outcome
send c message written = if is_connected c.state then send_in_loop c message written else ok (c, [])

-- `send(Buffer*)`, which empties the buffer if the connection is up.
unfoldable pub send_buffer :
    Connection → Buffer → Written → Result (Connection × List Effect × Buffer)
send_buffer c buf written =
    let sent = send_in_loop c (contents buf) written in
    if is_connected c.state
    then (sent >>= λ r. ok (r.0, r.1, retrieve_all buf))
    else ok (c, [], buf)

unfoldable pub shutdown_in_loop : Connection → List Effect
shutdown_in_loop c = if not c.events.pollout then shutdown_write ∷ [] else []

unfoldable pub shutdown : Connection → Outcome
shutdown c =
    if is_connected c.state
    then ok
        (record c { state = disconnecting }, shutdown_in_loop (record c { state = disconnecting }))
    else ok (c, [])

unfoldable pub force_close : Connection → Outcome
force_close c =
    if is_open c.state
    then ok (record c { state = disconnecting }, queue_force_close ∷ [])
    else ok (c, [])

unfoldable pub handle_close : Connection → Outcome
handle_close c = do
  assert (is_open c.state)
  c' ← update_mask (record c { state = disconnected }) none_event
  ok (c', connection_callback false ∷ close_callback ∷ [])

unfoldable pub force_close_in_loop : Connection → Outcome
force_close_in_loop c =
    let closed = handle_close c in if is_open c.state then closed else ok (c, [])

unfoldable pub start_read : Connection → Outcome
start_read c =
    if not c.reading || not c.events.pollin
    then (update_mask c (record c.events { pollin = true }) >>= λ c'.
        ok (record c' { reading = true }, []))
    else ok (c, [])

unfoldable pub stop_read : Connection → Outcome
stop_read c =
    if c.reading || c.events.pollin
    then (update_mask c (record c.events { pollin = false }) >>= λ c'.
        ok (record c' { reading = false }, []))
    else ok (c, [])

-- What `handleRead` does once `readFd` has returned; an error is logged by `LOG_SYSERR`.
unfoldable pub after_read : Connection → Received × Buffer → Outcome
after_read c (got [], input) = handle_close (record c { input = input })
after_read c (got (x ∷ xs), input) = ok (record c { input = input }, message_callback ∷ [])
after_read c (Received.failed errno, input) = fault aborted

unfoldable pub handle_read : Connection → Received → Outcome
handle_read c received = read_fd c.input received >>= after_read c

-- What `handleWrite` does once `retrieve` has returned.
unfoldable pub after_write : Connection → ℕ → Buffer → Outcome
after_write c n output =
    let kept = record c { output = output } in
    let bytes = wrote (take n (contents c.output)) in
    if readable_bytes output == 0
    then (update_mask kept (record c.events { pollout = false }) >>= λ done. ok (
      done,
      bytes ∷ (if c.tells_complete then write_complete_callback ∷ [] else [])
          ++ (if is_disconnecting c.state then shutdown_in_loop done else []),
    ))
    else ok (kept, bytes ∷ [])

-- The body of `handleWrite` for a channel that waits to write.
unfoldable pub write_output : Connection → Written → Outcome
write_output c (took n) =
    let rest = retrieve c.output n >>= after_write c n in if ltb 0 n then rest else fault aborted
write_output c (refused errno) = fault aborted

unfoldable pub handle_write : Connection → Written → Outcome
handle_write c written =
    let out = write_output c written in if c.events.pollout then out else ok (c, [])

-- `handleError` only logs.
unfoldable pub handle_error : Connection → Outcome
handle_error c = ok (c, [])

-- As it is declared: with the test of `connected()`.
unfoldable pub is_down : Connection → Bool
is_down c = is_connected c.state
