-- ===== src/Connector.antt =====
-- net/Connector.h and net/Connector.cpp: the state machine that dials a server. What `socket`,
-- `connect`, the error of the socket and the comparison of its two addresses say is a parameter;
-- what the connector does to the outside is a list of effects, in order. `close` succeeds; a
-- message of `LOG_SYSERR` aborts.
pub mod System
pub mod Invariant
pub mod Steps
pub mod Protocol
pub mod Backoff
mod Examples
use cly_server.Base.{
  ℕ, ◌+◌, ◌*◌, Bool, true, false, not, ◌&&◌, ◌||◌, Option, none, some, List, [], ◌∷◌, ◌++◌, ◌==◌,
  min, if◌then◌else◌, Result, ok, fault, aborted, null_pointer, assert, ◌>>=◌, ◌>>◌,
}

pub data State : Type 0 where
  disconnected connecting connected : State

-- `channel_`: its descriptor, and whether it asks to be told that it can be written, which is all
-- that its mask may hold.
pub record Channel : Type 0 where
  pub fd : ℕ
  pub writing : Bool

pub record Connector : Type 0 where
  pub connect : Bool
  pub state : State
  pub channel : Option Channel
  pub retry_delay_ms : ℕ

-- What the connector binds to be called by the loop.
pub data Functor : Type 0 where
  start_in_loop stop_in_loop reset_channel : Functor

pub data Effect : Type 0 where
  opened : ℕ → Effect
  closed : ℕ → Effect
  new_connection : ℕ → Effect
  queue_in_loop : Functor → Effect
  run_after : ℕ → Effect
  update_channel : ℕ → Bool → Effect
  remove_channel : ℕ → Effect

abbrev pub max_retry_delay_ms : ℕ
max_retry_delay_ms = 30 * 1000

abbrev pub init_retry_delay_ms : ℕ
init_retry_delay_ms = 500

abbrev pub Outcome : Type 0
Outcome = Result (Connector × List Effect)

unfoldable pub new : Connector
new = record {
  connect = false;
  state = disconnected;
  channel = none;
  retry_delay_ms = init_retry_delay_ms;
}

unfoldable pub is_connecting : State → Bool
is_connecting connecting = true
is_connecting _ = false

unfoldable pub is_disconnected : State → Bool
is_disconnected disconnected = true
is_disconnected _ = false

-- What a dial meets: the descriptor, if `socket` gives one, and the error number of `connect`, 0 if
-- it succeeds at once.
pub record Dial : Type 0 where
  pub socket : Option ℕ
  pub errno : ℕ

-- The `switch` on the error number.
pub data Attempt : Type 0 where
  going again broken : Attempt

-- 0, EINPROGRESS, EINTR, EISCONN; then EAGAIN, EADDRINUSE, EADDRNOTAVAIL, ECONNREFUSED, ENETUNREACH.
unfoldable pub classify : ℕ → Attempt
classify errno =
    if errno == 0 || errno == 115 || errno == 4 || errno == 106
    then going
    else if errno == 11 || errno == 98 || errno == 99 || errno == 111 || errno == 101
    then again
    else broken

unfoldable pub retry : Connector → ℕ → Connector × List Effect
retry c sockfd =
    if c.connect
    then (
      record c {
        state = disconnected;
        retry_delay_ms = min (c.retry_delay_ms * 2) max_retry_delay_ms;
      },
      closed sockfd ∷ run_after c.retry_delay_ms ∷ [],
    )
    else (record c { state = disconnected }, closed sockfd ∷ [])

unfoldable pub is_null : Option Channel → Bool
is_null none = true
is_null (some channel) = false

unfoldable pub connecting_on : Connector → ℕ → Outcome
connecting_on c sockfd = do
  assert (is_null c.channel)
  ok (
    record c { state = connecting; channel = some (record { fd = sockfd; writing = true }) },
    update_channel sockfd true ∷ [],
  )

-- What `connect` does with a socket, by the case of the error number.
unfoldable pub attempt : Connector → ℕ → Attempt → Outcome
attempt c sockfd going = connecting_on c sockfd
attempt c sockfd again = ok (retry c sockfd)
attempt c sockfd broken = fault aborted

unfoldable pub connect_with : Connector → Option ℕ → Attempt → Outcome
connect_with c none a = fault aborted
connect_with c (some sockfd) a = attempt c sockfd a >>= λ r. ok (r.0, opened sockfd ∷ r.1)

unfoldable pub connect_to : Connector → Dial → Outcome
connect_to c dial = connect_with c dial.socket (classify dial.errno)

unfoldable pub start_in_loop_of : Connector → Dial → Outcome
start_in_loop_of c dial =
    let dialled = connect_to c dial in
    assert (is_disconnected c.state) >> (if c.connect then dialled else ok (c, []))

-- `start`, up to `runInLoop`.
unfoldable pub start : Connector → Connector
start c = record c { connect = true }

unfoldable pub stop : Connector → Connector × List Effect
stop c = (record c { connect = false }, queue_in_loop stop_in_loop ∷ [])

unfoldable pub restart : Connector → Dial → Outcome
restart c dial =
    start_in_loop_of
      (record c { state = disconnected; retry_delay_ms = init_retry_delay_ms; connect = true }) dial

-- `removeAndResetChannel`, with the descriptor that it returns.
unfoldable pub remove_and_reset_channel : Connector → Result (Connector × ℕ × List Effect)
remove_and_reset_channel c = elim c.channel [
  | none ↦ fault null_pointer
  | some channel ↦ ok (
    record c { channel = some (record channel { writing = false }) },
    channel.fd,
    update_channel channel.fd false ∷ remove_channel channel.fd ∷ queue_in_loop reset_channel ∷ [],
  )
]

unfoldable pub reset : Connector → Connector
reset c = record c { channel = none }

-- `retry` behind `removeAndResetChannel`.
unfoldable pub give_up : Connector × ℕ × List Effect → Connector × List Effect
give_up (c, sockfd, es) = let (c', es') = retry c sockfd in (c', es ++ es')

unfoldable pub stop_in_loop_of : Connector → Outcome
stop_in_loop_of c =
    let stopped = remove_and_reset_channel (record c { state = disconnected }) in
    if is_connecting c.state then (stopped >>= λ r. ok (give_up r)) else ok (c, [])

-- The socket is connected: it is handed over, or closed if `stop` was called meanwhile.
unfoldable pub finish : Connector × ℕ × List Effect → Connector × List Effect
finish (c, sockfd, es) = (
  record c { state = connected },
  es ++ (if c.connect then new_connection sockfd else closed sockfd) ∷ [],
)

-- `err` is the error of the socket; it may be connected to itself.
unfoldable pub handle_write : Connector → ℕ → Bool → Outcome
handle_write c err self_connect =
    let removed = remove_and_reset_channel c in
    let done =
      removed >>= λ r. ok (if not (err == 0) || self_connect then give_up r else finish r) in
    if is_connecting c.state then done else assert (is_disconnected c.state) >> ok (c, [])

unfoldable pub handle_error : Connector → Outcome
handle_error c =
    let removed = remove_and_reset_channel c in
    if is_connecting c.state then (removed >>= λ r. ok (give_up r)) else ok (c, [])

-- The destructor.
unfoldable pub destroy : Connector → Result (Unit {0})
destroy c = assert (is_null c.channel)
