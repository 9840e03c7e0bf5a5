-- ===== src/Connection/Examples.antt =====
-- A connection of net/TcpConnection.cpp that is established, used and closed.
use cly_server.Base.{◌≡◌, refl, true, false, some, List, [], ◌∷◌, ◌++◌, ok, arith}
use cly_server.Buffer.{Buffer, readable_bytes, got, writable_bytes, offered}
use cly_server.Buffer
use cly_server.Poller.Events.{Mask, none_event, is_none}
use cly_server.Connection.{
  Connection, connected, disconnected, Effect, connection_callback, close_callback, took, new,
  is_connecting, is_connected, is_disconnecting, is_open, connect_established, update_mask,
  handle_close, shutdown,
}
use cly_server.Connection.Trace.{
  fresh, watch, phase_of, hung_up, step, Reachable, established, called, Sound,
}
use cly_server.Connection.Closing.{shuts-Steps}
use cly_server.Connection.Dispatch.{on_event, on_event-Sound}
use cly_server.Connection.Protocol.{watch-Reachable, step-Reachable}

abbrev reading : Mask
reading = record none_event { pollin = true }

abbrev begun : Connection
begun = record {
  state = connected;
  reading = true;
  events = reading;
  registered = true;
  input = Buffer.new Buffer.initial_size;
  output = Buffer.new Buffer.initial_size;
  tells_complete = true;
}

begun-Reachable : Reachable begun (connection_callback true ∷ [])
unfolding connect_established new is_connecting
begun-Reachable = established true refl

abbrev closed : Connection
closed = record begun { state = disconnected; events = none_event }

abbrev told : List Effect
told = connection_callback true ∷ connection_callback false ∷ close_callback ∷ []

closed-Reachable : Reachable closed told
unfolding step is_none handle_close update_mask is_open is_connected is_disconnecting
closed-Reachable = called hung_up begun-Reachable tt refl

watch-Reachable_example : Sound closed × (watch (some fresh) told ≡ some (phase_of disconnected))
watch-Reachable_example = watch-Reachable closed-Reachable

step-Reachable_example :
    (c' : Connection) × (es' : List Effect) × (step begun hung_up ≡ ok (c', es'))
    × Reachable c' ((connection_callback true ∷ []) ++ es')
step-Reachable_example = step-Reachable hung_up begun-Reachable tt

abbrev listening : Connection
listening = record closed { events = reading }

-- An end of file on a channel that can be written too, whose owner shuts down on each message.
abbrev both : Mask
both = record none_event { pollin = true; pollout = true }

on_event-Sound_example :
    (c' : Connection) × (es : List Effect) × (on_event shutdown begun both (got []) (took 0)
      ≡ ok (c', es))
    × Sound c'
    × (watch (some (phase_of connected)) es ≡ some (phase_of c'.state))
unfolding writable_bytes Buffer.new
on_event-Sound_example =
    on_event-Sound shutdown begun both [] (took 0) (λ c v here. shuts-Steps c v)
      (watch-Reachable begun-Reachable).0 (λ e. cc) refl refl refl (omega arith) (omega arith)
