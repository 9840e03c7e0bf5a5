-- ===== src/Connection/Closing.antt =====
-- The calls of net/TcpConnection.cpp that shut a connection down or close it.
use cly_server.Base.{◌≡◌, ◌≢◌, ◌⊎◌, inl, inr, refl, true, false, [], ◌∷◌, ok}
use cly_server.Poller.Events.{none_event, is_none}
use cly_server.Connection.{
  Connection, State, connected, connecting, disconnected, disconnecting, connection_callback,
  close_callback, shutdown_write, queue_force_close, is_connected, is_disconnecting, is_open,
  shutdown, shutdown_in_loop, update_mask, force_close, force_close_in_loop, handle_close,
}
use cly_server.Connection.Trace.{watch, Sound}
use cly_server.Connection.Calls.{Steps, stays}

shutdown-quiet : (c : Connection) → is_connected c.state ≡ false → shutdown c ≡ ok (c, [])
unfolding shutdown
shutdown-quiet c h = rw h

force_close-quiet : (c : Connection) → is_open c.state ≡ false → force_close c ≡ ok (c, [])
unfolding force_close
force_close-quiet c h = rw h

forced-quiet : (c : Connection) → is_open c.state ≡ false → force_close_in_loop c ≡ ok (c, [])
unfolding force_close_in_loop
forced-quiet c h = rw h

pub shutdown-up :
    (c : Connection)
    → is_connected c.state ≡ true
    → c.events.pollout ≡ false
    → shutdown c ≡ ok (record c { state = disconnecting }, shutdown_write ∷ [])
unfolding shutdown shutdown_in_loop
shutdown-up c h k = rw (h, k)

force_close-open :
    (c : Connection)
    → is_open c.state ≡ true
    → force_close c ≡ ok (record c { state = disconnecting }, queue_force_close ∷ [])
unfolding force_close
force_close-open c h = rw h

forced-open : (c : Connection) → is_open c.state ≡ true → force_close_in_loop c ≡ handle_close c
unfolding force_close_in_loop
forced-open c h = rw h

handle_close-open :
    (c : Connection)
    → is_open c.state ≡ true
    → c.registered ≡ true
    → handle_close c
      ≡ ok (
        record c { state = disconnected; events = none_event },
        connection_callback false ∷ close_callback ∷ [],
      )
unfolding handle_close update_mask
handle_close-open c h k = rw (h, k)

pub shuts-Steps : (c : Connection) → Sound c → Steps c (shutdown c)
unfolding watch is_connected
shuts-Steps c v = by_state c.state refl
  where
    by_state : (s : State) → c.state ≡ s → Steps c (shutdown c)
    by_state disconnected e = rw (shutdown-quiet c (rw e refl)) (stays c v)
    by_state connecting e = absurd (v.begun e)
    by_state disconnecting e = rw (shutdown-quiet c (rw e refl)) (stays c v)
    by_state connected e = (
      record c { state = disconnecting },
      shutdown_write ∷ [],
      shutdown-up c (rw e refl) v.never_writing,
      record {
        begun = λ h. cc;
        deaf = λ h. cc;
        never_writing = v.never_writing;
        nothing_kept = v.nothing_kept;
        valid = v.valid;
      },
      rw e,
    )

pub forces-Steps : (c : Connection) → Sound c → Steps c (force_close c)
unfolding watch is_connected is_disconnecting is_open
forces-Steps c v = by_state c.state refl
  where
    closing_soon : Sound (record c { state = disconnecting })
    closing_soon = record {
      begun = λ h. cc;
      deaf = λ h. cc;
      never_writing = v.never_writing;
      nothing_kept = v.nothing_kept;
      valid = v.valid;
    }

    by_state : (s : State) → c.state ≡ s → Steps c (force_close c)
    by_state disconnected e = rw (force_close-quiet c (rw e refl)) (stays c v)
    by_state connecting e = absurd (v.begun e)
    by_state disconnecting e = (
      record c { state = disconnecting },
      queue_force_close ∷ [],
      force_close-open c (rw e refl),
      closing_soon,
      rw e,
    )
    by_state connected e = (
      record c { state = disconnecting },
      queue_force_close ∷ [],
      force_close-open c (rw e refl),
      closing_soon,
      rw e,
    )

-- A connection that is not down closes with its two callbacks.
pub handle_close-Steps :
    (c : Connection)
    → Sound c
    → c.state ≢ disconnected
    → c.registered ≡ true
    → Steps c (handle_close c)
unfolding watch is_connected is_disconnecting is_open is_none
handle_close-Steps c v ne here = by_state c.state refl
  where
    closed : Sound (record c { state = disconnected; events = none_event })
    closed = record {
      begun = λ h. cc;
      deaf = λ h. refl;
      never_writing = refl;
      nothing_kept = v.nothing_kept;
      valid = v.valid;
    }

    by_state : (s : State) → c.state ≡ s → Steps c (handle_close c)
    by_state disconnected e = absurd (ne e)
    by_state connecting e = absurd (v.begun e)
    by_state disconnecting e = (
      record c { state = disconnected; events = none_event },
      connection_callback false ∷ close_callback ∷ [],
      handle_close-open c (rw e refl) here,
      closed,
      rw e,
    )
    by_state connected e = (
      record c { state = disconnected; events = none_event },
      connection_callback false ∷ close_callback ∷ [],
      handle_close-open c (rw e refl) here,
      closed,
      rw e,
    )

pub forced-Steps :
    (c : Connection)
    → Sound c
    → (c.registered ≡ true) ⊎ (c.state ≡ disconnected)
    → Steps c (force_close_in_loop c)
unfolding is_connected is_disconnecting is_open
forced-Steps c v here = by_state c.state refl
  where
    has_channel :
        (c.registered ≡ true) ⊎ (c.state ≡ disconnected)
        → c.state ≢ disconnected
        → c.registered ≡ true
    has_channel (inl h) ne = h
    has_channel (inr d) ne = absurd (ne d)

    by_state : (s : State) → c.state ≡ s → Steps c (force_close_in_loop c)
    by_state disconnected e = rw (forced-quiet c (rw e refl)) (stays c v)
    by_state connecting e = absurd (v.begun e)
    by_state disconnecting e =
        rw (forced-open c (rw e refl))
          (handle_close-Steps c v (λ h. cc) (has_channel here (λ h. cc)))
    by_state connected e =
        rw (forced-open c (rw e refl))
          (handle_close-Steps c v (λ h. cc) (has_channel here (λ h. cc)))
