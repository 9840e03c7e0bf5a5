-- ===== src/Connection/Dispatch.antt =====
-- One event of a channel of net/Channel.cpp, handed to the connection of net/TcpConnection.cpp that
-- owns it: the handlers that `handleEvent` calls one after another, and what the owner of the
-- connection does in its message callback.
use cly_server.Base.{
  ℕ, ◌+◌, ◌≤◌, ◌≡◌, ◌≢◌, refl, sym, ap, subst, ◌∙◌, Bool, true, false, not, ◌&&◌, ◌||◌, some, List,
  [], ◌∷◌, ◌++◌, length, ok, ◌>>=◌, arith, if◌then◌else◌,
}
use cly_server.Buffer.{Received, got, offered, extra_size, max_size}
use cly_server.Poller.Events.{
  Mask, Callback, Callbacks, close_callback, error_callback, read_callback, write_callback,
  handle_event,
}
use cly_server.Connection.{
  Connection, State, disconnected, Effect, connection_callback, message_callback,
  write_complete_callback, wrote, shutdown_write, queue_force_close, remove_channel, Written,
  Outcome, handle_close, handle_read, handle_write, handle_error,
}
use cly_server.Connection
use cly_server.Connection.Trace.{watch, phase_of, Sound}
use cly_server.Connection.Calls.{Steps, stays, watch-append}
use cly_server.Connection.Closing.{handle_close-Steps}
use cly_server.Connection.Handlers.{handle_read-registered, handle_read-Steps, handle_write-quiet}

-- The four callbacks that the constructor of TcpConnection sets.
abbrev pub all_set : Callbacks
all_set = record { close_set = true; error_set = true; read_set = true; write_set = true }

-- What the message callback calls comes behind it.
unfoldable pub respond_to : (Connection → Outcome) → Connection × List Effect → Outcome
respond_to respond (c, message_callback ∷ es) =
    respond c >>= λ r. ok (r.0, (message_callback ∷ es) ++ r.1)
respond_to respond (c, es) = ok (c, es)

unfoldable pub call_back :
    (Connection → Outcome) → Received → Written → Connection → Callback → Outcome
call_back respond received written c close_callback = handle_close c
call_back respond received written c error_callback = handle_error c
call_back respond received written c read_callback = handle_read c received >>= respond_to respond
call_back respond received written c write_callback = handle_write c written

-- The effects of one call, and then those of what follows.
unfoldable pub then_next : (Connection → Outcome) → Connection × List Effect → Outcome
then_next next (c, es) = next c >>= λ r. ok (r.0, es ++ r.1)

unfoldable pub dispatch :
    (Connection → Outcome) → Received → Written → Connection → List Callback → Outcome
dispatch respond received written c [] = ok (c, [])
dispatch respond received written c (k ∷ ks) =
    call_back respond received written c k
    >>= then_next (λ c'. dispatch respond received written c' ks)

unfoldable pub on_event : (Connection → Outcome) → Connection → Mask → Received → Written → Outcome
on_event respond c revents received written =
    dispatch respond received written c (handle_event all_set revents)

Steps-then :
    (c : Connection) {r : Outcome} (next : Connection → Outcome)
    → Steps c r
    → ((c' : Connection) → Sound c' → Steps c' (next c'))
    → Steps c (r >>= then_next next)
unfolding then_next
Steps-then c next (c', es, e, v, w) k =
    let (c'', es', e', v', w') = k c' v in
    (
      c'',
      es ++ es',
      ap (λ r. r >>= λ (x : Connection × List Effect). next x.0 >>= λ r. ok (r.0, x.1 ++ r.1)) e
          ∙ ap (λ r. r >>= λ (x : Connection × List Effect). ok (x.0, es ++ x.1)) e',
      v',
      watch-append (some (phase_of c.state)) es es' ∙ ap (λ o. watch o es') w ∙ w',
    )

-- The owner's message callback makes calls that it may make, so it keeps a connection sound.
abbrev pub Responds : (Connection → Outcome) → Type 0
Responds respond = (c : Connection) → Sound c → c.registered ≡ true → Steps c (respond c)

-- Where the message callback is called, the poller has the channel.
abbrev Called : Outcome → Type 0
Called r =
    (c : Connection) (es : List Effect) → r ≡ ok (c, message_callback ∷ es) → c.registered ≡ true

respond_to-Steps :
    (c : Connection) {r : Outcome} (respond : Connection → Outcome)
    → Steps c r
    → Called r
    → Responds respond
    → Steps c (r >>= respond_to respond)
unfolding respond_to
respond_to-Steps c {r} respond (c', es, e, v, w) called k = by_effects es e w
  where
    stop :
        (es : List Effect)
        → r ≡ ok (c', es)
        → watch (some (phase_of c.state)) es ≡ some (phase_of c'.state)
        → respond_to respond (c', es) ≡ ok (c', es)
        → Steps c (r >>= respond_to respond)
    stop es e w same = (c', es, ap (λ x. x >>= respond_to respond) e ∙ same, v, w)

    by_effects :
        (es : List Effect)
        → r ≡ ok (c', es)
        → watch (some (phase_of c.state)) es ≡ some (phase_of c'.state)
        → Steps c (r >>= respond_to respond)
    by_effects [] e w = stop [] e w refl
    by_effects (message_callback ∷ es) e w =
        let (c'', es', e', v', w') = k c' v (called c' es e) in
        (
          c'',
          (message_callback ∷ es) ++ es',
          ap (λ x. x >>= respond_to respond) e
              ∙ ap (λ x. x >>= λ r. ok (r.0, (message_callback ∷ es) ++ r.1)) e',
          v',
          watch-append (some (phase_of c.state)) (message_callback ∷ es) es'
              ∙ ap (λ o. watch o es') w
              ∙ w',
        )
    by_effects (connection_callback b ∷ es) e w = stop _ e w refl
    by_effects (write_complete_callback ∷ es) e w = stop _ e w refl
    by_effects (Connection.close_callback ∷ es) e w = stop _ e w refl
    by_effects (wrote bytes ∷ es) e w = stop _ e w refl
    by_effects (shutdown_write ∷ es) e w = stop _ e w refl
    by_effects (queue_force_close ∷ es) e w = stop _ e w refl
    by_effects (remove_channel ∷ es) e w = stop _ e w refl

-- What comes behind the close and the read callback changes nothing.
abbrev rest : Bool → Bool → List Callback
rest errs out =
    (if errs then error_callback ∷ [] else []) ++ (if out then write_callback ∷ [] else [])

-- What the call of one event is made of, as the bits say.
abbrev calls : Bool → Bool → Bool → Bool → List Callback
calls closes reads errs out =
    (if closes then close_callback ∷ [] else [])
    ++ (if errs then error_callback ∷ [] else [])
    ++ (if reads then read_callback ∷ [] else [])
    ++ (if out then write_callback ∷ [] else [])

module _ (respond : Connection → Outcome) (received : Received) (written : Written) where
  error_first :
      (c : Connection) (ks : List Callback)
      → Steps c (dispatch respond received written c ks)
      → Steps c (dispatch respond received written c (error_callback ∷ ks))
  unfolding dispatch call_back handle_error then_next
  error_first c ks (c', es, e, v, w) =
      (c', es, ap (λ r. r >>= λ (x : Connection × List Effect). ok (x.0, [] ++ x.1)) e, v, w)

  dispatch-write :
      (c : Connection) (out : Bool)
      → Sound c
      → Steps c (dispatch respond received written c (if out then write_callback ∷ [] else []))
  unfolding dispatch call_back
  dispatch-write c false v = stays c v
  dispatch-write c true v =
      Steps-then c (λ c'. ok (c', [])) (rw (handle_write-quiet c written v) (stays c v))
        (λ c' v'. stays c' v')

  dispatch-rest :
      (c : Connection) (errs out : Bool)
      → Sound c
      → Steps c (dispatch respond received written c (rest errs out))
  dispatch-rest c true out v = error_first c _ (dispatch-write c out v)
  dispatch-rest c false out v = dispatch-write c out v

  module _ (c : Connection) (v : Sound c) (ne : c.state ≢ disconnected) (r : Responds respond)
      (read : Steps c (handle_read c received)) (here : c.registered ≡ true)
      (called : Called (handle_read c received)) where
    dispatch-read :
        (out : Bool)
        → Steps c (
            dispatch respond received written c
              (read_callback ∷ (if out then write_callback ∷ [] else [])))
    unfolding dispatch call_back
    dispatch-read out =
        Steps-then c
          (λ c'. dispatch respond received written c' (if out then write_callback ∷ [] else []))
          (respond_to-Steps c respond read called r) (λ c' v'. dispatch-write c' out v')

    -- An event that closes does not also read.
    dispatch-calls :
        (closes reads errs out : Bool)
        → (closes && reads) ≡ false
        → Steps c (dispatch respond received written c (calls closes reads errs out))
    unfolding dispatch call_back
    dispatch-calls true true errs out h = absurd (cc)
    dispatch-calls false true true out h =
        error_first c (read_callback ∷ (if out then write_callback ∷ [] else []))
          (dispatch-read out)
    dispatch-calls false true false out h = dispatch-read out
    dispatch-calls true false true out h =
        Steps-then c
          (λ c'.
            dispatch respond received written c'
              (error_callback ∷ (if out then write_callback ∷ [] else [])))
          (handle_close-Steps c v ne here) (λ c' v'. dispatch-rest c' true out v')
    dispatch-calls true false false out h =
        Steps-then c
          (λ c'. dispatch respond received written c' (if out then write_callback ∷ [] else []))
          (handle_close-Steps c v ne here) (λ c' v'. dispatch-rest c' false out v')
    dispatch-calls false false true out h = dispatch-rest c true out v
    dispatch-calls false false false out h = dispatch-rest c false out v

as_calls :
    (m : Mask)
    → m.pollpri ≡ false
    → m.pollrdhup ≡ false
    → handle_event all_set m
      ≡ calls (m.pollhup && not m.pollin) m.pollin (m.pollerr || m.pollnval) m.pollout
unfolding handle_event
as_calls m p q = ground arith

-- Whatever poll(2) reports of a connection whose channel the poller has, that is not down and asks
-- only for input and output, `handleEvent` calls its handlers without a failed assertion, whatever
-- bytes have come, even none, and whatever its owner does in the message callback, if these are
-- calls that may be made on such a channel: what the owner sees stays in order, and the connection
-- is down if it was told so.
pub on_event-Sound :
    (respond : Connection → Outcome) (c : Connection) (revents : Mask) (input : List ℕ)
    (written : Written)
    → Responds respond
    → Sound c
    → c.state ≢ disconnected
    → c.registered ≡ true
    → revents.pollpri ≡ false
    → revents.pollrdhup ≡ false
    → length input ≤ offered c.input
    → length c.input.bytes + extra_size ≤ max_size
    → (c' : Connection) × (es : List Effect) × (on_event respond c revents (got input) written
        ≡ ok (c', es))
      × Sound c'
      × (watch (some (phase_of c.state)) es ≡ some (phase_of c'.state))
unfolding on_event
on_event-Sound respond c revents input written r v ne here pri rdhup fits room =
    subst (λ ks. Steps c (dispatch respond (got input) written c ks))
      (sym (as_calls revents pri rdhup))
      (dispatch-calls respond (got input) written c v ne r
        (handle_read-Steps c input v ne here fits room) here
        (λ c' es e. handle_read-registered c input v here fits room e) _ _ _ _
        (apart revents.pollhup revents.pollin))
  where
    apart : (a b : Bool) → ((a && not b) && b) ≡ false
    apart a b = ground arith
