-- ===== src/Connection/Handlers.antt =====
-- The handlers of net/TcpConnection.cpp on a connection that is sound, and a step as a whole.
use mathlib.Core.Bool.{false≢true}
use cly_server.Base.{
  ℕ, ◌+◌, ◌≤◌, ◌≡◌, ◌≢◌, ◌⊎◌, inl, inr, refl, sym, ◌∙◌, Bool, true, false, not, ◌||◌, Bool-cases,
  some, List, [], ◌∷◌, length, ok, arith, ap, ◌>>=◌,
}
use cly_server.Buffer.{Buffer, Received, got, offered, extra_size, max_size, retrieve_all}
use cly_server.Buffer.Invariant.{IsValid}
use cly_server.Buffer.Receive.{read_fd-Holds}
use cly_server.Poller.Events.{Mask, is_none}
use cly_server.Connection.{
  Connection, Effect, handle_close, State, connected, connecting, disconnected, disconnecting,
  message_callback, remove_channel, Written, connect_destroyed, handle_read, after_read,
  handle_write, start_read, update_mask, stop_read,
}
use cly_server.Connection.Trace.{
  watch, phase_of, Op, sends, shuts, forces, forced, starts, stops, consumes, readable, writable,
  hung_up, destroyed, step, is_unheard, Admissible, Sound,
}
use cly_server.Connection.Calls.{Steps, stays, sends-Steps}
use cly_server.Connection.Closing.{shuts-Steps, forces-Steps, handle_close-Steps, forced-Steps}

mask_kept :
    (c : Connection) (reading pollin : Bool)
    → Sound c
    → c.state ≢ disconnected
    → Sound (record c { reading = reading; events = record c.events { pollin = pollin } })
mask_kept c reading pollin v ne = record {
  begun = v.begun;
  deaf = λ h. absurd (ne h);
  never_writing = v.never_writing;
  nothing_kept = v.nothing_kept;
  valid = v.valid;
}

starts-Steps :
    (c : Connection)
    → Sound c
    → c.state ≢ disconnected
    → (c.registered ≡ true) ⊎ ((not c.reading || not c.events.pollin) ≡ false)
    → Steps c (start_read c)
unfolding watch start_read update_mask
starts-Steps c v ne (inr h) = (c, [], rw h, v, refl)
starts-Steps c v ne (inl here) = elim (Bool-cases (not c.reading || not c.events.pollin)) [
  | inl h ↦ (
    record c { reading = true; events = record c.events { pollin = true } },
    [],
    rw (h, here),
    mask_kept c true true v ne,
    refl,
  )
  | inr h ↦ (c, [], rw h, v, refl)
]

is_none-deafer : (m : Mask) → is_none m ≡ true → is_none (record m { pollin = false }) ≡ true
unfolding is_none
is_none-deafer m h = ground arith

stops-Steps :
    (c : Connection)
    → Sound c
    → (c.registered ≡ true) ⊎ ((c.reading || c.events.pollin) ≡ false)
    → Steps c (stop_read c)
unfolding watch stop_read update_mask
stops-Steps c v (inr h) = (c, [], rw h, v, refl)
stops-Steps c v (inl here) = elim (Bool-cases (c.reading || c.events.pollin)) [
  | inl h ↦ (
    record c { reading = false; events = record c.events { pollin = false } },
    [],
    rw (h, here),
    record {
      begun = v.begun;
      deaf = λ d. is_none-deafer c.events (v.deaf d);
      never_writing = v.never_writing;
      nothing_kept = v.nothing_kept;
      valid = v.valid;
    },
    refl,
  )
  | inr h ↦ (c, [], rw h, v, refl)
]

with_input :
    (c : Connection) (input : Buffer) → Sound c → IsValid input → Sound (record c { input = input })
with_input c input v i = record {
  begun = v.begun;
  deaf = v.deaf;
  never_writing = v.never_writing;
  nothing_kept = v.nothing_kept;
  valid = i;
}

consumes-Steps :
    (c : Connection) → Sound c → Steps c (ok (record c { input = retrieve_all c.input }, []))
unfolding watch retrieve_all
consumes-Steps c v = (
  record c { input = retrieve_all c.input },
  [],
  refl,
  with_input c (retrieve_all c.input) v (record {
    ordered = omega arith;
    inside = v.valid.roomy;
    roomy = v.valid.roomy;
    small = v.valid.small;
  }),
  refl,
)

message-watch :
    (s : State)
    → s ≢ connecting
    → s ≢ disconnected
    → watch (some (phase_of s)) (message_callback ∷ []) ≡ some (phase_of s)
unfolding watch
message-watch disconnected h k = absurd (k refl)
message-watch connecting h k = absurd (h refl)
message-watch connected h k = refl
message-watch disconnecting h k = refl

-- Bytes that arrive while the connection is not down are reported to the message callback.
after_read-Steps :
    (c : Connection) (input : List ℕ) (b : Buffer)
    → Sound c
    → IsValid b
    → c.state ≢ disconnected
    → c.registered ≡ true
    → Steps c (after_read c (got input, b))
unfolding after_read
after_read-Steps c [] b v i ne here =
    handle_close-Steps (record c { input = b }) (with_input c b v i) ne here
after_read-Steps c (x ∷ xs) b v i ne here = (
  record c { input = b },
  message_callback ∷ [],
  refl,
  with_input c b v i,
  message-watch c.state v.begun ne,
)

pub handle_read-Steps :
    (c : Connection) (input : List ℕ)
    → Sound c
    → c.state ≢ disconnected
    → c.registered ≡ true
    → length input ≤ offered c.input
    → length c.input.bytes + extra_size ≤ max_size
    → Steps c (handle_read c (got input))
unfolding handle_read
handle_read-Steps c input v ne here fits room =
    let (b, e, i, _) = read_fd-Holds c.input input v.valid fits room in
    rw e (after_read-Steps c input b v i ne here)

-- A handler is called only on a channel that asks for an event, so not once the connection is down,
-- and that the poller has.
heard :
    (c : Connection)
    → Sound c
    → is_unheard c ≡ false
    → (c.state ≢ disconnected) × (c.registered ≡ true)
heard c v h = (λ d. false≢true (sym asks ∙ v.deaf d), kept)
  where
    asks : is_none c.events ≡ false
    asks = ground arith

    kept : c.registered ≡ true
    kept = ground arith

pub handle_write-quiet :
    (c : Connection) (written : Written) → Sound c → handle_write c written ≡ ok (c, [])
unfolding handle_write
handle_write-quiet c written v = rw v.never_writing

destroyed-watch : (s : State) → watch (some (phase_of s)) (remove_channel ∷ []) ≡ some (phase_of s)
unfolding watch
destroyed-watch disconnected = refl
destroyed-watch connecting = refl
destroyed-watch connected = refl
destroyed-watch disconnecting = refl

pub step-Steps : (c : Connection) (op : Op) → Sound c → Admissible c op → Steps c (step c op)
unfolding step connect_destroyed
step-Steps c (sends message written) v a = sends-Steps c message written v a
step-Steps c shuts v a = shuts-Steps c v
step-Steps c forces v a = forces-Steps c v
step-Steps c forced v a = forced-Steps c v a
step-Steps c starts v (ne, here) = starts-Steps c v ne here
step-Steps c stops v a = stops-Steps c v a
step-Steps c consumes v a = consumes-Steps c v
step-Steps c (readable (got input)) v (fits, room) = elim (Bool-cases (is_unheard c)) [
  | inl h ↦ rw h (stays c v)
  | inr h ↦ rw h (handle_read-Steps c input v (heard c v h).0 (heard c v h).1 fits room)
]
step-Steps c (readable (Received.failed errno)) v a = absurd a
step-Steps c (writable written) v a = elim (Bool-cases (is_unheard c)) [
  | inl h ↦ rw h (stays c v)
  | inr h ↦ rw (h, handle_write-quiet c written v) (stays c v)
]
step-Steps c hung_up v a = elim (Bool-cases (is_unheard c)) [
  | inl h ↦ rw h (stays c v)
  | inr h ↦ rw h (handle_close-Steps c v (heard c v h).0 (heard c v h).1)
]
step-Steps c destroyed v a = (
  record c { registered = false },
  remove_channel ∷ [],
  rw a,
  record {
    begun = v.begun;
    deaf = v.deaf;
    never_writing = v.never_writing;
    nothing_kept = v.nothing_kept;
    valid = v.valid;
  },
  destroyed-watch c.state,
)

handle_close-silent :
    (c : Connection) {c' : Connection} {es : List Effect}
    → ¬ (handle_close c ≡ ok (c', message_callback ∷ es))
unfolding handle_close update_mask
handle_close-silent c e = ground arith

after_read-registered :
    (c : Connection) (input : List ℕ) (b : Buffer) {c' : Connection} {es : List Effect}
    → c.registered ≡ true
    → after_read c (got input, b) ≡ ok (c', message_callback ∷ es)
    → c'.registered ≡ true
unfolding after_read
after_read-registered c [] b here e = absurd (handle_close-silent (record c { input = b }) e)
after_read-registered c (x ∷ xs) b {c'} {es} here e =
    sym (ap (λ t. t.0.registered) (ok_injective e)) ∙ here
  where
    ok_injective : {x y : Connection × List Effect} → ok x ≡ ok y → x ≡ y
    ok_injective h = cc

-- `handleRead` calls the message callback only on a channel that the poller still has.
pub handle_read-registered :
    (c : Connection) (input : List ℕ) {c' : Connection} {es : List Effect}
    → Sound c
    → c.registered ≡ true
    → length input ≤ offered c.input
    → length c.input.bytes + extra_size ≤ max_size
    → handle_read c (got input) ≡ ok (c', message_callback ∷ es)
    → c'.registered ≡ true
unfolding handle_read
handle_read-registered c input v here fits room e =
    let (b, e', _, _) = read_fd-Holds c.input input v.valid fits room in
    after_read-registered c input b here (sym (ap (λ r. r >>= after_read c) e') ∙ e)
