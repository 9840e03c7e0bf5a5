-- ===== src/Connection/Protocol.antt =====
-- The protocol of net/TcpConnection.cpp towards its owner, and what it does with the bytes to send.
use cly_server.Base.{
  ℕ, ◌-◌, ◌<◌, ◌≡◌, refl, sym, ap, subst, ◌∙◌, Bool, true, false, some, List, [], ◌∷◌, ◌++◌, ◌==◌,
  length, take, ok, fault, assert_failed, arith,
}
use cly_server.Buffer.{Buffer, readable_bytes, retrieve_all}
use cly_server.Buffer
use cly_server.Buffer.Invariant.{new-IsValid}
use cly_server.Poller.Events.{Mask, is_none}
use cly_server.Connection.{
  Connection, connected, disconnected, Effect, wrote, took, new, is_connecting, is_connected,
  is_disconnecting, is_open, connect_established, update_mask, start_read, handle_close,
}
use cly_server.Connection.Trace.{
  fresh, watch, phase_of, Op, sends, starts, hung_up, step, Admissible, Reachable, established,
  called, Sound,
}
use cly_server.Connection.Calls.{watch-append, send-up}
use cly_server.Connection.Handlers.{step-Steps}

abbrev Told : List Effect → Connection × List Effect → Type 0
Told before (c, es) = Sound c × (watch (some fresh) (before ++ es) ≡ some (phase_of c.state))

told :
    {x y : Connection × List Effect} (before : List Effect)
    → ok x ≡ ok y
    → Told before x
    → Told before y
told {x} {y} before e t = let same : x ≡ y = cc in subst (Told before) same t

established-Sound :
    (tells_complete : Bool) (c : Connection) (es : List Effect)
    → connect_established (new tells_complete) ≡ ok (c, es)
    → Told [] (c, es)
unfolding connect_established new is_connecting watch Buffer.new readable_bytes
established-Sound tells_complete c es e =
    let (v, _, _, _, _) = new-IsValid Buffer.initial_size (omega arith) in
    told [] e (
      record {
        begun = λ h. cc;
        deaf = λ h. cc;
        never_writing = refl;
        nothing_kept = refl;
        valid = v;
      },
      refl,
    )

-- Every effect of a connection comes in its place, in any sequence of admissible calls: those that
-- do not meet an error of read or write which aborts, do not start reading again once it is down,
-- and ask nothing of its channel once that was removed. The connection callback reports it up once
-- and first, bytes go out only while it is up, its writing side is shut down at most once and
-- nothing is written afterwards, it is reported down at most once, and the close callback follows
-- at once and is the last. The state is the one that these effects tell.
pub watch-Reachable :
    {c : Connection} {es : List Effect}
    → Reachable c es
    → Sound c × (watch (some fresh) es ≡ some (phase_of c.state))
watch-Reachable (established {c} {es} tells_complete e) = established-Sound tells_complete c es e
watch-Reachable (called {c} {c'} {es} {es'} op r a e) =
    let (v, w) = watch-Reachable r in
    let (c'', es'', e', v', w') = step-Steps c op v a in
    told es (sym e' ∙ e) (v', watch-append (some fresh) es es'' ∙ ap (λ o. watch o es'') w ∙ w')

-- No call that may be made ends in a failed assertion or in any other fault. The calls that may be
-- made meet no error of read or write which aborts, do not start reading again on a connection that
-- is down, remove the channel from the poller at most once, and do not change its mask afterwards.
pub step-Reachable :
    {c : Connection} {es : List Effect} (op : Op)
    → Reachable c es
    → Admissible c op
    → (c' : Connection) × (es' : List Effect) × (step c op ≡ ok (c', es'))
      × Reachable c' (es ++ es')
step-Reachable {c} {es} op r a =
    let (c', es', e, _, _) = step-Steps c op (watch-Reachable r).0 a in
    (c', es', e, called op r a e)

-- What `send` does not get rid of at once is lost: of a message of which the socket takes n bytes,
-- the connection writes these, keeps nothing, and asks for no event that would have it write the
-- rest.
pub send_drops :
    {c : Connection} {es : List Effect} (message : List ℕ) (n : ℕ)
    → Reachable c es
    → c.state ≡ connected
    → n < length message
    → (step c (sends message (took n)) ≡ ok (c, wrote (take n message) ∷ []))
      × (readable_bytes c.output ≡ 0)
      × (c.events.pollout ≡ false)
unfolding step
send_drops {c} message n r s lt =
    let (v, _) = watch-Reachable r in
    (send-up c message n v s ∙ rw (ltb_rest), v.nothing_kept, v.never_writing)
  where
    ltb_rest : (length message - n == 0) ≡ false
    ltb_rest = ground arith

pollin-none : (m : Mask) → is_none m ≡ true → m.pollin ≡ false
unfolding is_none
pollin-none m h = ground arith

abbrev hearing : Connection → Connection
hearing c = record c { reading = true; events = record c.events { pollin = true } }

starts-down :
    (c : Connection)
    → c.registered ≡ true
    → c.events.pollin ≡ false
    → start_read c ≡ ok (hearing c, [])
unfolding start_read update_mask
starts-down c here h = ground arith

deaf_hang :
    (c : Connection)
    → c.registered ≡ true
    → c.state ≡ disconnected
    → step (hearing c) hung_up ≡ fault assert_failed
unfolding step is_none handle_close is_open is_connected is_disconnecting
deaf_hang c here d = rw (d, here)

first : {x y : Connection × List Effect} → ok x ≡ ok y → x.0 ≡ y.0
first {x} {y} e = let same : x ≡ y = cc in ap (λ z. z.0) same

-- Reading that is started again on a connection that is down makes the loop call its handlers again,
-- and the next hang-up fails the assertion of `handleClose`.
pub restart_faults :
    {c c' : Connection} {es es' : List Effect}
    → Reachable c es
    → c.registered ≡ true
    → c.state ≡ disconnected
    → step c starts ≡ ok (c', es')
    → step c' hung_up ≡ fault assert_failed
unfolding step
restart_faults {c} {c'} r here d e =
    let (v, _) = watch-Reachable r in
    let up = starts-down c here (pollin-none c.events (v.deaf d)) in
    subst (λ x. step x hung_up ≡ fault assert_failed) (first (sym up ∙ e)) (deaf_hang c here d)
