-- ===== src/Connector/Steps.antt =====
-- What a net/Connector.cpp connector does on each call, mode by mode.
use cly_server.Base.{
  ℕ, zero, suc, ◌≡◌, refl, Bool, true, false, not, ◌||◌, none, some, List, [], ◌∷◌, ◌++◌, ◌==◌,
  if◌then◌else◌, ok, ◌>>=◌, arith,
}
use cly_server.Connector.{
  disconnected, connecting, Channel, Functor, start_in_loop, stop_in_loop, reset_channel, Dial,
  init_retry_delay_ms, start, stop, restart, reset, start_in_loop_of, stop_in_loop_of,
  remove_and_reset_channel, give_up, finish, handle_write, handle_error, is_connecting,
}
use cly_server.Connector.System.{
  System, note, note_all, with_connector, run, run_next, fire, resets, start_calls, Dials, Event,
  starts, starts_elsewhere, stops, restarts, runs, fires, writable, in_error, step, Admissible,
}
use cly_server.Connector.Invariant.{
  at, channel_on, Delay, Inv, quiet, dialling, fading, linked, settled, held, same_fd, Steps, Goes,
  Goes-Steps, start_calls-append, resets-append, started, gives_up,
}

-- `stopInLoop`, `handleError` and `handleWrite` where the connector dials.
stops_in_loop :
    (b : Bool) (fd d : ℕ) (fs : List Functor)
    → start_calls fs ≡ 0
    → resets fs ≡ 0
    → Delay d
    → Goes
        (at b connecting (channel_on fd true) d fs 0)
        (stop_in_loop_of (at b connecting (channel_on fd true) d fs 0).connector)
unfolding stop_in_loop_of is_connecting
stops_in_loop b fd d fs st rs v = gives_up b fd d fs st rs v disconnected

writes :
    (b : Bool) (fd d : ℕ) (fs : List Functor)
    → start_calls fs ≡ 0
    → resets fs ≡ 0
    → Delay d
    → (fails : Bool)
    → Goes (at b connecting (channel_on fd true) d fs 0) (
        remove_and_reset_channel (at b connecting (channel_on fd true) d fs 0).connector >>= λ r.
        ok (if fails then give_up r else finish r))
unfolding remove_and_reset_channel finish with_connector note note_all held
writes b fd d fs st rs v true = gives_up b fd d fs st rs v connecting
writes true fd d fs st rs v false = (
  _,
  _,
  refl,
  linked true fd d (fs ++ reset_channel ∷ []) (omega (arith, start_calls-append fs reset_channel))
      (omega (arith, resets-append fs reset_channel)) v,
  rw (same_fd fd),
)
writes false fd d fs st rs v false = (
  _,
  _,
  refl,
  linked false fd d (fs ++ reset_channel ∷ []) (omega (arith, start_calls-append fs reset_channel))
      (omega (arith, resets-append fs reset_channel)) v,
  rw (same_fd fd),
)

run_next-Steps :
    {s : System} (dial : Dial) → Inv s → Dials dial → Steps s (run_next s s.pending dial)
unfolding run_next run start_in_loop_of stop_in_loop_of is_connecting reset with_connector note_all
    held
run_next-Steps dial (quiet b d [] n few rs v) a = (_, [], refl, quiet b d [] n few rs v, refl)
run_next-Steps dial (quiet b d (start_in_loop ∷ fs) zero few rs v) a =
    Goes-Steps (at b disconnected none d fs 0) (started b d fs (omega arith) rs v dial a)
run_next-Steps dial (quiet b d (start_in_loop ∷ fs) (suc n) few rs v) a = absurd (omega arith)
run_next-Steps dial (quiet b d (stop_in_loop ∷ fs) n few rs v) a =
    (_, [], refl, quiet b d fs n few rs v, refl)
run_next-Steps dial (quiet b d (reset_channel ∷ fs) n few rs v) a = absurd (omega arith)
run_next-Steps dial (dialling b fd d [] st rs v) a = (_, [], refl, dialling b fd d [] st rs v, refl)
run_next-Steps dial (dialling b fd d (start_in_loop ∷ fs) st rs v) a = absurd (omega arith)
run_next-Steps dial (dialling b fd d (stop_in_loop ∷ fs) st rs v) a =
    Goes-Steps (at b connecting (channel_on fd true) d fs 0) (stops_in_loop b fd d fs st rs v)
run_next-Steps dial (dialling b fd d (reset_channel ∷ fs) st rs v) a = absurd (omega arith)
run_next-Steps dial (fading b fd d [] n few st rs v) a = absurd (omega arith)
run_next-Steps dial (fading b fd d (start_in_loop ∷ fs) n few st rs v) a = absurd (omega arith)
run_next-Steps dial (fading b fd d (stop_in_loop ∷ fs) n few st rs v) a =
    (_, [], refl, fading b fd d fs n few st rs v, refl)
run_next-Steps dial (fading b fd d (reset_channel ∷ fs) n few st rs v) a =
    (_, [], refl, quiet b d fs n (omega arith) (omega arith) v, refl)
run_next-Steps dial (linked b fd d [] st rs v) a = absurd (omega arith)
run_next-Steps dial (linked b fd d (start_in_loop ∷ fs) st rs v) a = absurd (omega arith)
run_next-Steps dial (linked b fd d (stop_in_loop ∷ fs) st rs v) a =
    (_, [], refl, linked b fd d fs st rs v, refl)
run_next-Steps dial (linked b fd d (reset_channel ∷ fs) st rs v) a =
    (_, [], refl, settled b d fs st (omega arith) v, refl)
run_next-Steps dial (settled b d [] st rs v) a = (_, [], refl, settled b d [] st rs v, refl)
run_next-Steps dial (settled b d (start_in_loop ∷ fs) st rs v) a = absurd (omega arith)
run_next-Steps dial (settled b d (stop_in_loop ∷ fs) st rs v) a =
    (_, [], refl, settled b d fs st rs v, refl)
run_next-Steps dial (settled b d (reset_channel ∷ fs) st rs v) a = absurd (omega arith)

starts-Steps :
    {s : System} (dial : Dial) → Inv s → Admissible s (starts dial) → Steps s (step s (starts dial))
unfolding step start with_connector
starts-Steps dial (quiet b d fs zero few rs v) (a, i) =
    Goes-Steps (at true disconnected none d fs 0) (started true d fs i.no_start rs v dial a)
starts-Steps dial (quiet b d fs (suc n) few rs v) (a, i) =
    let t = i.no_timer in absurd (omega arith)
starts-Steps dial (dialling b fd d fs st rs v) (a, i) = absurd (let e = i.down in cc)
starts-Steps dial (fading b fd d fs n few st rs v) (a, i) = absurd (let e = i.no_channel in cc)
starts-Steps dial (linked b fd d fs st rs v) (a, i) = absurd (let e = i.down in cc)
starts-Steps dial (settled b d fs st rs v) (a, i) = absurd (let e = i.down in cc)

starts_elsewhere-Steps :
    {s : System} → Inv s → Admissible s starts_elsewhere → Steps s (step s starts_elsewhere)
unfolding step start with_connector note note_all held
starts_elsewhere-Steps (quiet b d fs n few rs v) i = (
  _,
  _,
  refl,
  quiet true d (fs ++ start_in_loop ∷ []) n
      (let t = i.no_timer in
        let u = i.no_start in omega (arith, start_calls-append fs start_in_loop))
      (omega (arith, resets-append fs start_in_loop)) v,
  refl,
)
starts_elsewhere-Steps (dialling b fd d fs st rs v) i = absurd (let e = i.down in cc)
starts_elsewhere-Steps (fading b fd d fs n few st rs v) i = absurd (let e = i.no_channel in cc)
starts_elsewhere-Steps (linked b fd d fs st rs v) i = absurd (let e = i.down in cc)
starts_elsewhere-Steps (settled b d fs st rs v) i = absurd (let e = i.down in cc)

stops-Steps : {s : System} → Inv s → Steps s (step s stops)
unfolding step stop with_connector note note_all held
stops-Steps (quiet b d fs n few rs v) = (
  _,
  _,
  refl,
  quiet false d (fs ++ stop_in_loop ∷ []) n (omega (arith, start_calls-append fs stop_in_loop))
      (omega (arith, resets-append fs stop_in_loop)) v,
  refl,
)
stops-Steps (dialling b fd d fs st rs v) = (
  _,
  _,
  refl,
  dialling false fd d (fs ++ stop_in_loop ∷ []) (omega (arith, start_calls-append fs stop_in_loop))
      (omega (arith, resets-append fs stop_in_loop)) v,
  refl,
)
stops-Steps (fading b fd d fs n few st rs v) = (
  _,
  _,
  refl,
  fading false fd d (fs ++ stop_in_loop ∷ []) n few
      (omega (arith, start_calls-append fs stop_in_loop))
      (omega (arith, resets-append fs stop_in_loop)) v,
  refl,
)
stops-Steps (linked b fd d fs st rs v) = (
  _,
  _,
  refl,
  linked false fd d (fs ++ stop_in_loop ∷ []) (omega (arith, start_calls-append fs stop_in_loop))
      (omega (arith, resets-append fs stop_in_loop)) v,
  refl,
)
stops-Steps (settled b d fs st rs v) = (
  _,
  _,
  refl,
  settled false d (fs ++ stop_in_loop ∷ []) (omega (arith, start_calls-append fs stop_in_loop))
      (omega (arith, resets-append fs stop_in_loop)) v,
  refl,
)

restarts-Steps :
    {s : System} (dial : Dial)
    → Inv s
    → Admissible s (restarts dial)
    → Steps s (step s (restarts dial))
unfolding step restart with_connector
restarts-Steps dial (quiet b d fs n few rs v) (a, e, _) = absurd (cc)
restarts-Steps dial (dialling b fd d fs st rs v) (a, e, _) = absurd (cc)
restarts-Steps dial (fading b fd d fs n few st rs v) (a, e, _) = absurd (cc)
restarts-Steps dial (linked b fd d fs st rs v) (a, _, e) = absurd (cc)
restarts-Steps dial (settled b d fs st rs v) (a, _, _) =
    Goes-Steps (at true disconnected none init_retry_delay_ms fs 0)
      (started true init_retry_delay_ms fs st rs (omega arith, omega arith) dial a)

fires-Steps :
    {s : System} (dial : Dial) → Inv s → Admissible s (fires dial) → Steps s (step s (fires dial))
unfolding step fire held
fires-Steps dial (quiet b d fs zero few rs v) a = (_, [], refl, quiet b d fs zero few rs v, refl)
fires-Steps dial (quiet b d fs (suc zero) few rs v) (a, _) =
    Goes-Steps (at b disconnected none d fs 0) (started b d fs (omega arith) rs v dial a)
fires-Steps dial (quiet b d fs (suc (suc n)) few rs v) a = absurd (omega arith)
fires-Steps dial (dialling b fd d fs st rs v) a = (_, [], refl, dialling b fd d fs st rs v, refl)
fires-Steps dial (fading b fd d fs n few st rs v) (_, e) = absurd (omega arith)
fires-Steps dial (linked b fd d fs st rs v) (_, e) = absurd (omega arith)
fires-Steps dial (settled b d fs st rs v) a = (_, [], refl, settled b d fs st rs v, refl)

-- Only a connector that dials has a channel that asks for an event.
writing-dials :
    {s : System} (P : System → Type 0)
    → Inv s
    → (channel : Channel) × (s.connector.channel ≡ some channel) × (channel.writing ≡ true)
    → ((b : Bool) (fd d : ℕ) (fs : List Functor)
        → start_calls fs ≡ 0
        → resets fs ≡ 0
        → Delay d
        → P (at b connecting (channel_on fd true) d fs 0))
    → P s
writing-dials P (quiet b d fs n few rs v) (_, e, w) k = absurd (cc)
writing-dials P (dialling b fd d fs st rs v) a k = k b fd d fs st rs v
writing-dials P (fading b fd d fs n few st rs v) (_, e, w) k = absurd (cc)
writing-dials P (linked b fd d fs st rs v) (_, e, w) k = absurd (cc)
writing-dials P (settled b d fs st rs v) (_, e, w) k = absurd (cc)

pub step-Steps : {s : System} (event : Event) → Inv s → Admissible s event → Steps s (step s event)
unfolding step handle_write handle_error is_connecting
step-Steps (starts dial) v a = starts-Steps dial v a
step-Steps starts_elsewhere v a = starts_elsewhere-Steps v a
step-Steps stops v a = stops-Steps v
step-Steps (restarts dial) v a = restarts-Steps dial v a
step-Steps (runs dial) v a = run_next-Steps dial v a
step-Steps (fires dial) v a = fires-Steps dial v a
step-Steps (writable err self_connect) v a =
    writing-dials (λ s. Steps s (step s (writable err self_connect))) v a
      (λ b fd d fs st rs v.
        Goes-Steps (at b connecting (channel_on fd true) d fs 0)
          (writes b fd d fs st rs v (not (err == 0) || self_connect)))
step-Steps in_error v a =
    writing-dials (λ s. Steps s (step s in_error)) v a
      (λ b fd d fs st rs v.
        Goes-Steps (at b connecting (channel_on fd true) d fs 0)
          (gives_up b fd d fs st rs v connecting))
