-- ===== src/Connector/Backoff.antt =====
-- How long net/Connector.cpp waits before it dials again, and the timer that `stop` leaves behind.
use native.Mathlib.Nat.{pow-suc, mul-suc}
use cly_server.Base.{
  ℕ, zero, suc, ◌*◌, ◌^◌, ◌≤◌, ◌<◌, ◌≡◌, refl, sym, ap, ap₂, ◌∙◌, true, false, none, some, List, [],
  ◌∷◌, ◌++◌, min, length, ok, fault, assert_failed, ◌>>=◌, arith, dec_le,
}
use cly_server.Connector.{
  Connector, Effect, closed, run_after, Dial, going, classify, init_retry_delay_ms,
  max_retry_delay_ms, retry, start, stop, start_in_loop_of, connect_to, connect_with, attempt,
  connecting_on, is_null, is_disconnected, disconnected, stop_in_loop,
}
use cly_server.Connector.System.{
  System, with_connector, note, note_all, step, starts, stops, fires, fire, Reachable,
}
use cly_server.Connector.Invariant.{at, Inv, quiet, dialling, fading, linked, settled}
use cly_server.Connector.Protocol.{held-Reachable}

-- A connector that has given up one socket after the other.
unfoldable pub retried : Connector → List ℕ → Connector
retried c [] = c
retried c (fd ∷ fds) = retried (retry c fd).0 fds

retry-on :
    (c : Connector) (fd : ℕ)
    → c.connect ≡ true
    → ((retry c fd).0.retry_delay_ms ≡ min (c.retry_delay_ms * 2) max_retry_delay_ms)
      × ((retry c fd).0.connect ≡ true)
      × ((retry c fd).1 ≡ closed fd ∷ run_after c.retry_delay_ms ∷ [])
unfolding retry
retry-on c fd on = ground arith

pow_pos : (n : ℕ) → 0 < 2 ^ n
pow_pos zero = omega arith
pow_pos (suc n) = rw pow-suc (let p = pow_pos n in omega arith)

-- A cap that is applied before a factor too.
capped :
    (a p : ℕ)
    → 0 < p
    → min (min a max_retry_delay_ms * p) max_retry_delay_ms ≡ min (a * p) max_retry_delay_ms
capped a zero h = absurd (omega arith)
capped a (suc q) h = elim (dec_le a max_retry_delay_ms) [
  | yes low ↦
      ap (λ k. min (k * suc q) max_retry_delay_ms) {x = min a max_retry_delay_ms} {y = a}
        (omega arith)
  | no high ↦
      ap (λ k. min (k * suc q) max_retry_delay_ms) {x = min a max_retry_delay_ms}
        {y = max_retry_delay_ms} (omega arith)
      ∙ past high
]
  where
    past :
        ¬ (a ≤ max_retry_delay_ms)
        → min (max_retry_delay_ms * suc q) max_retry_delay_ms ≡ min (a * suc q) max_retry_delay_ms
    past high = omega (arith, mul-suc a q, mul-suc max_retry_delay_ms q)

doubles :
    (c : Connector) (fds : List ℕ)
    → c.connect ≡ true
    → c.retry_delay_ms ≤ max_retry_delay_ms
    → ((retried c fds).retry_delay_ms ≡ min (c.retry_delay_ms * 2 ^ length fds) max_retry_delay_ms)
      × ((retried c fds).connect ≡ true)
unfolding retried
doubles c [] on h = (omega arith, on)
doubles c (fd ∷ fds) on h =
    let (d, o, _) = retry-on c fd on in
    let (e, o') = doubles (retry c fd).0 fds o (omega arith) in
    (
      e
          ∙ ap (λ k. min (k * 2 ^ length fds) max_retry_delay_ms) d
          ∙ capped (c.retry_delay_ms * 2) (2 ^ length fds) (pow_pos (length fds))
          ∙ ap (λ k. min k max_retry_delay_ms) (regroup c.retry_delay_ms (2 ^ length fds))
          ∙ ap (λ k. min (c.retry_delay_ms * k) max_retry_delay_ms) {x = 2 ^ length fds * 2}
              (sym (pow-suc 2 (length fds))),
      o',
    )
  where
    regroup : (a p : ℕ) → a * 2 * p ≡ a * (p * 2)
    regroup a p = omega arith

-- Each time in a row that it gives up a socket, a connector that is not stopped closes it and sets
-- a timer: for half a second the first time, then for twice as long as before, but never for more
-- than thirty seconds.
pub retry_delays :
    (c : Connector) (fds : List ℕ) (fd : ℕ)
    → c.connect ≡ true
    → c.retry_delay_ms ≡ init_retry_delay_ms
    → (retry (retried c fds) fd).1 ≡ closed fd ∷ run_after (min (500 * 2 ^ length fds) 30_000) ∷ []
retry_delays c fds fd on first =
    let (e, o) = doubles c fds on (omega arith) in
    let (_, _, es) = retry-on (retried c fds) fd o in
    es
    ∙ ap (λ k. closed fd ∷ run_after k ∷ []) e
    ∙ ap (λ k. closed fd ∷ run_after (min (k * 2 ^ length fds) max_retry_delay_ms) ∷ []) first

-- `stop` does not take back the timer of a retry. If the owner starts the connector again before it
-- fires, and the dial gets under way, the timer fails the assertion of `startInLoop`.
pub timer_faults :
    {s : System} {es : List Effect} (dial dial' : Dial) {fd : ℕ}
    → Reachable s es
    → s.connector.channel ≡ none
    → 0 < s.timers
    → dial.socket ≡ some fd
    → classify dial.errno ≡ going
    → (s1 s2 : System) × (es1 es2 : List Effect) × (step s stops ≡ ok (s1, es1))
      × (step s1 (starts dial) ≡ ok (s2, es2))
      × (step s2 (fires dial') ≡ fault assert_failed)
unfolding step stop start start_in_loop_of connect_to with_connector note note_all fire
    is_disconnected connect_with attempt connecting_on is_null
timer_faults {s} dial dial' {fd} r clear set opens goes = by_mode (held-Reachable r).0 clear set
  where
    by_mode :
        {s : System}
        → Inv s
        → s.connector.channel ≡ none
        → 0 < s.timers
        → (s1 s2 : System) × (es1 es2 : List Effect) × (step s stops ≡ ok (s1, es1))
          × (step s1 (starts dial) ≡ ok (s2, es2))
          × (step s2 (fires dial') ≡ fault assert_failed)
    by_mode (quiet b d fs (suc n) few rs v) c t = (
      _,
      _,
      _,
      _,
      refl,
      ap
          (λ x. x >>= λ r.
            ok (with_connector (at false disconnected none d (fs ++ stop_in_loop ∷ []) (suc n)) r))
          (ap₂ (λ o a. connect_with (at true disconnected none d fs 0).connector o a) opens goes),
      refl,
    )
    by_mode (quiet b d fs zero few rs v) c t = absurd (omega arith)
    by_mode (dialling b fd d fs st rs v) c t = absurd (cc)
    by_mode (fading b fd d fs n few st rs v) c t = absurd (cc)
    by_mode (linked b fd d fs st rs v) c t = absurd (cc)
    by_mode (settled b d fs st rs v) c t = absurd (omega arith)
