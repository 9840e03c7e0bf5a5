-- ===== src/Http/Ends.antt =====
-- How the loop of `parseRequest` in http/HttpContext.cpp ends, and where it does not.
use cly_server.Base.{
  ℕ, zero, suc, ◌<◌, ◌≡◌, ◌≢◌, refl, ◌∙◌, ◌⊎◌, inl, inr, Bool, true, false, Option, none, some, [],
  length, Result, ok, arith, Bool-cases,
}
use cly_server.Buffer.{Buffer, contents}
use cly_server.Buffer.Invariant.{IsValid}
use cly_server.Buffer.Contents.{retrieve_all_as_string-Holds}
use cly_server.Http.Context.{
  Context, State, expect_request_line, expect_headers, expect_body, got_all, Turn, turn, continue,
  parse_loop, finish, map_finish, parse_request,
}
use cly_server.Http.Loop.{Ready, turn-Turns}

module _ (r : Result Turn) (t : Turn) (rest : Turn → Option (Result Turn)) (e : r ≡ ok t) where
  pub continue-more : t.has_more ≡ true → continue r rest ≡ rest t
  unfolding continue
  continue-more h = rw e (ground arith)

  pub continue-stop : t.has_more ≡ false → continue r rest ≡ some (ok t)
  unfolding continue
  continue-stop h = rw e (ground arith)

-- More fuel than readable bytes is enough for the loop, and no assertion fails on the way.
parse_loop-Ends :
    (fuel : ℕ) (c : Context) (b : Buffer) (succeed : Bool) (time : ℕ)
    → length (contents b) < fuel
    → Ready c.state c.request
    → IsValid b
    → (t : Turn) × (parse_loop fuel c b succeed time ≡ some (ok t))
      × IsValid t.buffer
      × (t.context.state ≢ expect_body)
      × (t.succeed ≡ true → Ready t.context.state t.context.request ⊎ (t.context.state ≡ got_all))
unfolding parse_loop
parse_loop-Ends zero c b succeed time h m v = absurd (omega arith)
parse_loop-Ends (suc fuel) c b succeed time h m v =
    let (t, e, g) = turn-Turns c b succeed time c.state refl m v in
    let rest : (Turn → Option (Result Turn)) =
      λ u. parse_loop fuel u.context u.buffer u.succeed time in
    elim (Bool-cases t.has_more) [
      | inl more ↦
          let (m', less) = g.shorter more in
          let (t', e', v', n, k) =
            parse_loop-Ends fuel t.context t.buffer t.succeed time (omega arith) m' g.valid in
          (t', continue-more (turn c.state c b succeed time) t rest e more ∙ e', v', n, k)
      | inr stop ↦ (
        t,
        continue-stop (turn c.state c b succeed time) t rest e stop,
        g.valid,
        g.no_body,
        g.rests,
      )
    ]

-- Begun where a request or its headers are awaited, `parseRequest` comes to an end within a turn for
-- each readable byte and one more, with no failed assertion. It leaves no readable byte behind,
-- whether or not they made up a request, and never the state `kExpectBody`; where it reports success,
-- the state is one to go on from, or `kGotAll`.
pub parse_request-Ends :
    (fuel : ℕ) (c : Context) (b : Buffer) (time : ℕ)
    → length (contents b) < fuel
    → Ready c.state c.request
    → IsValid b
    → (c' : Context) × (b' : Buffer) × (succeed : Bool) × (parse_request fuel c b time
        ≡ some (ok (c', b', succeed)))
      × IsValid b'
      × (contents b' ≡ [])
      × (c'.state ≢ expect_body)
      × (succeed ≡ true → Ready c'.state c'.request ⊎ (c'.state ≡ got_all))
unfolding parse_request map_finish finish
parse_request-Ends fuel c b time h m v =
    let (t, e, v', n, k) = parse_loop-Ends fuel c b true time h m v in
    let (b', r, v'', none_left) = retrieve_all_as_string-Holds t.buffer v' in
    (t.context, b', t.succeed, rw (e, r), v'', none_left, n, k)

turn-still :
    (s : State) (c : Context) (b : Buffer) (succeed : Bool) (time : ℕ)
    → (s ≡ got_all) ⊎ (s ≡ expect_body)
    → turn s c b succeed time
      ≡ ok (record { context = c; buffer = b; succeed = succeed; has_more = true })
unfolding turn
turn-still expect_request_line c b succeed time h = ground arith
turn-still expect_headers c b succeed time h = ground arith
turn-still expect_body c b succeed time h = refl
turn-still got_all c b succeed time h = refl

parse_loop_stuck :
    (fuel : ℕ) (c : Context) (b : Buffer) (succeed : Bool) (time : ℕ)
    → (c.state ≡ got_all) ⊎ (c.state ≡ expect_body)
    → parse_loop fuel c b succeed time ≡ none
unfolding parse_loop
parse_loop_stuck zero c b succeed time h = refl
parse_loop_stuck (suc fuel) c b succeed time h =
    continue-more (turn c.state c b succeed time)
      (record { context = c; buffer = b; succeed = succeed; has_more = true })
      (λ t. parse_loop fuel t.context t.buffer t.succeed time)
      (turn-still c.state c b succeed time h) refl
    ∙ parse_loop_stuck fuel c b succeed time h

-- Begun with a whole request, or awaiting a body, the loop has no end.
pub parse_request_stuck :
    (fuel : ℕ) (c : Context) (b : Buffer) (time : ℕ)
    → (c.state ≡ got_all) ⊎ (c.state ≡ expect_body)
    → parse_request fuel c b time ≡ none
unfolding parse_request map_finish
parse_request_stuck fuel c b time h = rw (parse_loop_stuck fuel c b true time h)
