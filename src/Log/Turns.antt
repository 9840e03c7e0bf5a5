-- ===== src/Log/Turns.antt =====
-- The end of a turn of base/AsyncLogging.cpp's thread, and what holds throughout.
use mathlib.Core.Bool.{false≢true}
use cly_server.Base.{
  ℕ, ◌+◌, ◌≤◌, ◌≡◌, refl, sym, ap, subst, ◌∙◌, Bool, true, false, Option, none, some, List, [], ◌∷◌,
  ◌++◌, append_assoc, if◌then◌else◌, length, take, All, ok, arith,
}
use cly_server.Log.{FixedBuffer, reset}
use cly_server.Log.Async.{
  AsyncLogging, fresh, start, exchange, joined, last, but_last, refill, is_piled_up, written,
  given_up, write_out,
}
use cly_server.Log.Exchange.{
  Reachable, started, logged, exchanged, wrote, Inv, IsFreshOrGone, IsLarge, missing,
}
use cly_server.Log.Writers.{logged-Inv, exchanged-Inv}

reset-fresh : (b : FixedBuffer) → IsLarge b → reset b ≡ fresh
unfolding reset
reset-fresh b h = ap (λ n. record { size = n; text = [] }) h

-- At the end of a turn both buffers of the thread are there again.
refills :
    (wl : List FixedBuffer) (m : Option FixedBuffer)
    → All IsLarge wl
    → IsFreshOrGone m
    → 1 + missing m ≤ length wl
    → (rest rest' : List FixedBuffer) × (refill none (take 2 wl) ≡ ok (some fresh, rest))
      × (refill m rest ≡ ok (some fresh, rest'))
unfolding refill last but_last
refills [] m a g h = absurd (omega arith)
refills (b ∷ []) none a g h = absurd (omega arith)
refills (b ∷ []) (some f) (l, _) g h =
    ([], [], ap (λ x. ok (some x, [])) (reset-fresh b l), ap (λ x. ok (some x, [])) g)
refills (b ∷ c ∷ bs) none (l, (k, _)) g h = (
  b ∷ [],
  [],
  ap (λ x. ok (some x, b ∷ [])) (reset-fresh c k),
  ap (λ x. ok (some x, [])) (reset-fresh b l),
)
refills (b ∷ c ∷ bs) (some f) (l, (k, _)) g h = (
  b ∷ [],
  b ∷ [],
  ap (λ x. ok (some x, b ∷ [])) (reset-fresh c k),
  ap (λ x. ok (some x, b ∷ [])) g,
)

kept_up : (wl : List FixedBuffer) → given_up wl ≡ 0 → is_piled_up wl ≡ false
unfolding given_up is_piled_up
kept_up wl h = ground arith

written-kept_up :
    (note : List ℕ) (wl : List FixedBuffer) → is_piled_up wl ≡ false → written note wl ≡ joined wl
unfolding written
written-kept_up note wl h = rw h

wrote-Inv :
    (note : List ℕ) (a : AsyncLogging) (bytes : List ℕ)
    → Inv a bytes
    → a.writing ≡ true
    → (a' : AsyncLogging) × (write_out note a ≡ ok a') × Inv a' bytes
unfolding write_out joined
wrote-Inv note a bytes v w =
    let (gone1, gone2, enough) = v.busy w in
    let (rest, rest', r1, r2) = refills a.write_log a.new_buffer2 v.log_large gone2 enough in
    let r1' : refill a.new_buffer1 (take 2 a.write_log) ≡ ok (some fresh, rest) =
      ap (λ o. refill o (take 2 a.write_log)) gone1 ∙ r1 in
    (
      _,
      rw (r1', r2),
      record {
        large = v.large;
        all_large = v.all_large;
        log_large = tt;
        next_fresh = v.next_fresh;
        used_up = v.used_up;
        waiting = λ _. (refl, refl, refl);
        busy = λ (h : false ≡ true). absurd (false≢true h);
        nothing_lost = λ (d : a.discarded + given_up a.write_log ≡ 0).
            ap (λ t. (a.output ++ t) ++ (joined a.buffers ++ a.current.text))
              (written-kept_up note a.write_log (kept_up a.write_log (omega arith)))
            ∙ append_assoc a.output (joined a.write_log) (joined a.buffers ++ a.current.text)
            ∙ v.nothing_lost (omega arith);
      },
    )

first : {x y : AsyncLogging} → ok x ≡ ok y → x ≡ y
first e = cc

Reachable-Inv : {a : AsyncLogging} {bytes : List ℕ} → Reachable a bytes → Inv a bytes
unfolding start joined
Reachable-Inv started = record {
  large = refl;
  all_large = tt;
  log_large = tt;
  next_fresh = refl;
  used_up = omega arith;
  waiting = λ _. (refl, refl, refl);
  busy = λ h. cc;
  nothing_lost = λ _. refl;
}
Reachable-Inv (logged {a} {bytes} line r small) = logged-Inv a bytes line (Reachable-Inv r) small
Reachable-Inv (exchanged {a} {a'} {bytes} r w e) =
    let (_, e', v) = exchanged-Inv a bytes (Reachable-Inv r) w in
    subst (λ x. Inv x bytes) (first (sym e' ∙ e)) v
Reachable-Inv (wrote {a} {a'} {bytes} note r w e) =
    let (_, e', v) = wrote-Inv note a bytes (Reachable-Inv r) w in
    subst (λ x. Inv x bytes) (first (sym e' ∙ e)) v

-- However writers and the log thread interleave, no assertion of the thread fails, in either half of
-- its turn: there is always an empty buffer for the writers and one to spare.
pub turn-Reachable :
    {a : AsyncLogging} {bytes : List ℕ} (note : List ℕ)
    → Reachable a bytes
    → (a' : AsyncLogging) × ((if a.writing then write_out note a else exchange a) ≡ ok a')
      × Reachable a' bytes
turn-Reachable {a} {bytes} note r = by_half a.writing refl
  where
    by_half :
        (half : Bool)
        → a.writing ≡ half
        → (a' : AsyncLogging) × ((if half then write_out note a else exchange a) ≡ ok a')
          × Reachable a' bytes
    by_half true w =
        let (a', e, _) = wrote-Inv note a bytes (Reachable-Inv r) w in (a', e, wrote note r w e)
    by_half false w =
        let (a', e, _) = exchanged-Inv a bytes (Reachable-Inv r) w in (a', e, exchanged r w e)

-- As long as no buffer was given up for too many waiting, every byte that was logged is in the output
-- or in a buffer, once, in the order in which it was logged. Every line is shorter than a buffer of
-- 4,000,000 bytes.
pub logged_in_order :
    {a : AsyncLogging} {bytes : List ℕ}
    → Reachable a bytes
    → a.discarded ≡ 0
    → a.output ++ (joined a.write_log ++ (joined a.buffers ++ a.current.text)) ≡ bytes
logged_in_order r d = (Reachable-Inv r).nothing_lost d
