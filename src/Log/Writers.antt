-- ===== src/Log/Writers.antt =====
-- `append` of base/AsyncLogging.cpp, and the first half of a turn of its thread.
use cly_server.Base.{
  ℕ, ◌≤◌, ◌<◌, ◌≡◌, refl, sym, ap, subst, ◌∙◌, inl, inr, true, false, Bool-cases, Option, none,
  some, List, [], ◌∷◌, ◌++◌, append_assoc, append-nil, ltb, lt→ltb, length, length-append, All, ok,
  arith,
}
use cly_server.Log.{FixedBuffer, large_buffer, avail, append}
use cly_server.Log.Async.{
  AsyncLogging, fresh, spare, log, is_fresh, is_empty, refill_next, exchange_with, exchange, joined,
}
use cly_server.Log.Exchange.{IsFresh, IsFreshOrGone, IsLarge, missing, Inv}

joined-append : (xs ys : List FixedBuffer) → joined (xs ++ ys) ≡ joined xs ++ joined ys
unfolding joined
joined-append [] ys = refl
joined-append (x ∷ xs) ys =
    rw (joined-append xs ys) (sym (append_assoc x.text (joined xs) (joined ys)))

joined-back :
    (xs : List FixedBuffer) (b : FixedBuffer) (line : List ℕ)
    → joined (xs ++ b ∷ []) ++ line ≡ joined xs ++ (b.text ++ line)
unfolding joined
joined-back xs b line =
    ap (λ t. t ++ line) (joined-append xs (b ∷ []) ∙ ap (λ t. joined xs ++ t) (append-nil b.text))
    ∙ append_assoc (joined xs) b.text line

-- A line behind four parts is a line behind their whole.
regroup : (o w b c line : List ℕ) → o ++ (w ++ (b ++ (c ++ line))) ≡ (o ++ (w ++ (b ++ c))) ++ line
regroup o w b c line =
    ap (λ t. o ++ (w ++ t)) (sym (append_assoc b c line))
    ∙ ap (λ t. o ++ t) (sym (append_assoc w (b ++ c) line))
    ∙ sym (append_assoc o (w ++ (b ++ c)) line)

append-fits :
    (b : FixedBuffer) (line : List ℕ)
    → ltb (length line) (avail b) ≡ true
    → append b line ≡ record b { text = b.text ++ line }
unfolding append
append-fits b line h = rw h

append-fresh :
    (line : List ℕ) → length line < large_buffer → append fresh line ≡ record fresh { text = line }
unfolding avail
append-fresh line h = append-fits fresh line (lt→ltb (length line) large_buffer h)

spare-fresh : (o : Option FixedBuffer) → IsFreshOrGone o → spare o ≡ fresh
unfolding spare
spare-fresh none h = refl
spare-fresh (some b) h = h

log-fits :
    (a : AsyncLogging) (line : List ℕ)
    → ltb (length line) (avail a.current) ≡ true
    → log a line ≡ record a { current = record a.current { text = a.current.text ++ line } }
unfolding log
log-fits a line h = rw h (ap (λ b. record a { current = b }) (append-fits a.current line h))

log-full :
    (a : AsyncLogging) (line : List ℕ)
    → IsFreshOrGone a.next
    → length line < large_buffer
    → ltb (length line) (avail a.current) ≡ false
    → log a line ≡ record a {
      buffers = a.buffers ++ a.current ∷ [];
      current = record fresh { text = line };
      next = none;
    }
unfolding log
log-full a line n small h = rw h (
    ap (λ b. record a { buffers = a.buffers ++ a.current ∷ []; current = b; next = none })
      (ap (λ b. append b line) (spare-fresh a.next n) ∙ append-fresh line small))

All-back :
    (xs : List FixedBuffer) (b : FixedBuffer)
    → All IsLarge xs
    → IsLarge b
    → All IsLarge (xs ++ b ∷ [])
All-back [] b h k = (k, tt)
All-back (x ∷ xs) b (h, hs) k = (h, All-back xs b hs k)

pub logged-Inv :
    (a : AsyncLogging) (bytes line : List ℕ)
    → Inv a bytes
    → length line < large_buffer
    → Inv (log a line) (bytes ++ line)
logged-Inv a bytes line v small = elim (Bool-cases (ltb (length line) (avail a.current))) [
  | inl fits ↦
      subst (λ x. Inv x (bytes ++ line)) (sym (log-fits a line fits))
        (record {
          large = v.large;
          all_large = v.all_large;
          log_large = v.log_large;
          next_fresh = v.next_fresh;
          used_up = v.used_up;
          waiting = v.waiting;
          busy = v.busy;
          nothing_lost = λ d.
              regroup a.output (joined a.write_log) (joined a.buffers) a.current.text line
              ∙ ap (λ t. t ++ line) (v.nothing_lost d);
        })
  | inr full ↦
      subst (λ x. Inv x (bytes ++ line)) (sym (log-full a line v.next_fresh small full))
        (record {
          large = refl;
          all_large = All-back a.buffers a.current v.all_large v.large;
          log_large = v.log_large;
          next_fresh = tt;
          used_up = omega (arith, length-append a.buffers (a.current ∷ []));
          waiting = v.waiting;
          busy = v.busy;
          nothing_lost = λ d.
              ap (λ t. a.output ++ (joined a.write_log ++ t)) (joined-back a.buffers a.current line)
              ∙ regroup a.output (joined a.write_log) (joined a.buffers) a.current.text line
              ∙ ap (λ t. t ++ line) (v.nothing_lost d);
        })
]

is_fresh-some : (o : Option FixedBuffer) → IsFresh o → is_fresh o ≡ true
unfolding is_fresh
is_fresh-some o h = ap is_fresh h

is_empty-nil : (xs : List FixedBuffer) → xs ≡ [] → is_empty xs ≡ true
unfolding is_empty
is_empty-nil xs h = ap is_empty h

exchange_with-some :
    (a : AsyncLogging)
    → IsFresh a.new_buffer1
    → exchange_with a a.new_buffer1 ≡ exchange_with a (some fresh)
exchange_with-some a h = ap (exchange_with a) h

-- A turn begins with its assertions met.
exchange-ok :
    (a : AsyncLogging)
    → IsFresh a.new_buffer1
    → IsFresh a.new_buffer2
    → a.write_log ≡ []
    → exchange a
      ≡ ok (record a {
        write_log = a.buffers ++ a.current ∷ [];
        buffers = [];
        current = fresh;
        new_buffer1 = none;
        next = (refill_next a.next a.new_buffer2).0;
        new_buffer2 = (refill_next a.next a.new_buffer2).1;
        writing = true;
      })
unfolding exchange
exchange-ok a f1 f2 e =
    rw (is_fresh-some a.new_buffer1 f1, is_fresh-some a.new_buffer2 f2, is_empty-nil a.write_log e)
      (exchange_with-some a f1 ∙ (unfold exchange_with in refl))

next_fresh-refill :
    (n m : Option FixedBuffer) → IsFreshOrGone n → IsFresh m → (refill_next n m).0 ≡ some fresh
unfolding refill_next
next_fresh-refill none m h k = k
next_fresh-refill (some b) m h k = ap some h

rest-refill :
    (n m : Option FixedBuffer)
    → IsFresh m
    → IsFreshOrGone (refill_next n m).1 × (missing (refill_next n m).1 ≤ missing n)
unfolding refill_next
rest-refill none m k = (tt, omega arith)
rest-refill (some b) m k =
    subst (λ o. IsFreshOrGone o × (missing o ≤ 0)) (sym k) (refl, omega arith)

taken_over :
    (a : AsyncLogging)
    → a.write_log ≡ []
    → a.output ++ (joined (a.buffers ++ a.current ∷ []) ++ (joined [] ++ []))
      ≡ a.output ++ (joined a.write_log ++ (joined a.buffers ++ a.current.text))
unfolding joined
taken_over a e =
    ap (λ t. a.output ++ t)
      (joined-back a.buffers a.current []
        ∙ ap (λ t. joined a.buffers ++ t) (append-nil a.current.text)
        ∙ sym (ap (λ t. t ++ (joined a.buffers ++ a.current.text)) (ap joined e)))

pub exchanged-Inv :
    (a : AsyncLogging) (bytes : List ℕ)
    → Inv a bytes
    → a.writing ≡ false
    → (a' : AsyncLogging) × (exchange a ≡ ok a') × Inv a' bytes
exchanged-Inv a bytes v w =
    let (f1, f2, e) = v.waiting w in
    let refilled = next_fresh-refill a.next a.new_buffer2 v.next_fresh f2 in
    let (gone, m) = rest-refill a.next a.new_buffer2 f2 in
    (
      _,
      exchange-ok a f1 f2 e,
      record {
        large = refl;
        all_large = tt;
        log_large = All-back a.buffers a.current v.all_large v.large;
        next_fresh = subst IsFreshOrGone (sym refilled) refl;
        used_up = omega (arith, ap missing refilled);
        waiting = λ h. cc;
        busy = λ _.
            (refl, gone, omega (arith, m, v.used_up, length-append a.buffers (a.current ∷ [])));
        nothing_lost = λ d. taken_over a e ∙ v.nothing_lost d;
      },
    )
