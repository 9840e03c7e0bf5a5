-- ===== src/Timestamp/Seconds.antt =====
-- Seconds and microseconds of base/Timestamp.h, and their text.
use cly_server.Base.{
  ℕ, zero, suc, ◌+◌, ◌-◌, ◌*◌, ◌/◌, ◌≤◌, ◌<◌, ◌≡◌, ◌↔◌, ◌⊎◌, refl, ap₂, ◌∙◌, true, List, [], ◌∷◌,
  ◌++◌, ltb, ltb→lt, lt→ltb, length, replicate, length-append, length-replicate, inl, inr, dec_lt,
  arith,
}
use cly_server.Base.Decimal.{decimal, value_onto, value_onto-decimal, length-digits_onto}
use cly_server.Timestamp.{
  micro_seconds_per_second, seconds_since_epoch, from_unix_time, is_before, padded, to_string,
}

value_onto-zeros : (k : ℕ) (ds : List ℕ) → value_onto 0 (replicate k b'0' ++ ds) ≡ value_onto 0 ds
value_onto-zeros zero ds = refl
value_onto-zeros (suc k) ds = value_onto-zeros k ds

length-decimal : (n : ℕ) → n < 1_000_000 → length (decimal n) ≤ 6
unfolding decimal
length-decimal n h = omega (arith, length-digits_onto (suc n) 5 n [] h)

abbrev zero_digit : ℕ
zero_digit = b'0'

length-padded : (n : ℕ) → n < 1_000_000 → length (padded n) ≡ 6
unfolding padded
length-padded n h = omega (
  arith,
  length-decimal n h,
  length-append (replicate (6 - length (decimal n)) b'0') (decimal n),
  length-replicate (6 - length (decimal n)) zero_digit,
)

-- A time that is made of seconds and of less than a second of microseconds gives both back: the
-- seconds as a number, and both in its text, where a point stands between them and the microseconds
-- have six digits.
pub to_string-from_unix_time :
    (t microseconds : ℕ)
    → microseconds < micro_seconds_per_second
    → (seconds_since_epoch (from_unix_time t microseconds) ≡ t)
      × (to_string (from_unix_time t microseconds) ≡ decimal t ++ (b'.' ∷ padded microseconds))
      × (value_onto 0 (decimal t) ≡ t)
      × (value_onto 0 (padded microseconds) ≡ microseconds)
      × (length (padded microseconds) ≡ 6)
unfolding seconds_since_epoch from_unix_time to_string padded
to_string-from_unix_time t m h = (
  omega arith,
  ap₂ (λ s u. decimal s ++ (b'.' ∷ padded u))
      {x = (t * micro_seconds_per_second + m) / micro_seconds_per_second} (omega arith)
      (omega arith),
  value_onto-decimal t,
  value_onto-zeros (6 - length (decimal m)) (decimal m) ∙ value_onto-decimal m,
  length-padded m h,
)

-- One time is before another exactly if its second is, or it is in the same second and its
-- microsecond is.
pub is_before-from_unix_time :
    (t u m n : ℕ)
    → m < micro_seconds_per_second
    → n < micro_seconds_per_second
    → (is_before (from_unix_time t m) (from_unix_time u n) ≡ true) ↔ ((t < u) ⊎ ((t ≡ u) × (m < n)))
unfolding is_before from_unix_time
is_before-from_unix_time t u m n hm hn = (there, back)
  where
    there :
        ltb (t * micro_seconds_per_second + m) (u * micro_seconds_per_second + n) ≡ true
        → (t < u) ⊎ ((t ≡ u) × (m < n))
    there e =
        let lt = ltb→lt _ _ e in
        elim (dec_lt t u) [ yes before ↦ inl before | no same ↦ inr (omega arith, omega arith) ]

    back :
        (t < u) ⊎ ((t ≡ u) × (m < n))
        → ltb (t * micro_seconds_per_second + m) (u * micro_seconds_per_second + n) ≡ true
    back (inl lt) = lt→ltb _ _ (omega arith)
    back (inr (e, lt)) = lt→ltb _ _ (omega arith)
