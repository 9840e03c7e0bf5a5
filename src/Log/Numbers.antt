-- ===== src/Log/Numbers.antt =====
-- `convert` of base/LogStream.cpp against the reading of a numeral.
use mathlib.Core.List.{reverse, reverse_aux, reverse_aux-append}
use cly_server.Base.{
  ℕ, zero, suc, ◌+◌, ◌-◌, ◌*◌, ◌/◌, ◌%◌, ◌^◌, ◌≤◌, ◌<◌, ◌≡◌, ◌≢◌, refl, ap, ◌∙◌, Bool, true, false,
  Bool-cases, inl, inr, List, [], ◌∷◌, ◌++◌, ◌==◌, if◌then◌else◌, length, length-append, get_or,
  All, arith,
}
use native.Mathlib.Nat.{pow-suc}
use cly_server.Base.Decimal.{value_onto}
use cly_server.Base.Int.{ℤ, pos, negsuc}
use cly_server.Log.{digits, digits_up, convert}

abbrev pub minus : ℕ → ℤ
minus zero = pos zero
minus (suc n) = negsuc n

abbrev pub magnitude : ℤ → ℕ
magnitude (pos n) = n
magnitude (negsuc n) = suc n

-- The number that a reader takes a text for.
pub read : List ℕ → ℤ
read [] = pos 0
read (c ∷ cs) = if c == b'-' then minus (value_onto 0 cs) else pos (value_onto 0 (c ∷ cs))

-- The same from the last digit on.
value_up : List ℕ → ℕ
value_up [] = 0
value_up (d ∷ ds) = (d - b'0') + 10 * value_up ds

digit_above : (r : ℕ) → r < 10 → get_or digits (9 + r) 0 ≡ b'0' + r
digit_above zero h = refl
digit_above (suc zero) h = refl
digit_above (suc (suc zero)) h = refl
digit_above (suc (suc (suc zero))) h = refl
digit_above (suc (suc (suc (suc zero)))) h = refl
digit_above (suc (suc (suc (suc (suc zero))))) h = refl
digit_above (suc (suc (suc (suc (suc (suc zero)))))) h = refl
digit_above (suc (suc (suc (suc (suc (suc (suc zero))))))) h = refl
digit_above (suc (suc (suc (suc (suc (suc (suc (suc zero)))))))) h = refl
digit_above (suc (suc (suc (suc (suc (suc (suc (suc (suc zero))))))))) h = refl
digit_above (suc (suc (suc (suc (suc (suc (suc (suc (suc (suc r)))))))))) h = absurd (omega arith)

digit_below : (r : ℕ) → r < 10 → get_or digits (9 - r) 0 ≡ b'0' + r
digit_below zero h = refl
digit_below (suc zero) h = refl
digit_below (suc (suc zero)) h = refl
digit_below (suc (suc (suc zero))) h = refl
digit_below (suc (suc (suc (suc zero)))) h = refl
digit_below (suc (suc (suc (suc (suc zero))))) h = refl
digit_below (suc (suc (suc (suc (suc (suc zero)))))) h = refl
digit_below (suc (suc (suc (suc (suc (suc (suc zero))))))) h = refl
digit_below (suc (suc (suc (suc (suc (suc (suc (suc zero)))))))) h = refl
digit_below (suc (suc (suc (suc (suc (suc (suc (suc (suc zero))))))))) h = refl
digit_below (suc (suc (suc (suc (suc (suc (suc (suc (suc (suc r)))))))))) h = absurd (omega arith)

-- The digit of a remainder, whatever its sign.
digit :
    (negative : Bool) (i : ℕ)
    → get_or digits (if negative then 9 - i % 10 else 9 + i % 10) 0 ≡ b'0' + i % 10
digit true i = digit_below (i % 10) (omega arith)
digit false i = digit_above (i % 10) (omega arith)

pow_big : (fuel : ℕ) → 1 < 10 ^ fuel → 0 < fuel
pow_big zero h = absurd (omega arith)
pow_big (suc fuel) h = omega arith

-- Every digit is one, there are at most as many as the fuel, and they stand for the number.
digits_up_lem :
    (fuel : ℕ) (negative : Bool) (i : ℕ)
    → i < 10 ^ fuel
    → 0 < fuel
    → All (λ d. b'0' ≤ d) (digits_up fuel negative i)
      × (length (digits_up fuel negative i) ≤ fuel)
      × (digits_up fuel negative i ≢ [])
      × (value_up (digits_up fuel negative i) ≡ i)
unfolding digits_up value_up
digits_up_lem zero negative i small some_fuel = absurd (omega arith)
digits_up_lem (suc fuel) negative i small some_fuel = elim (Bool-cases (i / 10 == 0)) [
  | inl last ↦ rw (last, digit negative i) ((omega arith, tt), omega arith, (λ h. cc), ground arith)
  | inr more ↦
      let lt : i / 10 < 10 ^ fuel = omega (arith, pow-suc 10 fuel) in
      let (a, l, n, v) = digits_up_lem fuel negative (i / 10) lt (pow_big fuel (ground arith)) in
      rw (more, digit negative i) ((omega arith, a), omega arith, (λ h. cc), omega (arith, v))
]

value_onto-reverse_aux :
    (ds r : List ℕ) → value_onto 0 (reverse_aux ds r) ≡ value_onto (value_up ds) r
unfolding value_up
value_onto-reverse_aux [] r = refl
value_onto-reverse_aux (d ∷ ds) r =
    value_onto-reverse_aux ds (d ∷ r)
    ∙ ap (λ n. value_onto n r) {x = 10 * value_up ds + (d - b'0')}
        {y = (d - b'0') + 10 * value_up ds} (omega arith)

All-reverse_aux :
    (ds r : List ℕ)
    → All (λ d. b'0' ≤ d) ds
    → All (λ d. b'0' ≤ d) r
    → All (λ d. b'0' ≤ d) (reverse_aux ds r)
All-reverse_aux [] r a b = b
All-reverse_aux (d ∷ ds) r (h, a) b = All-reverse_aux ds (d ∷ r) a (h, b)

pub length-reverse_aux : (ds r : List ℕ) → length (reverse_aux ds r) ≡ length ds + length r
length-reverse_aux [] r = omega arith
length-reverse_aux (d ∷ ds) r = omega (arith, length-reverse_aux ds (d ∷ r))

read-digits : (ds : List ℕ) → All (λ d. b'0' ≤ d) ds → read ds ≡ pos (value_onto 0 ds)
unfolding read
read-digits [] a = refl
read-digits (d ∷ ds) (h, a) = ground arith

read-minus : (ds : List ℕ) → read (b'-' ∷ ds) ≡ minus (value_onto 0 ds)
unfolding read
read-minus ds = refl

-- What `convert` prints for a number of at most 20 digits, which covers 64 bits, of either sign and
-- the least one too, is read as that number; it is never more than 21 characters.
pub read-convert :
    (v : ℤ) → magnitude v < 10 ^ 20 → (read (convert v) ≡ v) × (length (convert v) ≤ 21)
unfolding convert
read-convert (pos n) small =
    let (a, l, _, v) = digits_up_lem 20 false n small (omega arith) in
    (
      read-digits (reverse (digits_up 20 false n)) (All-reverse_aux (digits_up 20 false n) [] a tt)
          ∙ ap pos (value_onto-reverse_aux (digits_up 20 false n) [] ∙ v),
      omega (arith, length-reverse_aux (digits_up 20 false n) []),
    )
read-convert (negsuc n) small =
    let (a, l, _, v) = digits_up_lem 20 true (suc n) small (omega arith) in
    (
      ap read (reverse_aux-append (digits_up 20 true (suc n)) (b'-' ∷ []) [])
          ∙ read-minus (reverse_aux (digits_up 20 true (suc n)) [])
          ∙ ap minus (value_onto-reverse_aux (digits_up 20 true (suc n)) [] ∙ v),
      omega (
        arith,
        length-reverse_aux (digits_up 20 true (suc n) ++ b'-' ∷ []) [],
        length-append (digits_up 20 true (suc n)) (b'-' ∷ []),
      ),
    )
