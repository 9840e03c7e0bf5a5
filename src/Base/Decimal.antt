-- ===== src/Base/Decimal.antt =====
-- The decimal digits that `printf` writes for a natural number.
use Prim.Native.Nat.{ℕ, zero, suc, ◌+◌, ◌-◌, ◌*◌, ◌/◌, ◌%◌, ◌^◌, ◌<◌, ◌≤◌}
use native.Mathlib.Nat.{pow-suc}
use native.Mathlib.Omega.{arith}
use mathlib.Core.Path.{◌≡◌, ap, ◌∙◌}
use mathlib.Core.Logic.{inl, inr}
use mathlib.Core.Bool.{false}
use mathlib.Core.List.{List, [], ◌∷◌}
use cly_server.Base.Tests.{◌==◌, if◌then◌else◌, Bool-cases}
use cly_server.Base.Lists.{length}

-- The digits before `acc`; a number below 10 ^ fuel has no more of them than fuel.
unfoldable pub digits_onto : ℕ → ℕ → List ℕ → List ℕ
digits_onto zero n acc = acc
digits_onto (suc fuel) n acc =
    let more = digits_onto fuel (n / 10) ((b'0' + n % 10) ∷ acc) in
    if n / 10 == 0 then (b'0' + n % 10) ∷ acc else more

unfoldable pub decimal : ℕ → List ℕ
unfolding digits_onto
decimal n = digits_onto (suc n) n []

-- The value of a numeral, from the first digit on, behind one of a given value.
abbrev pub value_onto : ℕ → List ℕ → ℕ
value_onto acc [] = acc
value_onto acc (d ∷ ds) = value_onto (10 * acc + (d - b'0')) ds

value_onto-digits_onto :
    (fuel n : ℕ) (acc : List ℕ)
    → n < fuel
    → value_onto 0 (digits_onto fuel n acc) ≡ value_onto n acc
unfolding digits_onto
value_onto-digits_onto zero n acc h = absurd (omega arith)
value_onto-digits_onto (suc fuel) n acc h = elim (Bool-cases (n / 10 == 0)) [
  | inl last ↦
      rw last
        (ap (λ k. value_onto k acc) {x = 10 * 0 + ((b'0' + n % 10) - b'0')} {y = n} (ground arith))
  | inr more ↦ rw more (
      value_onto-digits_onto fuel (n / 10) ((b'0' + n % 10) ∷ acc) (ground arith)
      ∙ ap (λ k. value_onto k acc) {x = 10 * (n / 10) + ((b'0' + n % 10) - b'0')} {y = n}
          (omega arith))
]

-- A decimal numeral has its number for a value, so different numbers have different numerals.
pub value_onto-decimal : (n : ℕ) → value_onto 0 (decimal n) ≡ n
unfolding decimal
value_onto-decimal n = value_onto-digits_onto (suc n) n [] (omega arith)

pub length-digits_onto :
    (fuel k n : ℕ) (acc : List ℕ)
    → n < 10 ^ suc k
    → length (digits_onto fuel n acc) ≤ suc k + length acc
unfolding digits_onto
length-digits_onto zero k n acc h = omega arith
length-digits_onto (suc fuel) zero n acc h = elim (Bool-cases (n / 10 == 0)) [
  | inl last ↦ rw last (omega arith)
  | inr more ↦ absurd (not_short more)
]
  where
    not_short : (n / 10 == 0) ≡ false → ⊥
    not_short more = ground arith
length-digits_onto (suc fuel) (suc k) n acc h = elim (Bool-cases (n / 10 == 0)) [
  | inl last ↦ rw last (omega arith)
  | inr more ↦
      let small : n / 10 < 10 ^ suc k = omega (arith, pow-suc 10 (suc k)) in
      rw more (omega (arith, length-digits_onto fuel k (n / 10) ((b'0' + n % 10) ∷ acc) small))
]
