-- ===== src/ProcessInfo/Counts.antt =====
-- What base/ProcessInfo.cpp counts: threads by the text of /proc/self/status, and open files.
use native.Mathlib.Nat.{mod-eq_of_lt}
use cly_server.Base.{
  ℕ, zero, suc, ◌+◌, ◌-◌, ◌*◌, ◌/◌, ◌%◌, ◌^◌, ◌≤◌, ◌<◌, ◌≡◌, refl, sym, ap, subst, ◌∙◌, true, false,
  Bool-cases, inl, inr, some, List, [], ◌∷◌, ◌++◌, ◌==◌, All, min, ltb, if◌then◌else◌, codes, arith,
}
use cly_server.Base.Int.{pos, negsuc}
use cly_server.Base.Decimal.{digits_onto, decimal, value_onto, value_onto-decimal}
use cly_server.ProcessInfo.{
  as_int, positive, is_digit, is_space, atoi, atoi_sign, atoi_digits, is_prefix, from_found,
  thread_count, num_threads,
}

abbrev pub IsNumeral : List ℕ → Type 0
IsNumeral = All (λ b. is_digit b ≡ true)

digit-is_digit : (d : ℕ) → d < 10 → is_digit (b'0' + d) ≡ true
unfolding is_digit
digit-is_digit d h = ground arith

digits_onto-IsNumeral :
    (fuel n : ℕ) (acc : List ℕ) → IsNumeral acc → IsNumeral (digits_onto fuel n acc)
unfolding digits_onto
digits_onto-IsNumeral zero n acc h = h
digits_onto-IsNumeral (suc fuel) n acc h =
    let here = digit-is_digit (n % 10) (omega arith) in
    elim (Bool-cases (n / 10 == 0)) [
      | inl last ↦ rw last (here, h)
      | inr more ↦ rw more (digits_onto-IsNumeral fuel (n / 10) ((b'0' + n % 10) ∷ acc) (here, h))
    ]

decimal-IsNumeral : (n : ℕ) → IsNumeral (decimal n)
unfolding decimal
decimal-IsNumeral n = digits_onto-IsNumeral (suc n) n [] tt

-- A numeral is read up to the byte behind it.
atoi_digits-numeral :
    (ds : List ℕ) (acc b : ℕ) (rest : List ℕ)
    → IsNumeral ds
    → is_digit b ≡ false
    → atoi_digits acc (ds ++ b ∷ rest) ≡ value_onto acc ds
unfolding atoi_digits
atoi_digits-numeral [] acc b rest h e = rw e refl
atoi_digits-numeral (d ∷ ds) acc b rest (h, hs) e =
    rw h (atoi_digits-numeral ds (10 * acc + (d - b'0')) b rest hs e)

-- A numeral that is not empty, behind any white space.
atoi-numeral :
    (d : ℕ) (ds : List ℕ) (b : ℕ) (rest : List ℕ)
    → IsNumeral (d ∷ ds)
    → is_digit b ≡ false
    → atoi (d ∷ ds ++ b ∷ rest) ≡ positive (value_onto 0 (d ∷ ds))
unfolding atoi atoi_sign is_space is_digit
atoi-numeral d ds b rest h e =
    let (low, high) = in_range h.0 in
    rw (no_space low high, no_minus low, no_plus low)
      (ap positive (atoi_digits-numeral (d ∷ ds) 0 b rest h e))
  where
    in_range : is_digit d ≡ true → (b'0' ≤ d) × (d ≤ b'9')
    in_range g = ground arith

    no_space : b'0' ≤ d → d ≤ b'9' → is_space d ≡ false
    no_space low high = ground arith

    no_minus : b'0' ≤ d → (d == b'-') ≡ false
    no_minus low = ground arith

    no_plus : b'0' ≤ d → (d == b'+') ≡ false
    no_plus low = ground arith

-- A numeral has a first digit.
digits_onto-cons :
    (fuel n x : ℕ) (acc : List ℕ)
    → (d : ℕ) × (ds : List ℕ) × (digits_onto fuel n (x ∷ acc) ≡ d ∷ ds)
unfolding digits_onto
digits_onto-cons zero n x acc = (x, acc, refl)
digits_onto-cons (suc fuel) n x acc = elim (Bool-cases (n / 10 == 0)) [
  | inl last ↦ (b'0' + n % 10, x ∷ acc, rw last refl)
  | inr more ↦
      let (d, ds, e) = digits_onto-cons fuel (n / 10) (b'0' + n % 10) (x ∷ acc) in
      (d, ds, rw more e)
]

decimal-cons : (n : ℕ) → (d : ℕ) × (ds : List ℕ) × (decimal n ≡ d ∷ ds)
unfolding decimal digits_onto
decimal-cons n = elim (Bool-cases (n / 10 == 0)) [
  | inl last ↦ (b'0' + n % 10, [], rw last refl)
  | inr more ↦ let (d, ds, e) = digits_onto-cons n (n / 10) (b'0' + n % 10) [] in (d, ds, rw more e)
]

-- A number that an `int` holds is kept.
positive-small : (n : ℕ) → n < 2 ^ 31 → positive n ≡ pos n
unfolding positive as_int
positive-small n h =
    ap as_int min_small
    ∙ ap (λ low. if ltb low (2 ^ 31) then pos low else negsuc (2 ^ 32 - 1 - low)) low
    ∙ fits
  where
    min_small : min n (2 ^ 63 - 1) ≡ n
    min_small = ground arith

    low : n % 2 ^ 32 ≡ n
    low = mod-eq_of_lt (omega (arith, h))

    fits : (if ltb n (2 ^ 31) then pos n else negsuc (2 ^ 32 - 1 - n)) ≡ pos n
    fits = ground arith

atoi-decimal :
    (n b : ℕ) (rest : List ℕ)
    → n < 2 ^ 31
    → is_digit b ≡ false
    → atoi (decimal n ++ b ∷ rest) ≡ pos n
atoi-decimal n b rest small e =
    let (d, ds, c) = decimal-cons n in
    ap (λ t. atoi (t ++ b ∷ rest)) c
    ∙ atoi-numeral d ds b rest (subst IsNumeral c (decimal-IsNumeral n)) e
    ∙ ap (λ t. positive (value_onto 0 t)) (sym c)
    ∙ ap positive (value_onto-decimal n)
    ∙ positive-small n small

-- The text stands nowhere before the place where it is looked for.
abbrev pub Absent : List ℕ → List ℕ → List ℕ → Type 0
Absent needle [] rest = Unit
Absent needle (b ∷ bs) rest = (is_prefix needle (b ∷ bs ++ rest) ≡ false) × Absent needle bs rest

from_found-here :
    (needle before rest : List ℕ)
    → Absent needle before rest
    → is_prefix needle rest ≡ true
    → from_found needle (before ++ rest) ≡ some rest
unfolding from_found
from_found-here needle [] [] a e = rw e refl
from_found-here needle [] (r ∷ rs) a e = rw e refl
from_found-here needle (b ∷ bs) rest (ne, a) e = rw ne (from_found-here needle bs rest a e)

-- The number of threads is the numeral behind the first "Threads:" of the status, and a tabulator,
-- if an `int` holds it.
pub num_threads-status :
    (before : List ℕ) (n : ℕ) (after : List ℕ)
    → n < 2 ^ 31
    → Absent (codes "Threads:") before (codes "Threads:" ++ (9 ∷ decimal n ++ b'\n' ∷ after))
    → num_threads (before ++ (codes "Threads:" ++ (9 ∷ decimal n ++ b'\n' ∷ after))) ≡ pos n
unfolding num_threads thread_count is_prefix atoi is_space is_digit
num_threads-status before n after small a =
    ap thread_count (
      from_found-here (codes "Threads:") before
        (codes "Threads:" ++ (9 ∷ decimal n ++ b'\n' ∷ after)) a refl)
    ∙ atoi-decimal n b'\n' after small refl
