-- ===== src/Base/Fault.antt =====
-- What ends a call of the program early: a failed `assert`, a length that `std::vector` refuses, or
-- what C++ leaves undefined, an access out of range, one through a null pointer or of an object
-- that is gone, and a sum that an `int` does not hold; an exception that nothing catches; or
-- `abort`, by which a log message of level FATAL ends.
use mathlib.Core.Bool.{Bool, true, false}

pub data Fault : Type 0 where
  assert_failed length_error out_of_range null_pointer aborted overflow future_error : Fault

pub data Result {ℓ} (A : Type ℓ) : Type ℓ where
  ok : A → Result A
  fault : Fault → Result A

infixl 5 ◌>>=◌ ◌>>◌
abbrev pub ◌>>=◌ {ℓ κ} : {A : Type ℓ} {B : Type κ} → Result A → (A → Result B) → Result B
ok a >>= f = f a
fault e >>= f = fault e

abbrev pub ◌>>◌ {ℓ} : {B : Type ℓ} → Result (Unit {0}) → Result B → Result B
m >> k = m >>= λ _. k

-- The macro `assert`, as in a build without NDEBUG.
abbrev pub assert : Bool → Result (Unit {0})
assert true = ok tt
assert false = fault assert_failed
