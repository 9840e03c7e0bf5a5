-- ===== src/Log.antt =====
-- base/LogStream.h and base/LogStream.cpp: the fixed buffer of a log line and what is printed to it.
pub mod Numbers
pub mod Bounds
pub mod Fits
pub mod Async
pub mod Exchange
pub mod Writers
pub mod Turns
mod Examples
use mathlib.Core.List.{reverse}
use cly_server.Base.{
  ℕ, zero, suc, ◌+◌, ◌-◌, ◌*◌, ◌/◌, ◌%◌, ◌<◌, Bool, true, false, List, [], ◌∷◌, ◌++◌, ltb, leb,
  ◌==◌, if◌then◌else◌, length, get_or, codes,
}
use cly_server.Base.Int.{ℤ, pos, negsuc}

-- `FixedBuffer<SIZE>`: the bytes up to `cur_`.
pub record FixedBuffer : Type 0 where
  pub size : ℕ
  pub text : List ℕ

abbrev pub small_buffer : ℕ
small_buffer = 4000

abbrev pub large_buffer : ℕ
large_buffer = 4000 * 1000

unfoldable pub new : ℕ → FixedBuffer
new size = record { size = size; text = [] }

unfoldable pub avail : FixedBuffer → ℕ
avail b = b.size - length b.text

-- What does not fit is dropped as a whole; the last byte is never used.
unfoldable pub append : FixedBuffer → List ℕ → FixedBuffer
append b buf = if ltb (length buf) (avail b) then record b { text = b.text ++ buf } else b

unfoldable pub reset : FixedBuffer → FixedBuffer
reset b = record b { text = [] }

-- The table of digits is read at 9 + lsd, where lsd = i % 10 of C++, which has the sign of i.
abbrev pub digits : List ℕ
digits = codes "9876543210123456789"

abbrev pub digits_hex : List ℕ
digits_hex = codes "0123456789ABCDEF"

-- The loop of `convert` on i and the sign of its remainders: the digits from the last. The fuel
-- bounds the number of digits.
unfoldable pub digits_up : ℕ → Bool → ℕ → List ℕ
digits_up zero negative i = []
digits_up (suc fuel) negative i =
    let rest = digits_up fuel negative (i / 10) in
    get_or digits (if negative then 9 - i % 10 else 9 + i % 10) 0
    ∷ (if i / 10 == 0 then [] else rest)

-- `convert`: a 64-bit number has at most 20 digits.
unfoldable pub convert : ℤ → List ℕ
convert (pos n) = reverse (digits_up 20 false n)
convert (negsuc n) = reverse (digits_up 20 true (suc n) ++ b'-' ∷ [])

unfoldable pub hex_up : ℕ → ℕ → List ℕ
hex_up zero i = []
hex_up (suc fuel) i =
    let rest = hex_up fuel (i / 16) in
    get_or digits_hex (i % 16) 0 ∷ (if i / 16 == 0 then [] else rest)

unfoldable pub convert_hex : ℕ → List ℕ
convert_hex value = reverse (hex_up 16 value)

abbrev pub max_numeric_size : ℕ
max_numeric_size = 48

-- `formatInteger`, which every integer type goes to.
unfoldable pub format_integer : FixedBuffer → ℤ → FixedBuffer
format_integer b v =
    if leb max_numeric_size (avail b) then record b { text = b.text ++ convert v } else b

unfoldable pub format_pointer : FixedBuffer → ℕ → FixedBuffer
format_pointer b p =
    if leb max_numeric_size (avail b)
    then record b { text = b.text ++ (codes "0x" ++ convert_hex p) }
    else b

unfoldable pub format_bool : FixedBuffer → Bool → FixedBuffer
format_bool b v = append b (if v then codes "1" else codes "0")
