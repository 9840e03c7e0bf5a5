-- ===== src/StringPiece.antt =====
-- base/StringPiece.h: a view of bytes that are somewhere else.
pub mod Order
pub mod Prefix
mod Examples
use cly_server.Base.{
  ℕ, zero, suc, ◌-◌, Bool, true, false, not, ◌&&◌, ◌||◌, Option, none, some, List, [], ◌∷◌, ltb,
  leb, ◌==◌, if◌then◌else◌, length, get_elem?, take, Result, ok, fault, out_of_range,
}

-- `ptr_` is the memory from there on. The length is no less than 0; it may be more than there is.
pub record StringPiece : Type 0 where
  pub ptr : List ℕ
  pub size : ℕ

-- What `memcmp` and `compare` return, of which only the sign is used.
pub data Sign : Type 0 where
  less equal greater : Sign

-- The bytes up to the zero byte that ends a text.
unfoldable pub strlen : List ℕ → ℕ
strlen [] = 0
strlen (b ∷ bs) = let rest = strlen bs in if b == 0 then 0 else suc rest

unfoldable pub empty_piece : StringPiece
empty_piece = record { ptr = []; size = 0 }

unfoldable pub from_text : List ℕ → StringPiece
from_text str = record { ptr = str; size = strlen str }

unfoldable pub from_buffer : List ℕ → ℕ → StringPiece
from_buffer offset len = record { ptr = offset; size = len }

unfoldable pub is_empty : StringPiece → Bool
is_empty x = x.size == 0

unfoldable pub clear : StringPiece → StringPiece
clear x = empty_piece

unfoldable pub set_buffer : StringPiece → List ℕ → ℕ → StringPiece
set_buffer x buffer len = record x { ptr = buffer; size = len }

unfoldable pub set_text : StringPiece → List ℕ → StringPiece
set_text x str = record x { ptr = str; size = strlen str }

-- `operator[]`, which does not look at the length.
unfoldable pub char_at : StringPiece → ℕ → Option ℕ
char_at x i = get_elem? x.ptr i

-- More than there is would leave a length below 0.
unfoldable pub remove_prefix : StringPiece → ℕ → Result StringPiece
remove_prefix x n = if leb n x.size then ok (record x { size = x.size - n }) else fault out_of_range

unfoldable pub sign_of : ℕ → ℕ → Sign → Sign
sign_of a b rest = if ltb a b then less else if ltb b a then greater else rest

-- The first n bytes as unsigned numbers. Past the end of an object nothing is said to differ.
unfoldable pub memcmp : List ℕ → List ℕ → ℕ → Sign
memcmp xs ys zero = equal
memcmp [] ys (suc n) = equal
memcmp (x ∷ xs) [] (suc n) = equal
memcmp (x ∷ xs) (y ∷ ys) (suc n) = sign_of x y (memcmp xs ys n)

unfoldable pub is_equal : Sign → Bool
is_equal equal = true
is_equal _ = false

unfoldable pub is_less : Sign → Bool
is_less less = true
is_less _ = false

unfoldable pub is_greater : Sign → Bool
is_greater greater = true
is_greater _ = false

-- `length_ < x.length_ ? length_ : x.length_`.
unfoldable pub shorter : StringPiece → StringPiece → ℕ
shorter x y = if ltb x.size y.size then x.size else y.size

unfoldable pub equals : StringPiece → StringPiece → Bool
equals x y = x.size == y.size && is_equal (memcmp x.ptr y.ptr x.size)

unfoldable pub differs : StringPiece → StringPiece → Bool
differs x y = not (equals x y)

-- STRINGPIECE_BINARY_PREDICATE, at its four uses.
unfoldable pub lt : StringPiece → StringPiece → Bool
lt x y = let r = memcmp x.ptr y.ptr (shorter x y) in is_less r || (is_equal r && ltb x.size y.size)

unfoldable pub le : StringPiece → StringPiece → Bool
le x y = let r = memcmp x.ptr y.ptr (shorter x y) in is_less r || (is_equal r && leb x.size y.size)

unfoldable pub ge : StringPiece → StringPiece → Bool
ge x y =
    let r = memcmp x.ptr y.ptr (shorter x y) in is_greater r || (is_equal r && leb y.size x.size)

unfoldable pub gt : StringPiece → StringPiece → Bool
gt x y =
    let r = memcmp x.ptr y.ptr (shorter x y) in is_greater r || (is_equal r && ltb y.size x.size)

unfoldable pub compare_pieces : StringPiece → StringPiece → Sign
compare_pieces x y =
    let r = memcmp x.ptr y.ptr (shorter x y) in if is_equal r then sign_of x.size y.size r else r

unfoldable pub as_string : StringPiece → List ℕ
as_string x = take x.size x.ptr

unfoldable pub copy_to_string : StringPiece → List ℕ
copy_to_string x = take x.size x.ptr

unfoldable pub starts_with : StringPiece → StringPiece → Bool
starts_with x y = leb y.size x.size && is_equal (memcmp x.ptr y.ptr y.size)
