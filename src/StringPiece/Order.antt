-- ===== src/StringPiece/Order.antt =====
-- The order of the texts behind base/StringPiece.h.
use cly_server.Base.{
  ℕ, zero, suc, ◌≤◌, ◌≡◌, refl, ap, ◌∙◌, not, List, [], ◌∷◌, ltb, if◌then◌else◌, length, take,
  arith,
}
use cly_server.StringPiece.{
  StringPiece, Sign, less, equal, greater, sign_of, memcmp, is_equal, is_less, is_greater, shorter,
  lt, le, ge, gt, compare_pieces, as_string,
}

-- The order of a dictionary.
abbrev pub lex : List ℕ → List ℕ → Sign
lex [] [] = equal
lex [] (y ∷ ys) = less
lex (x ∷ xs) [] = greater
lex (x ∷ xs) (y ∷ ys) = sign_of x y (lex xs ys)

-- The bytes are there.
abbrev pub IsView : StringPiece → Type 0
IsView x = x.size ≤ length x.ptr

-- What `compare` makes of two memories and two lengths.
unfoldable compare_at : List ℕ → List ℕ → ℕ → ℕ → Sign
compare_at xs ys m n =
    let r = memcmp xs ys (if ltb m n then m else n) in if is_equal r then sign_of m n r else r

-- What the lengths decide once the bytes are compared.
abbrev by_length : ℕ → ℕ → Sign → Sign
by_length m n r = if is_equal r then sign_of m n r else r

shorter_suc :
    (m n : ℕ) → (if ltb (suc m) (suc n) then suc m else suc n) ≡ suc (if ltb m n then m else n)
shorter_suc m n = ground arith

by_length-sign_of :
    (x y m n : ℕ) (r : Sign)
    → by_length (suc m) (suc n) (sign_of x y r) ≡ sign_of x y (by_length m n r)
unfolding is_equal sign_of
by_length-sign_of x y m n less = ground arith
by_length-sign_of x y m n equal = ground arith
by_length-sign_of x y m n greater = ground arith

compare_at-lex :
    (xs ys : List ℕ) (m n : ℕ)
    → m ≤ length xs
    → n ≤ length ys
    → compare_at xs ys m n ≡ lex (take m xs) (take n ys)
unfolding compare_at memcmp is_equal sign_of
compare_at-lex xs ys zero zero hx hy = refl
compare_at-lex xs [] zero (suc n) hx hy = absurd (omega arith)
compare_at-lex xs (y ∷ ys) zero (suc n) hx hy = ground arith
compare_at-lex [] ys (suc m) zero hx hy = absurd (omega arith)
compare_at-lex (x ∷ xs) ys (suc m) zero hx hy = ground arith
compare_at-lex [] ys (suc m) (suc n) hx hy = absurd (omega arith)
compare_at-lex (x ∷ xs) [] (suc m) (suc n) hx hy = absurd (omega arith)
compare_at-lex (x ∷ xs) (y ∷ ys) (suc m) (suc n) hx hy =
    ap (λ k. by_length (suc m) (suc n) (memcmp (x ∷ xs) (y ∷ ys) k)) (shorter_suc m n)
    ∙ by_length-sign_of x y m n (memcmp xs ys (if ltb m n then m else n))
    ∙ ap (λ r. sign_of x y r) (compare_at-lex xs ys m n (omega arith) (omega arith))

-- A text is one text or the other is behind it.
lex-equal : (xs ys : List ℕ) → lex xs ys ≡ equal → xs ≡ ys
unfolding sign_of
lex-equal [] [] e = refl
lex-equal [] (y ∷ ys) e = absurd (cc)
lex-equal (x ∷ xs) [] e = absurd (cc)
lex-equal (x ∷ xs) (y ∷ ys) e = ground (arith, lex-equal xs ys)

lex_refl : (xs : List ℕ) → lex xs xs ≡ equal
unfolding sign_of
lex_refl [] = refl
lex_refl (x ∷ xs) = ground (arith, lex_refl xs)

operators :
    (x y : StringPiece) (r : Sign)
    → memcmp x.ptr y.ptr (shorter x y) ≡ r
    → (lt x y ≡ is_less (compare_pieces x y))
      × (gt x y ≡ is_greater (compare_pieces x y))
      × (le x y ≡ not (is_greater (compare_pieces x y)))
      × (ge x y ≡ not (is_less (compare_pieces x y)))
unfolding lt gt le ge compare_pieces is_less is_greater is_equal sign_of
operators x y less e = rw e (ground arith)
operators x y equal e = rw e (ground arith)
operators x y greater e = rw e (ground arith)

-- `compare` orders two pieces as a dictionary orders their texts, and the four operators agree with
-- it.
pub compare_pieces-lex :
    (x y : StringPiece)
    → IsView x
    → IsView y
    → (compare_pieces x y ≡ lex (as_string x) (as_string y))
      × (lt x y ≡ is_less (lex (as_string x) (as_string y)))
      × (gt x y ≡ is_greater (lex (as_string x) (as_string y)))
      × (le x y ≡ not (is_greater (lex (as_string x) (as_string y))))
      × (ge x y ≡ not (is_less (lex (as_string x) (as_string y))))
unfolding compare_pieces as_string shorter compare_at
compare_pieces-lex x y hx hy =
    let e = compare_at-lex x.ptr y.ptr x.size y.size hx hy in
    let (l, g, le', ge') = operators x y _ refl in
    (
      e,
      l ∙ ap is_less e,
      g ∙ ap is_greater e,
      le' ∙ ap (λ r. not (is_greater r)) e,
      ge' ∙ ap (λ r. not (is_less r)) e,
    )
