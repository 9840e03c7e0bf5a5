-- ===== src/StringPiece/Prefix.antt =====
-- Equality of base/StringPiece.h pieces, and prefixes.
use cly_server.Base.{
  ℕ, zero, suc, ◌-◌, ◌≤◌, ◌≡◌, ◌↔◌, refl, sym, ap, ap₂, subst, ◌∙◌, true, false, List, [], ◌∷◌,
  ◌++◌, le→leb, length, take, drop, arith, ok, length-take, length-append, take-append-drop,
  take-take, take-append_length,
}
use cly_server.StringPiece.{
  StringPiece, Sign, sign_of, memcmp, is_equal, equals, differs, as_string, starts_with,
  remove_prefix,
}
use cly_server.StringPiece.Order.{IsView}

memcmp_same :
    (xs ys : List ℕ) (n : ℕ)
    → n ≤ length xs
    → n ≤ length ys
    → is_equal (memcmp xs ys n) ≡ true
    → take n xs ≡ take n ys
unfolding memcmp is_equal sign_of
memcmp_same xs ys zero hx hy e = refl
memcmp_same [] ys (suc n) hx hy e = absurd (omega arith)
memcmp_same (x ∷ xs) [] (suc n) hx hy e = absurd (omega arith)
memcmp_same (x ∷ xs) (y ∷ ys) (suc n) hx hy e =
    let (h, r) = heads x y (memcmp xs ys n) e in
    ap₂ (λ a as'. a ∷ as') h (memcmp_same xs ys n (omega arith) (omega arith) r)
  where
    heads : (a b : ℕ) (r : Sign) → is_equal (sign_of a b r) ≡ true → (a ≡ b) × (is_equal r ≡ true)
    heads a b r e = ground arith

memcmp-take : (xs ys : List ℕ) (n : ℕ) → take n xs ≡ take n ys → is_equal (memcmp xs ys n) ≡ true
unfolding memcmp is_equal sign_of
memcmp-take xs ys zero e = refl
memcmp-take [] ys (suc n) e = refl
memcmp-take (x ∷ xs) [] (suc n) e = absurd (cc)
memcmp-take (x ∷ xs) (y ∷ ys) (suc n) e =
    let h : x ≡ y = cc in
    let t : take n xs ≡ take n ys = cc in let r = memcmp-take xs ys n t in ground arith

length-as_string : (x : StringPiece) → IsView x → length (as_string x) ≡ x.size
unfolding as_string
length-as_string x h = omega (arith, length-take x.size x.ptr)

-- Two pieces are equal exactly if they have one text.
pub equals-as_string :
    (x y : StringPiece)
    → IsView x
    → IsView y
    → ((equals x y ≡ true) ↔ (as_string x ≡ as_string y))
      × ((differs x y ≡ false) ↔ (as_string x ≡ as_string y))
unfolding equals differs as_string
equals-as_string x y hx hy =
    ((there, back), (λ (e : differs x y ≡ false). there (ground arith), λ e. rw (back e) refl))
  where
    there : equals x y ≡ true → as_string x ≡ as_string y
    there e =
        let s : x.size ≡ y.size = ground arith in
        let m : is_equal (memcmp x.ptr y.ptr x.size) ≡ true = ground arith in
        memcmp_same x.ptr y.ptr x.size hx (omega arith) m ∙ ap (λ k. take k y.ptr) s

    back : as_string x ≡ as_string y → equals x y ≡ true
    back e =
        let s : x.size ≡ y.size =
          sym (length-as_string x hx) ∙ ap (λ t. length t) e ∙ length-as_string y hy in
        let m = memcmp-take x.ptr y.ptr x.size (e ∙ ap (λ k. take k y.ptr) (sym s)) in ground arith

-- `starts_with` says whether the text of the other piece is a prefix of that of the piece.
pub starts_with-as_string :
    (x y : StringPiece)
    → IsView x
    → IsView y
    → (starts_with x y ≡ true) ↔ ((rest : List ℕ) × (as_string x ≡ as_string y ++ rest))
unfolding starts_with as_string
starts_with-as_string x y hx hy = (there, back)
  where
    there : starts_with x y ≡ true → (rest : List ℕ) × (as_string x ≡ as_string y ++ rest)
    there e =
        let l : y.size ≤ x.size = ground arith in
        let m : is_equal (memcmp x.ptr y.ptr y.size) ≡ true = ground arith in
        (
          drop y.size (take x.size x.ptr),
          sym (take-append-drop y.size (take x.size x.ptr))
              ∙ ap (λ t. t ++ drop y.size (take x.size x.ptr))
                  (take-take y.size x.size x.ptr l
                    ∙ memcmp_same x.ptr y.ptr y.size (omega arith) hy m),
        )

    back : (rest : List ℕ) × (as_string x ≡ as_string y ++ rest) → starts_with x y ≡ true
    back (rest, e) =
        let n = length-as_string y hy in
        let l : y.size ≤ x.size = omega (
          arith,
          ap (λ t. length t) e,
          length-append (take y.size y.ptr) rest,
          n,
          length-as_string x hx,
        ) in
        let m = memcmp-take x.ptr y.ptr y.size (
          sym (take-take y.size x.size x.ptr l)
          ∙ ap (λ t. take y.size t) e
          ∙ ap (λ k. take k (take y.size y.ptr ++ rest)) (sym n)
          ∙ take-append_length (take y.size y.ptr) rest) in
        ground arith

-- `remove_prefix` leaves the pointer where it is, so it takes the bytes off the end of the text.
pub remove_prefix-as_string :
    (x : StringPiece) (n : ℕ) {y : StringPiece}
    → n ≤ x.size
    → remove_prefix x n ≡ ok y
    → as_string y ≡ take (x.size - n) (as_string x)
unfolding remove_prefix as_string
remove_prefix-as_string x n {y} h e =
    subst (λ z. take z.size z.ptr ≡ take (x.size - n) (take x.size x.ptr))
      (first (sym (rw (le→leb n x.size h) refl) ∙ e))
      (sym (take-take (x.size - n) x.size x.ptr (omega arith)))
  where
    first : {y z : StringPiece} → ok y ≡ ok z → y ≡ z
    first h = cc
