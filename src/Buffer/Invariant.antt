-- ===== src/Buffer/Invariant.antt =====
-- The representation invariant of net/Buffer.h, and stretches of the vector under writes.
use cly_server.Base.{
  ap, ◌∙◌, sym, take-append_ge, drop-append_le, take-append_length, take-append_le, take_past,
  drop_past, zero, suc, ℕ, ◌+◌, ◌-◌, ◌≤◌, ◌≡◌, refl, List, [], ◌∷◌, ◌++◌, arith, length, take, drop,
  length-append, length-take, length-drop, length-replicate, write_at,
}
use cly_server.Buffer.{
  Buffer, cheap_prepend, max_size, new, readable_bytes, writable_bytes, prependable_bytes, contents,
}

-- The three regions of the vector stand in order, and it is one that `std::vector` can hold.
pub record IsValid (b : Buffer) : Type 0 where
  pub ordered : b.reader ≤ b.writer
  pub inside : b.writer ≤ length b.bytes
  pub roomy : cheap_prepend ≤ length b.bytes
  pub small : length b.bytes ≤ max_size

pub length-contents : {b : Buffer} → IsValid b → length (contents b) ≡ readable_bytes b
unfolding contents readable_bytes
length-contents {b} v =
    omega (
      arith,
      length-take (b.writer - b.reader) (drop b.reader b.bytes),
      length-drop b.reader b.bytes,
    )

pub length-write_at {ℓ} :
    {A : Type ℓ} (i : ℕ) (ys xs : List A)
    → i + length ys ≤ length xs
    → length (write_at i ys xs) ≡ length xs
unfolding write_at
length-write_at i ys xs h = omega (
  arith,
  length-append (take i xs) (ys ++ drop (i + length ys) xs),
  length-append ys (drop (i + length ys) xs),
  length-take i xs,
  length-drop (i + length ys) xs,
)

-- The constructor's assertions.
pub new-IsValid :
    (size : ℕ)
    → cheap_prepend + size ≤ max_size
    → IsValid (new size)
      × (readable_bytes (new size) ≡ 0)
      × (writable_bytes (new size) ≡ size)
      × (prependable_bytes (new size) ≡ cheap_prepend)
      × (contents (new size) ≡ [])
unfolding new readable_bytes writable_bytes prependable_bytes contents
new-IsValid size h = (
  record {
    ordered = omega arith;
    inside = omega (arith, length-replicate {A = ℕ} (8 + size) 0);
    roomy = omega (arith, length-replicate {A = ℕ} (8 + size) 0);
    small = omega (arith, length-replicate {A = ℕ} (8 + size) 0);
  },
  refl,
  omega (arith, length-replicate {A = ℕ} (8 + size) 0),
  refl,
  refl,
)

-- The bytes between two indices.
abbrev pub between {ℓ} : {A : Type ℓ} → ℕ → ℕ → List A → List A
between r w xs = take (w - r) (drop r xs)

pub drop-take {ℓ} : {A : Type ℓ} (r w : ℕ) (xs : List A) → drop r (take w xs) ≡ between r w xs
drop-take zero w xs = ap (λ k. take k xs) (omega arith)
drop-take (suc r) zero xs =
    ap (λ k. take k (drop (suc r) xs)) {x = zero} {y = zero - suc r} (omega arith)
drop-take (suc r) (suc w) [] = sym (take_past (suc w - suc r) [] (omega arith))
drop-take (suc r) (suc w) (x ∷ xs) = drop-take r w xs ∙ ap (λ k. take k (drop r xs)) (omega arith)

-- A write just behind a stretch of bytes makes it longer by what is written.
pub between-write_at {ℓ} :
    {A : Type ℓ} (r w : ℕ) (ys xs : List A)
    → r ≤ w
    → w ≤ length xs
    → between r (w + length ys) (write_at w ys xs) ≡ between r w xs ++ ys
unfolding write_at
between-write_at r w ys xs h k =
    ap (take (w + length ys - r)) (
      drop-append_le r (take w xs) (ys ++ drop (w + length ys) xs) (omega (arith, length-take w xs))
      ∙ ap (λ zs. zs ++ (ys ++ drop (w + length ys) xs)) (drop-take r w xs))
    ∙ take-append_ge (w + length ys - r) (between r w xs) (ys ++ drop (w + length ys) xs)
        (omega (arith, size))
    ∙ ap (λ zs. between r w xs ++ zs)
        (ap (λ n. take n (ys ++ drop (w + length ys) xs)) (omega (arith, size))
          ∙ take-append_length ys (drop (w + length ys) xs))
  where
    size : length (between r w xs) ≡ w - r
    size = omega (arith, length-take (w - r) (drop r xs), length-drop r xs)

-- A write just before it, too.
pub between-write_at_before {ℓ} :
    {A : Type ℓ} (r w : ℕ) (ys xs : List A)
    → r + length ys ≤ w
    → w ≤ length xs
    → between r w (write_at r ys xs) ≡ ys ++ between (r + length ys) w xs
unfolding write_at
between-write_at_before r w ys xs h k =
    ap (take (w - r)) (
      drop-append_le r (take r xs) (ys ++ drop (r + length ys) xs) (omega (arith, length-take r xs))
      ∙ ap (λ zs. zs ++ (ys ++ drop (r + length ys) xs))
          (drop_past r (take r xs) (omega (arith, length-take r xs))))
    ∙ take-append_ge (w - r) ys (drop (r + length ys) xs) (omega arith)
    ∙ ap (λ n. ys ++ take n (drop (r + length ys) xs)) (omega arith)

-- Bytes behind a stretch do not matter to it.
pub between-append {ℓ} :
    {A : Type ℓ} (r w : ℕ) (xs ys : List A)
    → r ≤ w
    → w ≤ length xs
    → between r w (xs ++ ys) ≡ between r w xs
between-append r w xs ys h k =
    ap (take (w - r)) (drop-append_le r xs ys (omega arith))
    ∙ take-append_le (w - r) (drop r xs) ys (omega (arith, length-drop r xs))
