-- ===== src/Http/Line.antt =====
-- The searches of the parser on a line whose parts are known.
use cly_server.Base.{
  ℕ, ◌≡◌, ◌≢◌, refl, false, List, [], ◌∷◌, ◌++◌, ◌==◌, length, All, arith, length-append, some,
}
use cly_server.Buffer.Search.{find_byte, search_crlf, starts_crlf, or_null}

-- The byte does not occur.
abbrev pub Free : ℕ → List ℕ → Type 0
Free c xs = All (λ x. x ≢ c) xs

pub Free-append : (c : ℕ) (xs ys : List ℕ) → Free c xs → Free c ys → Free c (xs ++ ys)
Free-append c [] ys h k = k
Free-append c (x ∷ xs) ys h k = (h.0, Free-append c xs ys h.1 k)

pub find_byte-hit : (c : ℕ) (xs ys : List ℕ) → Free c xs → find_byte c (xs ++ c ∷ ys) ≡ length xs
unfolding find_byte
find_byte-hit c [] ys h = ground arith
find_byte-hit c (x ∷ xs) ys h = ground (arith, find_byte-hit c xs ys h.1)

pub find_byte-miss : (c : ℕ) (xs : List ℕ) → Free c xs → find_byte c xs ≡ length xs
unfolding find_byte
find_byte-miss c [] h = refl
find_byte-miss c (x ∷ xs) h = ground (arith, find_byte-miss c xs h.1)

starts_crlf-other : (x : ℕ) (xs : List ℕ) → x ≢ b'\r' → starts_crlf (x ∷ xs) ≡ false
unfolding starts_crlf
starts_crlf-other x [] h = refl
starts_crlf-other x (y ∷ ys) h = ground arith

pub search_crlf-line :
    (xs ys : List ℕ) → Free b'\r' xs → search_crlf (xs ++ b'\r' ∷ b'\n' ∷ ys) ≡ length xs
unfolding search_crlf
search_crlf-line [] ys h = unfold starts_crlf in refl
search_crlf-line (x ∷ xs) ys h =
    rw (starts_crlf-other x (xs ++ b'\r' ∷ b'\n' ∷ ys) h.0, search_crlf-line xs ys h.1)

pub or_null-line :
    (xs ys : List ℕ)
    → Free b'\r' xs
    → (let text = xs ++ b'\r' ∷ b'\n' ∷ ys in or_null (search_crlf text) text) ≡ some (length xs)
unfolding or_null
or_null-line xs ys h = rw (search_crlf-line xs ys h, apart)
  where
    apart : (length xs == length (xs ++ b'\r' ∷ b'\n' ∷ ys)) ≡ false
    apart = ground (arith, length-append xs (b'\r' ∷ b'\n' ∷ ys))

-- A length is not that of a longer list.
pub length-before : (xs ys : List ℕ) (y : ℕ) → (length xs == length (xs ++ y ∷ ys)) ≡ false
length-before xs ys y = ground (arith, length-append xs (y ∷ ys))
