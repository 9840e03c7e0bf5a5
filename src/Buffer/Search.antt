-- ===== src/Buffer/Search.antt =====
-- The searches of net/Buffer.h: `findCRLF`, `findEOL`, and the `std::find` of a byte.
use cly_server.Base.{
  ℕ, suc, ◌≡◌, refl, ap, ◌≢◌, ◌⊎◌, inl, inr, Bool, true, false, ◌&&◌, Option, none, some, List, [],
  ◌∷◌, ◌++◌, leb, ◌==◌, if◌then◌else◌, length, drop, Bool-cases, arith, Result, ok, ◌>>◌, assert,
}
use cly_server.Buffer.{Buffer, contents, readable_bytes}

-- `std::find`: the index of the first such byte, or the length.
unfoldable pub find_byte : ℕ → List ℕ → ℕ
find_byte c [] = 0
find_byte c (x ∷ xs) = if x == c then 0 else suc (find_byte c xs)

unfoldable pub starts_crlf : List ℕ → Bool
starts_crlf [] = false
starts_crlf (x ∷ []) = false
starts_crlf (x ∷ y ∷ ys) = x == b'\r' && y == b'\n'

-- `std::search` for "\r\n": the index of the first match, or the length.
unfoldable pub search_crlf : List ℕ → ℕ
unfolding starts_crlf
search_crlf [] = 0
search_crlf (x ∷ xs) = if starts_crlf (x ∷ xs) then 0 else suc (search_crlf xs)

-- A search that stops at `beginWrite()` found nothing.
unfoldable pub or_null : ℕ → List ℕ → Option ℕ
or_null i xs = if i == length xs then none else some i

unfoldable pub find_crlf : Buffer → Option ℕ
unfolding search_crlf or_null contents
find_crlf b = or_null (search_crlf (contents b)) (contents b)

-- From a start inside the readable part; the answer counts from there.
unfoldable pub find_crlf_from : Buffer → ℕ → Result (Option ℕ)
unfolding search_crlf or_null contents readable_bytes
find_crlf_from b start = do
  assert (leb start (readable_bytes b))
  let rest = drop start (contents b)
  ok (or_null (search_crlf rest) rest)

unfoldable pub find_eol : Buffer → Option ℕ
unfolding find_byte or_null contents
find_eol b = or_null (find_byte b'\n' (contents b)) (contents b)

unfoldable pub find_eol_from : Buffer → ℕ → Result (Option ℕ)
unfolding find_byte or_null contents readable_bytes
find_eol_from b start = do
  assert (leb start (readable_bytes b))
  let rest = drop start (contents b)
  ok (or_null (find_byte b'\n' rest) rest)

-- No "\r\n" stands anywhere in the bytes.
abbrev pub HasNoCrlf : List ℕ → Type 0
HasNoCrlf xs = (pre post : List ℕ) → xs ≢ pre ++ b'\r' ∷ b'\n' ∷ post

-- What a search for the first "\r\n" may answer.
abbrev pub FindsCrlf : List ℕ → Option ℕ → Type 0
FindsCrlf xs r =
    ((r ≡ none) × HasNoCrlf xs)
    ⊎ ((pre post : List ℕ) × (r ≡ some (length pre))
        × (xs ≡ pre ++ b'\r' ∷ b'\n' ∷ post)
        × HasNoCrlf (pre ++ b'\r' ∷ []))

HasNoCrlf-nil : HasNoCrlf []
HasNoCrlf-nil [] post e = cc
HasNoCrlf-nil (p ∷ pre) post e = cc

HasNoCrlf-one : (c : ℕ) → HasNoCrlf (c ∷ [])
HasNoCrlf-one c [] post e = cc
HasNoCrlf-one c (p ∷ []) post e = cc
HasNoCrlf-one c (p ∷ q ∷ pre) post e = cc

pub HasNoCrlf-cons :
    (x : ℕ) (xs : List ℕ) → starts_crlf (x ∷ xs) ≡ false → HasNoCrlf xs → HasNoCrlf (x ∷ xs)
unfolding starts_crlf
HasNoCrlf-cons x [] s h pre post e = HasNoCrlf-one x pre post e
HasNoCrlf-cons x (y ∷ ys) s h [] post e = ground arith
HasNoCrlf-cons x (y ∷ ys) s h (p ∷ pre) post e = h pre post (ground arith)

-- Where the search steps over a byte, no match begins there with the next return either.
starts_crlf-skip :
    (x : ℕ) (pre post : List ℕ)
    → starts_crlf (x ∷ pre ++ b'\r' ∷ b'\n' ∷ post) ≡ false
    → starts_crlf (x ∷ pre ++ b'\r' ∷ []) ≡ false
unfolding starts_crlf
starts_crlf-skip x [] post h = ground arith
starts_crlf-skip x (p ∷ pre) post h = h

starts_crlf-shape :
    (xs : List ℕ) → starts_crlf xs ≡ true → (post : List ℕ) × (xs ≡ b'\r' ∷ b'\n' ∷ post)
unfolding starts_crlf
starts_crlf-shape [] h = ground arith
starts_crlf-shape (x ∷ []) h = ground arith
starts_crlf-shape (x ∷ y ∷ ys) h = (ys, ground arith)

search_crlf-step :
    (x : ℕ) (xs : List ℕ)
    → starts_crlf (x ∷ xs) ≡ false
    → FindsCrlf xs (or_null (search_crlf xs) xs)
    → FindsCrlf (x ∷ xs) (or_null (suc (search_crlf xs)) (x ∷ xs))
unfolding or_null
search_crlf-step x xs s (inl (e, h)) = inl (ground arith, HasNoCrlf-cons x xs s h)
search_crlf-step x xs s (inr (pre, post, e, split, h)) = inr (
  x ∷ pre,
  post,
  ground arith,
  ap (λ ys. x ∷ ys) split,
  HasNoCrlf-cons x (pre ++ b'\r' ∷ []) (starts_crlf-skip x pre post (rw split at s)) h,
)

pub search_crlf-FindsCrlf : (xs : List ℕ) → FindsCrlf xs (or_null (search_crlf xs) xs)
unfolding search_crlf or_null
search_crlf-FindsCrlf [] = inl (refl, HasNoCrlf-nil)
search_crlf-FindsCrlf (x ∷ xs) = elim (Bool-cases (starts_crlf (x ∷ xs))) [
  | inl s ↦
      let (post, e) = starts_crlf-shape (x ∷ xs) s in
      inr ([], post, rw (s, if◌then◌else◌) (ground arith), e, HasNoCrlf-one b'\r')
  | inr s ↦ rw s (search_crlf-step x xs s (search_crlf-FindsCrlf xs))
]

-- `findCRLF` answers the first "\r\n" of the readable bytes, and none exactly if there is none.
pub find_crlf-FindsCrlf : (b : Buffer) → FindsCrlf (contents b) (find_crlf b)
unfolding find_crlf
find_crlf-FindsCrlf b = search_crlf-FindsCrlf (contents b)
