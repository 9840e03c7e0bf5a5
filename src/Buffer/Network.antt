-- ===== src/Buffer/Network.antt =====
-- The integers of net/Buffer.h in network byte order, with net/Endian.h. An integer is the value of
-- its bits, below 2 ^ (8 * width); a signed one is read as its two's complement pattern.
use native.Mathlib.Nat.{mod-eq_of_lt, mod-lt, div-add-mod, mul-add-mod_self_left, pow-suc}
use native.Mathlib.Numerals.{towards_suc}
use cly_server.Base.{
  append-nil, ℕ, zero, suc, ◌+◌, ◌*◌, ◌/◌, ◌%◌, ◌^◌, ◌≤◌, ◌<◌, ◌≡◌, refl, ap, sym, ◌∙◌, List, [],
  ◌∷◌, ◌++◌, arith, length, take, drop, leb, le→leb, Result, ok, ◌>>=◌, ◌>>◌, assert,
  take-append_length, drop-append_length, length-append,
}
use cly_server.Buffer.{
  Buffer, max_size, contents, readable_bytes, prependable_bytes, append, prepend, retrieve,
}
use cly_server.Buffer.Invariant.{IsValid, length-contents}
use cly_server.Buffer.Contents.{append-Holds, prepend-Holds, retrieve-Holds}

-- `hostToNetwork`: the bytes, the highest first.
unfoldable pub host_to_network : ℕ → ℕ → List ℕ
host_to_network zero x = []
host_to_network (suc width) x = (x / 2 ^ (8 * width)) % 256 ∷ host_to_network width x

-- `networkToHost`.
unfoldable pub network_to_host : List ℕ → ℕ
network_to_host [] = 0
network_to_host (b ∷ bs) = b * 2 ^ (8 * length bs) + network_to_host bs

-- `appendInt64`, `appendInt32`, `appendInt16` and `appendInt8`, at widths 8, 4, 2 and 1.
unfoldable pub append_int : ℕ → Buffer → ℕ → Result Buffer
append_int width b x = append b (host_to_network width x)

unfoldable pub prepend_int : ℕ → Buffer → ℕ → Result Buffer
prepend_int width b x = prepend b (host_to_network width x)

unfoldable pub peek_int : ℕ → Buffer → Result ℕ
peek_int width b = do
  assert (leb width (readable_bytes b))
  ok (network_to_host (take width (contents b)))

unfoldable pub retrieve_int : ℕ → Buffer → Result Buffer
retrieve_int width b = retrieve b width

unfoldable pub read_int : ℕ → Buffer → Result (ℕ × Buffer)
read_int width b = do result ← peek_int width b; rest ← retrieve_int width b; ok (result, rest)

length-host_to_network : (width x : ℕ) → length (host_to_network width x) ≡ width
unfolding host_to_network
length-host_to_network zero x = refl
length-host_to_network (suc width) x = ap suc (length-host_to_network width x)

-- The lowest digits of a number, one base-256 digit more.
mod-256 : (x p : ℕ) → 0 < p → (x / p) % 256 * p + x % p ≡ x % (256 * p)
mod-256 x p h = sym (
    ap (λ n. n % (256 * p)) split
    ∙ mul-add-mod_self_left (256 * p) (x / p / 256) low
    ∙ mod-eq_of_lt small)
  where
    low : ℕ
    low = (x / p) % 256 * p + x % p

    small : low < 256 * p
    small = grind (arith, mod-lt x h)

    split : x ≡ 256 * p * (x / p / 256) + low
    split = omega (arith, div-add-mod x p, ap (λ (t : ℕ). t * p) (div-add-mod (x / p) 256))

pow_byte : (width : ℕ) → 2 ^ (8 * suc width) ≡ 256 * 2 ^ (8 * width)
pow_byte width =
    ap (λ n. 2 ^ n) {x = 8 * suc width} {y = 8 * width + 8} (omega arith) ∙ shift (8 * width)
  where
    shift : (n : ℕ) → 2 ^ (n + 8) ≡ 256 * 2 ^ n
    shift n = simp towards_suc (omega arith)

pow_pos : (n : ℕ) → 0 < 2 ^ n
pow_pos zero = omega arith
pow_pos (suc n) = omega (arith, pow_pos n, pow-suc 2 n)

-- What comes back is the integer cut to its width.
pub network_to_host-host_to_network :
    (width x : ℕ) → network_to_host (host_to_network width x) ≡ x % 2 ^ (8 * width)
unfolding host_to_network network_to_host
network_to_host-host_to_network zero x = omega arith
network_to_host-host_to_network (suc width) x =
    rw (length-host_to_network width x, network_to_host-host_to_network width x, pow_byte width)
      (mod-256 x (2 ^ (8 * width)) (pow_pos (8 * width)))

-- Where the readable bytes begin with an integer, `readInt` returns it.
read_int_lem :
    (width : ℕ) (b : Buffer) (x : ℕ) (rest : List ℕ)
    → IsValid b
    → contents b ≡ host_to_network width x ++ rest
    → x < 2 ^ (8 * width)
    → (b' : Buffer) × (read_int width b ≡ ok (x, b')) × IsValid b' × (contents b' ≡ rest)
unfolding read_int peek_int retrieve_int
read_int_lem width b x rest v c small =
    let wire : List ℕ = host_to_network width x in
    let long : length wire ≡ width = length-host_to_network width x in
    let enough : width ≤ readable_bytes b =
      omega (arith, length-contents v, ap length c, length-append wire rest, long) in
    let (b', e, v', c') = retrieve-Holds b width v enough in
    let front : take width (contents b) ≡ wire =
      ap (take width) c
      ∙ ap (λ n. take n (wire ++ rest)) (sym long)
      ∙ take-append_length wire rest in
    (
      b',
      rw (
        le→leb width (readable_bytes b) enough,
        front,
        network_to_host-host_to_network width x,
        mod-eq_of_lt small,
        e,
      ),
      v',
      c'
          ∙ ap (drop width) c
          ∙ ap (λ n. drop n (wire ++ rest)) (sym long)
          ∙ drop-append_length wire rest,
    )

-- Where nothing else is readable, an integer that fits its width is read back once it is appended, if
-- the vector has room for it.
pub read_int-append_int :
    (width : ℕ) (b : Buffer) (x : ℕ)
    → IsValid b
    → contents b ≡ []
    → b.writer + width ≤ max_size
    → x < 2 ^ (8 * width)
    → (b' b'' : Buffer) × (append_int width b x ≡ ok b')
      × (read_int width b' ≡ ok (x, b''))
      × IsValid b''
      × (contents b'' ≡ [])
unfolding append_int
read_int-append_int width b x v empty room small =
    let wire : List ℕ = host_to_network width x in
    let long : length wire ≡ width = length-host_to_network width x in
    let (b', e, v', c, _) = append-Holds b wire v (omega (arith, long)) in
    let (b'', r, v'', c') =
      read_int_lem width b' x [] v' (c ∙ ap (λ xs. xs ++ wire) empty ∙ sym (append-nil wire))
        small in
    (b', b'', e, r, v'', c')

-- An integer that fits its width is read back after it was put in front, and is then gone.
pub read_int-prepend_int :
    (width : ℕ) (b : Buffer) (x : ℕ)
    → IsValid b
    → width ≤ prependable_bytes b
    → x < 2 ^ (8 * width)
    → (b' b'' : Buffer) × (prepend_int width b x ≡ ok b')
      × (read_int width b' ≡ ok (x, b''))
      × IsValid b''
      × (contents b'' ≡ contents b)
unfolding prepend_int
read_int-prepend_int width b x v room small =
    let wire : List ℕ = host_to_network width x in
    let long : length wire ≡ width = length-host_to_network width x in
    let (b', e, v', c) = prepend-Holds b wire v (omega (arith, long)) in
    let (b'', r, v'', c') = read_int_lem width b' x (contents b) v' c small in
    (b', b'', e, r, v'', c')
