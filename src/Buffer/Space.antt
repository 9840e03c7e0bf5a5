-- ===== src/Buffer/Space.antt =====
-- `makeSpace` and `ensureWritableBytes` of net/Buffer.h.
use cly_server.Base.{
  zero, drop, write_at, sym, ℕ, ◌+◌, ◌-◌, ◌≤◌, ◌<◌, ◌≡◌, refl, ap, ◌∙◌, List, ◌++◌, arith, length,
  take, take_past, replicate, length-append, length-replicate, le→leb, le→ltb, lt→ltb, ok, dec_lt,
}
use cly_server.Buffer.{
  Buffer, cheap_prepend, max_size, size_mod, resize, add_size, contents, readable_bytes,
  writable_bytes, prependable_bytes, make_space, ensure_writable_bytes,
}
use cly_server.Buffer.Invariant.{
  IsValid, length-contents, length-write_at, between, between-append, between-write_at,
}

-- The buffer has the same contents and room for `len` bytes more.
pub record Roomy (b : Buffer) (len : ℕ) (room : Buffer) : Type 0 where
  pub valid : IsValid room
  pub same : contents room ≡ contents b
  pub fits : len ≤ writable_bytes room
  -- Where the writer stands afterwards: it moves to the front or stays.
  pub written : room.writer ≤ b.writer

resize_lem :
    (n : ℕ) (bytes : List ℕ)
    → length bytes ≤ n
    → n ≤ max_size
    → resize n bytes ≡ ok (bytes ++ replicate (n - length bytes) 0)
unfolding resize
resize_lem n bytes h k = rw (le→leb n max_size k, take_past n bytes h)

pub add_size-eq : (a b : ℕ) → a + b < size_mod → add_size a b ≡ a + b
unfolding add_size
add_size-eq a b h = omega arith

make_space-grows :
    (b : Buffer) (len : ℕ)
    → IsValid b
    → writable_bytes b < len
    → b.writer + len ≤ max_size
    → writable_bytes b + prependable_bytes b < len + cheap_prepend
    → let n = b.writer + len in
      make_space b len ≡ ok (record b { bytes = b.bytes ++ replicate (n - length b.bytes) 0 })
unfolding make_space writable_bytes prependable_bytes
make_space-grows b len v h k s = rw (
  add_size-eq (length b.bytes - b.writer) b.reader (omega arith),
  add_size-eq len cheap_prepend (omega arith),
  lt→ltb (length b.bytes - b.writer + b.reader) (len + cheap_prepend) s,
  add_size-eq b.writer len (omega arith),
  resize_lem (b.writer + len) b.bytes (omega arith) k,
)

make_space-moves :
    (b : Buffer) (len : ℕ)
    → IsValid b
    → writable_bytes b < len
    → b.writer + len ≤ max_size
    → len + cheap_prepend ≤ writable_bytes b + prependable_bytes b
    → make_space b len
      ≡ ok (record {
        bytes = write_at cheap_prepend (contents b) b.bytes;
        reader = cheap_prepend;
        writer = cheap_prepend + readable_bytes b;
      })
unfolding make_space writable_bytes prependable_bytes
make_space-moves b len v h k s = rw (
  add_size-eq (length b.bytes - b.writer) b.reader (omega arith),
  add_size-eq len cheap_prepend (omega arith),
  le→ltb (length b.bytes - b.writer + b.reader) (len + cheap_prepend) s,
  lt→ltb cheap_prepend b.reader (omega arith),
)

-- Either way of making space keeps the contents and gives the room.
grown-Roomy :
    (b : Buffer) (len : ℕ)
    → IsValid b
    → writable_bytes b < len
    → b.writer + len ≤ max_size
    → Roomy b len (record b { bytes = b.bytes ++ replicate (b.writer + len - length b.bytes) 0 })
unfolding writable_bytes contents
grown-Roomy b len v h k = record {
  valid = record {
    ordered = v.ordered;
    inside = omega (arith, size);
    roomy = omega (arith, size);
    small = omega (arith, size);
  };
  same = between-append b.reader b.writer b.bytes _ v.ordered v.inside;
  fits = omega (arith, size);
  written = omega arith;
}
  where
    zeros : List ℕ
    zeros = replicate (b.writer + len - length b.bytes) 0

    size : length (b.bytes ++ zeros) ≡ b.writer + len
    size = omega (
      arith,
      length-append b.bytes zeros,
      length-replicate {A = ℕ} (b.writer + len - length b.bytes) 0,
    )

moved-Roomy :
    (b : Buffer) (len : ℕ)
    → IsValid b
    → len + cheap_prepend ≤ writable_bytes b + prependable_bytes b
    → cheap_prepend ≤ b.reader
    → Roomy b len (record {
      bytes = write_at cheap_prepend (contents b) b.bytes;
      reader = cheap_prepend;
      writer = cheap_prepend + readable_bytes b;
    })
unfolding writable_bytes contents readable_bytes prependable_bytes
moved-Roomy b len v s e = record {
  valid = record {
    ordered = omega arith;
    inside = omega (arith, size);
    roomy = omega (arith, size);
    small = omega (arith, size);
  };
  same =
      ap (λ n. between 8 (8 + n) (write_at 8 cs b.bytes)) (sym count)
      ∙ between-write_at 8 8 cs b.bytes (omega arith) v.roomy
      ∙ ap (λ n. take n (drop 8 b.bytes) ++ cs) {x = 8 - 8} {y = zero} (omega arith);
  fits = omega (arith, size);
  written = omega arith;
}
  where
    cs : List ℕ
    cs = between b.reader b.writer b.bytes

    count : length cs ≡ b.writer - b.reader
    count = length-contents v

    size : length (write_at 8 cs b.bytes) ≡ length b.bytes
    size = length-write_at 8 cs b.bytes (omega (arith, count))

-- `ensureWritableBytes` never fails an assertion, its own or that of `makeSpace`: where the vector
-- need not grow past what `std::vector` allows, the result has the same readable bytes, and room.
pub ensure_writable_bytes-Roomy :
    (b : Buffer) (len : ℕ)
    → IsValid b
    → b.writer + len ≤ max_size
    → (room : Buffer) × (ensure_writable_bytes b len ≡ ok room) × Roomy b len room
unfolding ensure_writable_bytes
ensure_writable_bytes-Roomy b len v k = elim (dec_lt (writable_bytes b) len) [
  | no enough ↦ (
    b,
    rw (le→ltb (writable_bytes b) len (omega arith), le→leb len (writable_bytes b) (omega arith)),
    record { valid = v; same = refl; fits = omega arith; written = omega arith },
  )
  | yes short ↦ elim (dec_lt (writable_bytes b + prependable_bytes b) (len + cheap_prepend)) [
    | yes tight ↦
        finish short (make_space-grows b len v short k tight) (grown-Roomy b len v short k)
    | no slack ↦
        finish short (make_space-moves b len v short k (omega arith))
          (moved-Roomy b len v (omega arith) (unfold prependable_bytes in omega arith))
  ]
]
  where
    finish :
        {room : Buffer}
        → writable_bytes b < len
        → make_space b len ≡ ok room
        → Roomy b len room
        → (room : Buffer) × (ensure_writable_bytes b len ≡ ok room) × Roomy b len room
    finish {room} short e r = (
      room,
      rw (lt→ltb (writable_bytes b) len short, e, le→leb len (writable_bytes room) r.fits),
      r,
    )
