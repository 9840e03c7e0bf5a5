-- ===== src/Buffer/Contents.antt =====
-- What the operations of net/Buffer.h do to the readable bytes.
use cly_server.Base.{
  take-take, ℕ, ◌+◌, ◌-◌, ◌≤◌, ◌<◌, ◌≡◌, ap, sym, ◌∙◌, List, [], ◌++◌, arith, length, take, drop,
  take_past, drop_past, drop-drop, write_at, le→leb, le→ltb, lt→ltb, Result, ok, fault,
  assert_failed, dec_lt,
}
use cly_server.Buffer.{
  Buffer, max_size, contents, readable_bytes, writable_bytes, prependable_bytes, append,
  has_written, retrieve, retrieve_all, retrieve_as_string, retrieve_all_as_string, prepend, unwrite,
  shrink, new, initial_size, ensure_writable_bytes,
}
use cly_server.Buffer.Invariant.{
  IsValid, length-contents, length-write_at, between, between-write_at, between-write_at_before,
  drop-take, new-IsValid,
}
use cly_server.Buffer.Space.{ensure_writable_bytes-Roomy, add_size-eq}

-- The call gives a valid buffer with just these readable bytes.
abbrev pub Holds : Result Buffer → List ℕ → Type 0
Holds r xs = (b : Buffer) × (r ≡ ok b) × IsValid b × (contents b ≡ xs)

-- `retrieve` within the readable bytes drops as many from the front.
pub retrieve-Holds :
    (b : Buffer) (len : ℕ)
    → IsValid b
    → len ≤ readable_bytes b
    → Holds (retrieve b len) (drop len (contents b))
unfolding retrieve readable_bytes contents retrieve_all
retrieve-Holds b len v h = elim (dec_lt len (b.writer - b.reader)) [
  | yes less ↦ (
    record b { reader = b.reader + len },
    rw (le→leb len (b.writer - b.reader) h, lt→ltb len (b.writer - b.reader) less),
    record { ordered = omega arith; inside = v.inside; roomy = v.roomy; small = v.small },
    sym (
        drop-take len (b.writer - b.reader) (drop b.reader b.bytes)
        ∙ ap (take (b.writer - b.reader - len)) (drop-drop len b.reader b.bytes)
        ∙ ap (λ n. take n (drop (b.reader + len) b.bytes)) (omega arith)),
  )
  | no more ↦ (
    record b { reader = 8; writer = 8 },
    rw (le→leb len (b.writer - b.reader) h, le→ltb len (b.writer - b.reader) (omega arith)),
    record { ordered = omega arith; inside = v.roomy; roomy = v.roomy; small = v.small },
    sym (drop_past len (contents b) (omega (arith, length-contents v))),
  )
]

-- One byte more would fail its assertion.
pub retrieve-fault :
    (b : Buffer) (len : ℕ) → readable_bytes b < len → retrieve b len ≡ fault assert_failed
unfolding retrieve
retrieve-fault b len h = ground arith

-- Bytes put into the writable part, and the writer moved behind them.
abbrev pub filled : Buffer → List ℕ → Buffer
filled b input = record b {
  bytes = write_at b.writer input b.bytes;
  writer = b.writer + length input;
}

pub filled-IsValid :
    (b : Buffer) (input : List ℕ)
    → IsValid b
    → length input ≤ writable_bytes b
    → IsValid (filled b input) × (contents (filled b input) ≡ contents b ++ input)
unfolding writable_bytes contents
filled-IsValid b input v h = (
  record {
    ordered = omega (arith, v.ordered);
    inside = omega (arith, size, v.inside);
    roomy = omega (arith, size, v.roomy);
    small = omega (arith, size, v.small);
  },
  between-write_at b.reader b.writer input b.bytes v.ordered v.inside,
)
  where
    size : length (write_at b.writer input b.bytes) ≡ length b.bytes
    size = length-write_at b.writer input b.bytes (omega (arith, v.inside))

append_lem :
    (b room : Buffer) (input : List ℕ)
    → ensure_writable_bytes b (length input) ≡ ok room
    → IsValid room
    → length input ≤ writable_bytes room
    → append b input ≡ ok (filled room input)
unfolding append has_written writable_bytes
append_lem b room input e v h = rw (
  e,
  length-write_at room.writer input room.bytes (omega (arith, v.inside)),
  le→leb (length input) (length room.bytes - room.writer) h,
  add_size-eq room.writer (length input) (omega (arith, v.inside, v.small)),
)

-- `append` adds the bytes at the end, wherever it finds the space.
pub append-Holds :
    (b : Buffer) (input : List ℕ)
    → IsValid b
    → b.writer + length input ≤ max_size
    → (b' : Buffer) × (append b input ≡ ok b')
      × IsValid b'
      × (contents b' ≡ contents b ++ input)
      × (b'.writer ≤ b.writer + length input)
append-Holds b input v h =
    let (room, e, r) = ensure_writable_bytes-Roomy b (length input) v h in
    let (valid, kept) = filled-IsValid room input r.valid r.fits in
    (
      filled room input,
      append_lem b room input e r.valid r.fits,
      valid,
      kept ∙ ap (λ xs. xs ++ input) r.same,
      omega (arith, r.written),
    )

-- `prepend` within the room in front adds the bytes before the others, and faults nowhere.
pub prepend-Holds :
    (b : Buffer) (input : List ℕ)
    → IsValid b
    → length input ≤ prependable_bytes b
    → Holds (prepend b input) (input ++ contents b)
unfolding prepend prependable_bytes contents
prepend-Holds b input v h = (
  record b {
    bytes = write_at (b.reader - length input) input b.bytes;
    reader = b.reader - length input;
  },
  rw (le→leb (length input) b.reader h),
  record {
    ordered = omega (arith, v.ordered);
    inside = omega (arith, size, v.inside);
    roomy = omega (arith, size, v.roomy);
    small = omega (arith, size, v.small);
  },
  between-write_at_before (b.reader - length input) b.writer input b.bytes
        (omega (arith, v.ordered)) v.inside
      ∙ ap (λ r. input ++ between r b.writer b.bytes) {x = b.reader - length input + length input}
          {y = b.reader} (omega arith),
)
  where
    size : length (write_at (b.reader - length input) input b.bytes) ≡ length b.bytes
    size =
        length-write_at (b.reader - length input) input b.bytes (omega (arith, v.ordered, v.inside))

-- Within the readable bytes of a valid buffer, `retrieveAsString` returns the first and leaves the
-- rest.
pub retrieve_as_string-Holds :
    (b : Buffer) (len : ℕ)
    → IsValid b
    → len ≤ readable_bytes b
    → (b' : Buffer) × (retrieve_as_string b len ≡ ok (take len (contents b), b'))
      × IsValid b'
      × (contents b' ≡ drop len (contents b))
unfolding retrieve_as_string
retrieve_as_string-Holds b len v h =
    let (b', e, v', c) = retrieve-Holds b len v h in
    (b', rw (le→leb len (readable_bytes b) h, e), v', c)

pub retrieve_as_string-fault :
    (b : Buffer) (len : ℕ) → readable_bytes b < len → retrieve_as_string b len ≡ fault assert_failed
unfolding retrieve_as_string
retrieve_as_string-fault b len h = ground arith

-- `retrieveAllAsString` returns every byte and leaves none.
pub retrieve_all_as_string-Holds :
    (b : Buffer)
    → IsValid b
    → (b' : Buffer) × (retrieve_all_as_string b ≡ ok (contents b, b'))
      × IsValid b'
      × (contents b' ≡ [])
unfolding retrieve_all_as_string
retrieve_all_as_string-Holds b v =
    let (b', e, v', c) = retrieve_as_string-Holds b (readable_bytes b) v (omega arith) in
    (
      b',
      e
          ∙ ap (λ xs. ok (xs, b'))
              (take_past (readable_bytes b) (contents b) (omega (arith, length-contents v))),
      v',
      c ∙ drop_past (readable_bytes b) (contents b) (omega (arith, length-contents v)),
    )

-- Within the readable bytes of a valid buffer, `unwrite` takes back the last.
pub unwrite-Holds :
    (b : Buffer) (len : ℕ)
    → IsValid b
    → len ≤ readable_bytes b
    → Holds (unwrite b len) (take (readable_bytes b - len) (contents b))
unfolding unwrite readable_bytes contents
unwrite-Holds b len v h = (
  record b { writer = b.writer - len },
  rw (le→leb len (b.writer - b.reader) h),
  record {
    ordered = omega (arith, v.ordered);
    inside = omega (arith, v.inside);
    roomy = v.roomy;
    small = v.small;
  },
  ap (λ n. take n (drop b.reader b.bytes)) {x = b.writer - len - b.reader}
        {y = b.writer - b.reader - len} (omega arith)
      ∙ sym (
          take-take (b.writer - b.reader - len) (b.writer - b.reader) (drop b.reader b.bytes)
            (omega arith)),
)

-- `shrink` gives a valid buffer with nothing in it, whatever was there, as long as the bytes and the
-- reserve are within what a vector may hold.
pub shrink-Holds :
    (b : Buffer) (reserve : ℕ)
    → IsValid b
    → readable_bytes b + reserve + 8 ≤ max_size
    → Holds (shrink b reserve) []
unfolding shrink
shrink-Holds b reserve v h =
    let (fresh, _, _, _, none_yet) = new-IsValid initial_size (omega arith) in
    let (room, e, r) =
      ensure_writable_bytes-Roomy (new initial_size) (readable_bytes b + reserve) fresh
        (unfold new in omega arith) in
    (room, rw (add_size-eq (readable_bytes b) reserve (omega arith)) e, r.valid, r.same ∙ none_yet)
