-- ===== src/Log/Bounds.antt =====
-- What any run of prints leaves in the buffer of base/LogStream.h.
use cly_server.Base.{
  ℕ, zero, suc, ◌+◌, ◌-◌, ◌/◌, ◌^◌, ◌≤◌, ◌<◌, ◌≡◌, sym, subst, ◌∙◌, ◌⊎◌, inl, inr, Bool, Bool-cases,
  List, [], ◌∷◌, ◌++◌, append_assoc, append-nil, ◌==◌, if◌then◌else◌, ltb, leb, ltb→lt, leb→le,
  length, length-append, All, codes, arith,
}
use cly_server.Base.Int.{ℤ}
use cly_server.Log.{
  FixedBuffer, avail, append, format_integer, format_pointer, format_bool, convert, convert_hex,
  hex_up, max_numeric_size,
}
use cly_server.Log.Numbers.{magnitude, read-convert, length-reverse_aux}

-- What `operator<<` of a log stream takes.
pub data Print : Type 0 where
  text : List ℕ → Print
  integer : ℤ → Print
  pointer : ℕ → Print
  truth : Bool → Print

unfoldable pub print : FixedBuffer → Print → FixedBuffer
print b (text t) = append b t
print b (integer v) = format_integer b v
print b (pointer p) = format_pointer b p
print b (truth v) = format_bool b v

unfoldable pub print_all : FixedBuffer → List Print → FixedBuffer
print_all b [] = b
print_all b (op ∷ ops) = print_all (print b op) ops

-- The characters that it stands for.
abbrev pub piece : Print → List ℕ
piece (text t) = t
piece (integer v) = convert v
piece (pointer p) = codes "0x" ++ convert_hex p
piece (truth v) = if v then codes "1" else codes "0"

abbrev pub pieces : List Print → List ℕ
pieces [] = []
pieces (op ∷ ops) = piece op ++ pieces ops

-- Some of the prints, in their order.
pub data Kept : List Print → List Print → Type 0 where
  none_left : Kept [] []
  kept :
      {op : Print} {some_ops ops : List Print} → Kept some_ops ops → Kept (op ∷ some_ops) (op ∷ ops)
  dropped : {op : Print} {some_ops ops : List Print} → Kept some_ops ops → Kept some_ops (op ∷ ops)

-- An integer of at most 64 bits.
abbrev pub IsNumber : Print → Type 0
IsNumber (integer v) = magnitude v < 10 ^ 20
IsNumber _ = Unit {0}

pub length-hex_up : (fuel i : ℕ) → length (hex_up fuel i) ≤ fuel
unfolding hex_up
length-hex_up zero i = omega arith
length-hex_up (suc fuel) i = elim (Bool-cases (i / 16 == 0)) [
  | inl last ↦ rw last (omega arith)
  | inr more ↦ rw more (omega (arith, length-hex_up fuel (i / 16)))
]

-- A print leaves the buffer as it is, or adds all its characters, with at least one place left.
abbrev Whole : FixedBuffer → Print → Type 0
Whole b op =
    (print b op ≡ b)
    ⊎ ((print b op ≡ record b { text = b.text ++ piece op })
        × (length b.text + length (piece op) < b.size))

append-Whole :
    (b : FixedBuffer) (t : List ℕ)
    → (append b t ≡ b)
      ⊎ ((append b t ≡ record b { text = b.text ++ t }) × (length b.text + length t < b.size))
unfolding append avail
append-Whole b t = elim (Bool-cases (ltb (length t) (b.size - length b.text))) [
  | inl fits ↦ inr (rw fits, omega (arith, ltb→lt (length t) (b.size - length b.text) fits))
  | inr full ↦ inl (rw full)
]

print-Whole : (b : FixedBuffer) (op : Print) → IsNumber op → Whole b op
unfolding print format_integer format_pointer format_bool avail convert_hex
print-Whole b (text t) n = append-Whole b t
print-Whole b (truth v) n = append-Whole b (if v then codes "1" else codes "0")
print-Whole b (integer v) n = elim (Bool-cases (leb max_numeric_size (b.size - length b.text))) [
  | inl fits ↦ inr (
    rw fits,
    omega (arith, leb→le max_numeric_size (b.size - length b.text) fits, (read-convert v n).1),
  )
  | inr full ↦ inl (rw full)
]
print-Whole b (pointer p) n = elim (Bool-cases (leb max_numeric_size (b.size - length b.text))) [
  | inl fits ↦ inr (
    rw fits,
    omega (
      arith,
      leb→le max_numeric_size (b.size - length b.text) fits,
      length-hex_up 16 p,
      length-reverse_aux (hex_up 16 p) [],
    ),
  )
  | inr full ↦ inl (rw full)
]

-- A buffer that holds, behind what b held, all of some prints.
abbrev pub Holds : FixedBuffer → List Print → FixedBuffer → Type 0
Holds b ops end =
    (some_ops : List Print) × Kept some_ops ops
    × (end.text ≡ b.text ++ pieces some_ops)
    × (length end.text < b.size)

-- Whatever is printed, integers being of at most 20 digits, a buffer with a place left never
-- overflows and keeps a place for a zero, and each print is there as a whole, in order, or not at
-- all.
pub print_all-Holds :
    (ops : List Print) (b : FixedBuffer)
    → All IsNumber ops
    → length b.text < b.size
    → Holds b ops (print_all b ops)
unfolding print_all
print_all-Holds [] b n h = ([], none_left, sym (append-nil b.text), h)
print_all-Holds (op ∷ ops) b (n, ns) h = elim (print-Whole b op n) [
  | inl e ↦
      let (some_ops, k, t, l) = print_all-Holds ops b ns h in
      subst (λ x. Holds b (op ∷ ops) (print_all x ops)) (sym e) (some_ops, dropped k, t, l)
  | inr (e, fits) ↦
      let longer : FixedBuffer = record b { text = b.text ++ piece op } in
      let (some_ops, k, t, l) =
        print_all-Holds ops longer ns (omega (arith, length-append b.text (piece op))) in
      subst (λ x. Holds b (op ∷ ops) (print_all x ops)) (sym e)
        (op ∷ some_ops, kept k, t ∙ append_assoc b.text (piece op) (pieces some_ops), l)
]
