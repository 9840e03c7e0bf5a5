-- ===== src/Log/Fits.antt =====
-- Prints to a buffer of base/LogStream.h that has room for them.
use cly_server.Base.{
  ℕ, ◌+◌, ◌-◌, ◌≤◌, ◌<◌, ◌≡◌, refl, sym, ap, ◌∙◌, true, false, List, [], ◌∷◌, ◌++◌, append_assoc,
  append-nil, lt→ltb, le→leb, length, length-append, All, arith,
}
use cly_server.Log.{
  FixedBuffer, avail, append, format_integer, format_pointer, format_bool, convert_hex, hex_up,
  max_numeric_size,
}
use cly_server.Log.Numbers.{read-convert, length-reverse_aux}
use cly_server.Log.Bounds.{
  Print, text, integer, pointer, truth, print, print_all, piece, pieces, IsNumber, length-hex_up,
}

-- The room that a print asks for: a number that of the longest one.
abbrev pub room : Print → ℕ
room (text t) = length t
room (integer v) = max_numeric_size
room (pointer p) = max_numeric_size
room (truth v) = 1

abbrev pub rooms : List Print → ℕ
rooms [] = 0
rooms (op ∷ ops) = room op + rooms ops

-- Where there is room for a print it is added.
print-fits :
    (b : FixedBuffer) (op : Print)
    → length b.text + room op < b.size
    → print b op ≡ record b { text = b.text ++ piece op }
unfolding print append format_integer format_pointer format_bool avail
print-fits b (text t) h = rw (lt→ltb (length t) (b.size - length b.text) (omega arith)) refl
print-fits b (integer v) h =
    rw (le→leb max_numeric_size (b.size - length b.text) (omega arith)) refl
print-fits b (pointer p) h =
    rw (le→leb max_numeric_size (b.size - length b.text) (omega arith)) refl
print-fits b (truth true) h = rw (lt→ltb 1 (b.size - length b.text) (omega arith)) refl
print-fits b (truth false) h = rw (lt→ltb 1 (b.size - length b.text) (omega arith)) refl

piece-room : (b : FixedBuffer) (op : Print) → IsNumber op → length (piece op) ≤ room op
unfolding convert_hex
piece-room b (text t) n = omega arith
piece-room b (integer v) n = omega (arith, (read-convert v n).1)
piece-room b (pointer p) n = omega (arith, length-hex_up 16 p, length-reverse_aux (hex_up 16 p) [])
piece-room b (truth true) n = omega arith
piece-room b (truth false) n = omega arith

-- Prints for which there is room are all there.
pub print_all-fits :
    (ops : List Print) (b : FixedBuffer)
    → All IsNumber ops
    → length b.text + rooms ops < b.size
    → (print_all b ops).text ≡ b.text ++ pieces ops
unfolding print_all
print_all-fits [] b n h = sym (append-nil b.text)
print_all-fits (op ∷ ops) b (n, ns) h =
    let longer : FixedBuffer = record b { text = b.text ++ piece op } in
    ap (λ x. (print_all x ops).text) (print-fits b op (omega arith))
    ∙ print_all-fits ops longer ns
        (omega (arith, length-append b.text (piece op), piece-room b op n))
    ∙ append_assoc b.text (piece op) (pieces ops)
