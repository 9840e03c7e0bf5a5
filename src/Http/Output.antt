-- ===== src/Http/Output.antt =====
-- What `appendToBuffer` puts on the wire.
use cly_server.Base.{
  ℕ, suc, ◌+◌, ◌≤◌, ◌≡◌, refl, sym, ap, ◌∙◌, some, List, [], ◌∷◌, ◌++◌, append-nil, append_assoc,
  length, drop, get_elem?, length-append, length-drop, codes, ok, arith,
}
use cly_server.Base.Decimal.{decimal, digits_onto}
use cly_server.Buffer.{Buffer, contents, max_size}
use cly_server.Buffer.Invariant.{IsValid}
use cly_server.Buffer.Contents.{append-Holds}
use cly_server.Http.Response.{
  Response, StatusCode, unknown, ok_200, moved_permanently, bad_request, not_found, status_number,
  printed, status_line, pieces, append_all, append_to_buffer,
}

-- The bytes of the pieces one behind the other.
abbrev pub joined : List (List ℕ) → List ℕ
joined [] = []
joined (s ∷ ss) = s ++ joined ss

append_all-Holds :
    (ss : List (List ℕ)) (b : Buffer)
    → IsValid b
    → b.writer + length (joined ss) ≤ max_size
    → (b' : Buffer) × (append_all b ss ≡ ok b')
      × IsValid b'
      × (contents b' ≡ contents b ++ joined ss)
unfolding append_all
append_all-Holds [] b v h = (b, refl, v, sym (append-nil (contents b)))
append_all-Holds (s ∷ ss) b v h =
    let (b', e, v', c, w) = append-Holds b s v (omega (arith, length-append s (joined ss))) in
    let (b'', e', v'', c') =
      append_all-Holds ss b' v' (omega (arith, length-append s (joined ss))) in
    (b'', rw e e', v'', c' ∙ ap (λ xs. xs ++ joined ss) c ∙ append_assoc (contents b) s (joined ss))

-- Within what a vector may hold, `appendToBuffer` appends to a valid buffer every piece of the
-- response, in order, and nothing else.
pub append_to_buffer-Holds :
    (stack : List ℕ) (r : Response) (b : Buffer)
    → IsValid b
    → b.writer + length (joined (pieces stack r)) ≤ max_size
    → (b' : Buffer) × (append_to_buffer stack r b ≡ ok b')
      × IsValid b'
      × (contents b' ≡ contents b ++ joined (pieces stack r))
unfolding append_to_buffer
append_to_buffer-Holds stack r b v h = append_all-Holds (pieces stack r) b v h

joined-append : (ss ts : List (List ℕ)) → joined (ss ++ ts) ≡ joined ss ++ joined ts
joined-append [] ts = refl
joined-append (s ∷ ss) ts = rw (joined-append ss ts) (sym (append_assoc s (joined ss) (joined ts)))

-- The number of characters before the zero.
abbrev pub shown : StatusCode → ℕ
shown unknown = 11
shown _ = 13

printed-status :
    (stack : List ℕ) (code : StatusCode) (rest : List ℕ)
    → length stack ≡ 32
    → let line = printed stack (codes "HTTP/1.1 " ++ decimal (status_number code) ++ codes " ") in
      (length line ≡ 32)
      × (get_elem? (line ++ rest) (shown code) ≡ some 0)
      × (drop (suc (shown code)) line ≡ drop (suc (shown code)) stack)
unfolding printed decimal digits_onto status_number
printed-status stack unknown rest h = (omega (arith, length-drop 12 stack), refl, refl)
printed-status stack ok_200 rest h = (omega (arith, length-drop 14 stack), refl, refl)
printed-status stack moved_permanently rest h = (omega (arith, length-drop 14 stack), refl, refl)
printed-status stack bad_request rest h = (omega (arith, length-drop 14 stack), refl, refl)
printed-status stack not_found rest h = (omega (arith, length-drop 14 stack), refl, refl)

-- The status line goes out as a whole array of 32 bytes: behind the text, of 13 characters or of 11
-- for a response whose status was never set, stands a zero byte and then what the stack held before.
pub status_line-zero :
    (stack : List ℕ) (r : Response)
    → length stack ≡ 32
    → (length (status_line stack r) ≡ 32)
      × (get_elem? (joined (pieces stack r)) (shown r.status_code) ≡ some 0)
      × (drop (suc (shown r.status_code)) (status_line stack r)
          ≡ drop (suc (shown r.status_code)) stack)
unfolding status_line pieces
status_line-zero stack r h = printed-status stack r.status_code _ h
