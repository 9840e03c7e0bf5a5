-- ===== src/ProcessInfo/Names.antt =====
-- The name of a process in the text of base/ProcessInfo.cpp's /proc/self/stat.

use cly_server.Base.{
  ℕ, suc, ◌+◌, ◌-◌, ◌<◌, ◌≡◌, ◌≢◌, refl, sym, ap, ap₂, ◌∙◌, none, some, List, [], ◌∷◌, ◌++◌, lt→ltb,
  length, take, drop, take-append_length, append_assoc, length-append, All, arith,
}
use cly_server.StringPiece.{set_buffer, as_string}
use cly_server.Logger.{find_last}
use cly_server.ProcessInfo.{find_first, name_between, procname}

abbrev pub Without : ℕ → List ℕ → Type 0
Without b = All (λ c. c ≢ b)

find_first-here :
    (b : ℕ) (before after : List ℕ)
    → Without b before
    → find_first b (before ++ b ∷ after) ≡ some (length before)
unfolding find_first
find_first-here b [] after h = ground arith
find_first-here b (c ∷ cs) after (ne, h) = rw (find_first-here b cs after h) (ground arith)

find_last-none : (b : ℕ) (after : List ℕ) → Without b after → find_last b after ≡ none
unfolding find_last
find_last-none b [] h = refl
find_last-none b (c ∷ cs) (ne, h) = rw (find_last-none b cs h) (ground arith)

find_last-here :
    (b : ℕ) (before after : List ℕ)
    → Without b after
    → find_last b (before ++ b ∷ after) ≡ some (length before)
unfolding find_last
find_last-here b [] after h = rw (find_last-none b after h) (ground arith)
find_last-here b (c ∷ cs) after h = rw (find_last-here b cs after h) refl

drop_past_byte :
    (b : ℕ) (before after : List ℕ) → drop (suc (length before)) (before ++ b ∷ after) ≡ after
drop_past_byte b [] after = refl
drop_past_byte b (c ∷ cs) after = drop_past_byte b cs after

name_between-found :
    (stat : List ℕ) (lp rp : ℕ)
    → lp < rp
    → as_string (name_between stat (some lp) (some rp)) ≡ take (rp - lp - 1) (drop (lp + 1) stat)
unfolding name_between as_string set_buffer
name_between-found stat lp rp h = rw (lt→ltb lp rp h) refl

-- The name of the process is what stands between the first parenthesis and the last one, whatever
-- parentheses the name itself has.
pub procname-stat :
    (before name after : List ℕ)
    → Without b'(' before
    → Without b')' after
    → as_string (procname (before ++ b'(' ∷ (name ++ b')' ∷ after))) ≡ name
unfolding procname
procname-stat before name after h k =
    let stat : List ℕ = before ++ b'(' ∷ (name ++ b')' ∷ after) in
    let last : ℕ = length (before ++ b'(' ∷ name) in
    let n : last ≡ length before + suc (length name) = length-append before (b'(' ∷ name) in
    ap₂ (λ lp rp. as_string (name_between stat lp rp))
      (find_first-here b'(' before (name ++ b')' ∷ after) h)
      (ap (find_last b')') (sym (append_assoc before (b'(' ∷ name) (b')' ∷ after)))
        ∙ find_last-here b')' (before ++ b'(' ∷ name) after k)
    ∙ name_between-found stat (length before) last (omega arith)
    ∙ ap₂ (λ m d. take m (drop d stat)) {x = last - length before - 1} {y = length name}
        {u = length before + 1} {v = suc (length before)} (omega arith) (omega arith)
    ∙ ap (take (length name)) (drop_past_byte b'(' before (name ++ b')' ∷ after))
    ∙ take-append_length name (b')' ∷ after)
