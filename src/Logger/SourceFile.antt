-- ===== src/Logger/SourceFile.antt =====
-- The name of the source file in a message of base/Logging.h.
use cly_server.Base.{
  ℕ, suc, ◌-◌, ◌≡◌, ◌≢◌, refl, ap, ap₂, ◌∙◌, none, some, List, [], ◌∷◌, ◌++◌, length, drop, All,
  length-append, arith,
}
use cly_server.Logger.{
  SourceName, find_last, cut_literal, from_literal, cut_filename, from_filename,
}

-- A name without a slash.
abbrev pub IsPlain : List ℕ → Type 0
IsPlain = All (λ b. b ≢ b'/')

find_last-plain : (name : List ℕ) → IsPlain name → find_last b'/' name ≡ none
unfolding find_last
find_last-plain [] h = refl
find_last-plain (b ∷ bs) (ne, h) = rw (find_last-plain bs h) (ground arith)

find_last-slash :
    (dir name : List ℕ) → IsPlain name → find_last b'/' (dir ++ b'/' ∷ name) ≡ some (length dir)
unfolding find_last
find_last-slash [] name h = rw (find_last-plain name h) refl
find_last-slash (b ∷ bs) name h = rw (find_last-slash bs name h) refl

drop_slash : (dir name : List ℕ) → drop (suc (length dir)) (dir ++ b'/' ∷ name) ≡ name
drop_slash [] name = refl
drop_slash (b ∷ bs) name = drop_slash bs name

abbrev named : List ℕ → ℕ → SourceName
named text size = record { data_text = text; size = size }

length-path : (dir name : List ℕ) → length (dir ++ b'/' ∷ name) - suc (length dir) ≡ length name
length-path dir name = omega (arith, length-append dir (b'/' ∷ name))

-- Of a path, both constructors keep the part behind the last slash, with its length; and a name
-- without a slash as it is.
pub from_literal-name :
    (dir name : List ℕ)
    → IsPlain name
    → (from_literal (dir ++ b'/' ∷ name) ≡ record { data_text = name; size = length name })
      × (from_filename (dir ++ b'/' ∷ name) ≡ record { data_text = name; size = length name })
      × (from_literal name ≡ record { data_text = name; size = length name })
      × (from_filename name ≡ record { data_text = name; size = length name })
unfolding from_literal from_filename cut_literal cut_filename
from_literal-name dir name h =
    let path : List ℕ = dir ++ b'/' ∷ name in
    let last = find_last-slash dir name h in
    let none_there = find_last-plain name h in
    (
      ap (cut_literal path) last ∙ ap₂ named (drop_slash dir name) (length-path dir name),
      ap (λ o. named (cut_filename path o) (length (cut_filename path o))) last
          ∙ ap (λ t. named t (length t)) (drop_slash dir name),
      ap (cut_literal name) none_there,
      ap (λ o. named (cut_filename name o) (length (cut_filename name o))) none_there,
    )
