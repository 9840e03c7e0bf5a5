-- ===== src/Server/Rotation.antt =====
-- The rotation of net/EventLoopThreadPool.cpp.
use native.Mathlib.Nat.{add-mod_left, mod-eq_of_lt}
use cly_server.Base.{
  ℕ, zero, suc, ◌+◌, ◌%◌, ◌<◌, ◌≡◌, refl, sym, ap, ◌∙◌, true, false, Bool-cases, inl, inr, some,
  List, [], ◌∷◌, leb, leb→le, if◌then◌else◌, length, get_elem?, get_elem?-some, Result, ok, assert,
  ◌>>=◌, ◌>>◌, arith,
}
use cly_server.Server.{ThreadPool, is_empty, advance, loop_at, get_next_loop}

-- The loops of so many connections in a row.
unfoldable pub take_loops : ℕ → ThreadPool → Result (List ℕ)
take_loops zero p = ok []
take_loops (suc k) p = do (l, p') ← get_next_loop p; ls ← take_loops k p'; ok (l ∷ ls)

advance-last : (next size : ℕ) → leb size (next + 1) ≡ true → advance next size ≡ 0
unfolding advance
advance-last next size h = rw h

advance-inner : (next size : ℕ) → leb size (next + 1) ≡ false → advance next size ≡ next + 1
unfolding advance
advance-inner next size h = rw h

advance-mod :
    (next size i : ℕ) → next < size → (advance next size + i) % size ≡ (next + suc i) % size
advance-mod next size i h = elim (Bool-cases (leb size (next + 1))) [
  | inl wraps ↦
      let top : next + 1 ≡ size = omega (arith, leb→le size (next + 1) wraps) in
      ap (λ n. (n + i) % size) (advance-last next size wraps)
      ∙ ap (λ n. n % size) {x = 0 + i} {y = i} (omega arith)
      ∙ sym (add-mod_left size i)
      ∙ ap (λ n. n % size) {x = size + i} {y = next + suc i} (omega arith)
  | inr goes_on ↦
      ap (λ n. (n + i) % size) (advance-inner next size goes_on)
      ∙ ap (λ n. n % size) {x = next + 1 + i} {y = next + suc i} (omega arith)
]

pub advance-lt : (next size : ℕ) → next < size → advance next size < size
unfolding advance
advance-lt next size h = ground arith

is_empty-longer : (xs : List ℕ) (i : ℕ) → i < length xs → is_empty xs ≡ false
unfolding is_empty
is_empty-longer [] i h = absurd (omega arith)
is_empty-longer (x ∷ xs) i h = refl

pub get_next_loop_lem :
    (p : ThreadPool)
    → p.started ≡ true
    → p.next < length p.loops
    → (l : ℕ) × (get_next_loop p ≡ ok (l, record p { next = advance p.next (length p.loops) }))
      × (get_elem? p.loops p.next ≡ some l)
unfolding get_next_loop loop_at
get_next_loop_lem p s h =
    let (l, e) = get_elem?-some p.loops p.next h in
    (
      l,
      ap
            (λ b.
              assert b
              >> (if is_empty p.loops
                  then ok (p.base_loop, p)
                  else loop_at p (get_elem? p.loops p.next)))
            s
          ∙ ap (λ b. if b then ok (p.base_loop, p) else loop_at p (get_elem? p.loops p.next))
              (is_empty-longer p.loops p.next h)
          ∙ ap (loop_at p) e,
      e,
    )

-- The loops take turns: of so many connections in a row, each is given to the loop behind the one
-- before, the first loop after the last.
pub take_loops-rotates :
    (k : ℕ) (p : ThreadPool)
    → p.started ≡ true
    → p.next < length p.loops
    → (ls : List ℕ) × (take_loops k p ≡ ok ls)
      × (length ls ≡ k)
      × ((i : ℕ) → i < k → get_elem? ls i ≡ get_elem? p.loops ((p.next + i) % length p.loops))
unfolding take_loops
take_loops-rotates zero p s h = ([], refl, refl, λ i lt. absurd (omega arith))
take_loops-rotates (suc k) p s h =
    let p' : ThreadPool = record p { next = advance p.next (length p.loops) } in
    let (l, e, at) = get_next_loop_lem p s h in
    let (ls, e', len, turns) = take_loops-rotates k p' s (advance-lt p.next (length p.loops) h) in
    (l ∷ ls, rw (e, e'), omega (arith, len), each l ls at turns)
  where
    each :
        (l : ℕ) (ls : List ℕ)
        → get_elem? p.loops p.next ≡ some l
        → ((i : ℕ)
            → i < k
            → get_elem? ls i
              ≡ get_elem? p.loops ((advance p.next (length p.loops) + i) % length p.loops))
        → (i : ℕ) → i < suc k
        → get_elem? (l ∷ ls) i ≡ get_elem? p.loops ((p.next + i) % length p.loops)
    each l ls at turns zero lt =
        sym at
        ∙ ap (get_elem? p.loops) (
            sym (
              ap (λ n. n % length p.loops) {x = p.next + 0} {y = p.next} (omega arith)
              ∙ mod-eq_of_lt h))
    each l ls at turns (suc i) lt =
        turns i (omega arith) ∙ ap (get_elem? p.loops) (advance-mod p.next (length p.loops) i h)
