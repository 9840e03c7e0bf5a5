-- ===== src/FileUtil/Reading.antt =====
-- What ReadSmallFile of base/FileUtil.cpp reads.
use cly_server.Base.{
  ℕ, suc, ◌+◌, ◌-◌, ◌≤◌, ◌<◌, ◌≡◌, refl, sym, ap, ◌∙◌, Bool, true, false, Option, some, none, List,
  [], ◌∷◌, ◌++◌, length, take, drop, min, arith, append_assoc, append-nil, take-add, take-nil,
  length-append, length-take,
}
use cly_server.FileUtil.{
  Read, got, failed, Reply, regular, buffer_size, to_read, read_loop, use_stat, tell_time,
  open_small, read_to_string,
}

-- What `read` answers, call by call, on a file with so many bytes left, until no more fit or the file
-- ends: each time the next bytes, at most as many as it is offered.
pub data Reads (max_size : ℕ) : List ℕ → List ℕ → List Read → Type 0 where
  full :
      {content left : List ℕ} {answers : List Read}
      → max_size ≤ length content
      → Reads max_size content left answers
  ended : {content : List ℕ} {answers : List Read} → Reads max_size content [] (got [] ∷ answers)
  more :
      {content left : List ℕ} {answers : List Read} (n : ℕ)
      → length content < max_size
      → suc n ≤ to_read max_size content
      → suc n ≤ length left
      → Reads max_size (content ++ take (suc n) left) (drop (suc n) left) answers
      → Reads max_size content left (got (take (suc n) left) ∷ answers)

read_loop-full :
    (max_size : ℕ) (r : Reply) (answers : List Read)
    → max_size ≤ length r.content
    → read_loop max_size r answers ≡ some r
unfolding read_loop
read_loop-full max_size r [] h = ground arith
read_loop-full max_size r (got [] ∷ answers) h = refl
read_loop-full max_size r (got (x ∷ xs) ∷ answers) h = ground arith
read_loop-full max_size r (failed errno ∷ answers) h = ground arith

-- A call that hands over some bytes where there is room.
read_loop-got :
    (max_size : ℕ) (r : Reply) (x : ℕ) (xs : List ℕ) (answers : List Read)
    → length r.content < max_size
    → read_loop max_size r (got (x ∷ xs) ∷ answers)
      ≡ read_loop max_size (record r { content = r.content ++ x ∷ xs }) answers
unfolding read_loop
read_loop-got max_size r x xs answers h = ground arith

read_loop-Reads :
    {max_size : ℕ} {content left : List ℕ} {answers : List Read} (r : Reply)
    → Reads max_size content left answers
    → read_loop max_size (record r { content = content }) answers
      ≡ some (record r { content = content ++ take (max_size - length content) left })
unfolding read_loop to_read
read_loop-Reads {max_size} {content} {left} {answers} r (full h) =
    read_loop-full max_size (record r { content = content }) answers h
    ∙ ap (λ xs. some (record r { content = xs }))
        (sym (
          ap (λ n. content ++ take n left) {x = max_size - length content} {y = 0} (omega arith)
          ∙ append-nil content))
read_loop-Reads {max_size} {content} r ended =
    ap (λ xs. some (record r { content = xs }))
      (sym (ap (λ xs. content ++ xs) (take-nil (max_size - length content)) ∙ append-nil content))
read_loop-Reads {max_size} {content} {left = []} r (more n room offered there rest) =
    absurd (omega arith)
read_loop-Reads {max_size} {content} {left = y ∷ ys} r (more {answers} n room offered there rest) =
    read_loop-got max_size (record r { content = content }) y (take n ys) answers room
    ∙ read_loop-Reads r rest
    ∙ ap (λ xs. some (record r { content = xs })) regroup
  where
    fits : suc n + (max_size - length content - suc n) ≡ max_size - length content
    fits = let o : suc n ≤ min (max_size - length content) buffer_size = offered in omega arith

    room_left : max_size - length (content ++ y ∷ take n ys) ≡ max_size - length content - suc n
    room_left = omega (arith, length-append content (y ∷ take n ys), length-take n ys)

    regroup :
        (content ++ y ∷ take n ys)
          ++ take (max_size - length (content ++ y ∷ take n ys)) (drop n ys)
        ≡ content ++ take (max_size - length content) (y ∷ ys)
    regroup =
        append_assoc content (y ∷ take n ys) _
        ∙ ap (λ k. content ++ (y ∷ take n ys ++ take k (drop n ys))) room_left
        ∙ ap (λ xs. content ++ xs) (take-add (suc n) (max_size - length content - suc n) (y ∷ ys))
        ∙ ap (λ k. content ++ take k (y ∷ ys)) {x = suc n + (max_size - length content - suc n)}
            {y = max_size - length content} fits

abbrev asked : Option ℕ → Option ℕ → Reply
asked size time = record { error = 0; content = []; file_size = size; modify_time = time }

-- A regular file that could be opened is read up to `maxSize` bytes and no further, in whatever
-- pieces `read` hands it over, and whatever is asked besides; no error is reported.
pub read_to_string-Reads :
    {max_size : ℕ} {left : List ℕ} {answers : List Read} (content : List ℕ)
    (wants_size wants_time : Bool) (size time : ℕ)
    → Reads max_size [] left answers
    → (r : Reply) × (read_to_string
          (open_small none)
          max_size
          content
          wants_size
          wants_time
          (regular size time)
          answers
        ≡ some r)
      × (r.content ≡ take max_size left)
      × (r.error ≡ 0)
unfolding read_to_string open_small use_stat tell_time
read_to_string-Reads {max_size} {left} content false wants_time size time h = (
  _,
  read_loop-Reads (asked none none) h,
  ap (λ n. take n left) {x = max_size - 0} {y = max_size} (omega arith),
  refl,
)
read_to_string-Reads {max_size} {left} content true false size time h = (
  _,
  read_loop-Reads (asked (some size) none) h,
  ap (λ n. take n left) {x = max_size - 0} {y = max_size} (omega arith),
  refl,
)
read_to_string-Reads {max_size} {left} content true true size time h = (
  _,
  read_loop-Reads (asked (some size) (some time)) h,
  ap (λ n. take n left) {x = max_size - 0} {y = max_size} (omega arith),
  refl,
)
