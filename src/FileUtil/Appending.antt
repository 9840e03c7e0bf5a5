-- ===== src/FileUtil/Appending.antt =====
-- The loop of AppendFile::append, base/FileUtil.cpp.
use cly_server.Base.{
  ℕ, suc, ◌+◌, ◌-◌, ◌≤◌, ◌<◌, ◌≡◌, refl, sym, ap, subst, ◌∙◌, true, false, some, List, [], ◌∷◌,
  ◌++◌, ◌==◌, ◌⊎◌, inl, inr, not, ◌&&◌, length, take, All, arith, append_assoc, append-nil,
  take-add, Bool-cases, ==_iff,
}
use cly_server.FileUtil.{AppendFile, Fwrite, write, count_written, append_loop, append}

-- What `fwrite_unlocked` may answer where so many bytes remain: no more than these, and fewer than
-- all of them only with an error or after some progress.
abbrev pub Answers : ℕ → List Fwrite → Type 0
Answers remain [] = Unit
Answers remain (a ∷ answers) =
    (a.count ≤ remain) × ((0 < a.count) ⊎ (a.error ≡ true)) × Answers (remain - a.count) answers

abbrev pub Faultless : List Fwrite → Type 0
Faultless = All (λ a. a.error ≡ false)

-- A line that is appended up to some byte.
pub record Appended (f : AppendFile) (logline : List ℕ) (answers : List Fwrite) (f' : AppendFile)
    : Type 0 where
  pub reached : ℕ
  pub in_line : reached ≤ length logline
  pub bytes : f'.taken ≡ f.taken ++ take reached logline
  pub counted : f'.written_bytes ≤ f.written_bytes + reached
  pub whole :
      Faultless answers
      → (reached ≡ length logline) × (f'.written_bytes ≡ f.written_bytes + length logline)
  pub same : (f'.name ≡ f.name) × (f'.flushed ≡ f.flushed)

-- Where the loop stands: the bytes up to `written` are taken, and none is counted yet.
record Underway (f : AppendFile) (logline : List ℕ) (written : ℕ) (g : AppendFile) : Type 0 where
  in_line : written ≤ length logline
  bytes : g.taken ≡ f.taken ++ take written logline
  uncounted : g.written_bytes ≡ f.written_bytes
  same : (g.name ≡ f.name) × (g.flushed ≡ f.flushed)

write-Underway :
    {f g : AppendFile} {logline : List ℕ} {written : ℕ} (count : ℕ)
    → Underway f logline written g
    → count ≤ length logline - written
    → Underway f logline (written + count) (write g logline written count)
unfolding write
write-Underway {f} {g} {logline} {written} count u h = record {
  in_line = let i = u.in_line in omega arith;
  bytes =
      rw u.bytes
        (append_assoc f.taken _ _ ∙ ap (λ xs. f.taken ++ xs) (take-add written count logline));
  uncounted = u.uncounted;
  same = u.same;
}

count-Appended :
    {f g : AppendFile} {logline : List ℕ} {written : ℕ} (answers : List Fwrite) (counted : ℕ)
    → Underway f logline written g
    → counted ≤ written
    → (Faultless answers → (written ≡ length logline) × (counted ≡ length logline))
    → Appended f logline answers (count_written g counted)
unfolding count_written
count-Appended {f} {g} {logline} {written} answers counted u h w = record {
  reached = written;
  in_line = u.in_line;
  bytes = u.bytes;
  counted = let c = u.uncounted in omega arith;
  whole = λ good. let c = u.uncounted in ((w good).0, let (_, e) = w good in omega arith);
  same = u.same;
}

unbroken :
    (a : Fwrite) (remain : ℕ) → a.error ≡ false → (not (a.count == remain) && a.error) ≡ true → ⊥
unbroken a remain good broken = ground arith

-- A call that does not end the loop leaves fewer bytes.
progress :
    (a : Fwrite) (answers : List Fwrite) (all written : ℕ)
    → (0 < a.count) ⊎ (a.error ≡ true)
    → (not (a.count == all - written) && a.error) ≡ false
    → all - written ≤ suc (length answers)
    → all - (written + a.count) ≤ length answers
progress a answers all written moved goes enough = ground arith

append_loop-Appended :
    {f : AppendFile} {logline : List ℕ} (answers : List Fwrite) {g : AppendFile} {written : ℕ}
    → Underway f logline written g
    → Answers (length logline - written) answers
    → length logline - written ≤ length answers
    → (f' : AppendFile) × (append_loop g logline written answers ≡ some f')
      × Appended f logline answers f'
unfolding append_loop
append_loop-Appended {f} {logline} [] {g} {written} u a h =
    let i = u.in_line in
    let e : written ≡ length logline = omega arith in
    (
      count_written g written,
      rw ((==_iff written (length logline)).1 e),
      count-Appended [] written u (omega arith) (λ _. (e, e)),
    )
append_loop-Appended {f} {logline} (a ∷ answers) {g} {written} u h enough =
    elim (Bool-cases (written == length logline)) [
      | inl done ↦
          let e = (==_iff written (length logline)).0 done in
          (
            count_written g written,
            rw done,
            count-Appended (a ∷ answers) written u (omega arith) (λ _. (e, e)),
          )
      | inr more ↦ elim (Bool-cases (not (a.count == length logline - written) && a.error)) [
        | inl broken ↦ (
          count_written (write g logline written a.count) written,
          rw (more, broken),
          count-Appended (a ∷ answers) written (write-Underway a.count u h.0) (omega arith)
              (λ good. absurd (unbroken a (length logline - written) good.0 broken)),
        )
        | inr goes ↦
            let (f', e, r) =
              append_loop-Appended answers (write-Underway a.count u h.0)
                (subst (λ n. Answers n answers) (omega arith) h.2)
                (progress a answers _ written h.1 goes enough) in
            (
              f',
              rw (more, goes) e,
              record {
                reached = r.reached;
                in_line = r.in_line;
                bytes = r.bytes;
                counted = r.counted;
                whole = λ good. r.whole good.1;
                same = r.same;
              },
            )
      ]
    ]

-- Whatever `fwrite_unlocked` answers, if each call takes no more than it is offered and a call that
-- takes nothing has met an error, `append` ends after no more calls than the line has bytes. The
-- stream has then taken a prefix of the line behind what it had, and `writtenBytes` counts no byte
-- that was not taken; if no call met an error, it is the whole line, and every byte is counted.
pub append-Appended :
    (f : AppendFile) (logline : List ℕ) (answers : List Fwrite)
    → Answers (length logline) answers
    → length logline ≤ length answers
    → (f' : AppendFile) × (append f logline answers ≡ some f') × Appended f logline answers f'
unfolding append
append-Appended f logline answers a enough =
    append_loop-Appended answers
      (record {
        in_line = omega arith;
        bytes = sym (append-nil f.taken);
        uncounted = refl;
        same = (refl, refl);
      })
      (subst (λ n. Answers n answers) (omega arith) a) (omega arith)
