-- ===== src/LogFile/Rolling.antt =====
-- The files that base/LogFile.cpp opens one after another, and what is in them.
use cly_server.Base.{
  ℕ, suc, ◌-◌, ◌≤◌, ◌<◌, ◌≡◌, refl, sym, ap, ◌∙◌, Bool, true, false, some, List, [], ◌∷◌, ◌++◌, not,
  ltb, leb, ◌==◌, if◌then◌else◌, length, take, arith, append_assoc, append-nil, length-append,
  Result, ok, fault, ◌>>=◌, take-all,
}
use cly_server.Base.Fault.{Fault}
use cly_server.FileUtil.{AppendFile, Fwrite, open_append, append}
use cly_server.FileUtil.Appending.{Answers, Faultless, Appended, append-Appended}
use cly_server.LogFile.{
  LogFile, Process, World, get_log_file_name, period, change_file, roll_file, roll_on, flush_file,
  check, after_append, append_unlocked, appended,
}
use cly_server.FileUtil

-- Files, each named for a time before that of the file behind it.
abbrev pub Named : Process → List ℕ → ℕ → List AppendFile → Type 0
Named p basename before [] = Unit
Named p basename before (f ∷ fs) =
    (time : ℕ) × (time < before)
    × (f.name ≡ get_log_file_name p basename time)
    × Named p basename time fs

-- What the files hold, the last one first.
unfoldable pub joined : List AppendFile → List ℕ
joined [] = []
joined (f ∷ fs) = joined fs ++ f.taken

-- What holds of a log between two calls, with the bytes that were logged.
pub record Inv (p : Process) (bytes : List ℕ) (l : LogFile) : Type 0 where
  pub file_named : l.file.name ≡ get_log_file_name p l.basename l.last_roll
  pub older_named : Named p l.basename l.last_roll l.older
  pub aligned : l.start_of_period ≡ period l.last_roll
  pub flushed_later : l.last_roll ≤ l.last_flush
  pub counting : 0 < l.check_every_n → l.count < l.check_every_n
  pub nothing_lost : joined (l.file ∷ l.older) ≡ bytes
  pub measured : l.file.written_bytes ≡ length l.file.taken

-- What a call leads to: it fails only where `fopen` gave no stream.
pub data Gives {A : Type 0} (opened : Bool) (P : A → Type 0) : Result A → Type 0 where
  gives : {a : A} → P a → Gives opened P (ok a)
  unopened : {e : Fault} → opened ≡ false → Gives opened P (fault e)

pub Gives-bind :
    {A B : Type 0} {P : A → Type 0} {Q : B → Type 0} {opened : Bool} {r : Result A}
    (f : A → Result B)
    → Gives opened P r
    → ((a : A) → P a → Gives opened Q (f a))
    → Gives opened Q (r >>= f)
Gives-bind f (gives {a} h) k = k a h
Gives-bind f (unopened e) k = unopened e

pub Gives-if :
    {A : Type 0} {P : A → Type 0} {opened : Bool} (test : Bool) {r s : Result A}
    → (test ≡ true → Gives opened P r)
    → (test ≡ false → Gives opened P s)
    → Gives opened P (if test then r else s)
Gives-if true h k = h refl
Gives-if false h k = k refl

changed-Inv :
    {p : Process} {bytes : List ℕ} {l : LogFile} (now : ℕ) {file : AppendFile}
    → Inv p bytes l
    → l.last_roll < now
    → file ≡ record {
      name = get_log_file_name p l.basename now;
      taken = [];
      flushed = 0;
      written_bytes = 0;
    }
    → Inv p bytes (change_file l now file)
unfolding change_file joined
changed-Inv {p} {bytes} {l} now {file} v later e = record {
  file_named = ap (λ (f : AppendFile). f.name) e;
  older_named = (l.last_roll, later, v.file_named, v.older_named);
  aligned = refl;
  flushed_later = omega arith;
  counting = v.counting;
  nothing_lost =
      ap (λ (f : AppendFile). (joined l.older ++ l.file.taken) ++ f.taken) e
      ∙ append-nil _
      ∙ v.nothing_lost;
  measured =
      ap (λ (f : AppendFile). f.written_bytes) e ∙ ap (λ (f : AppendFile). length f.taken) (sym e);
}

pub open_append-Gives :
    (name : List ℕ) (opened : Bool)
    → Gives opened
        (λ (f : AppendFile). f ≡ record { name = name; taken = []; flushed = 0; written_bytes = 0 })
        (open_append name opened)
unfolding open_append
open_append-Gives name true = gives refl
open_append-Gives name false = unopened refl

pub roll_file-Inv :
    {p : Process} {bytes : List ℕ} {l : LogFile} (now : ℕ) (opened : Bool)
    → Inv p bytes l
    → Gives opened (λ r. Inv p bytes r.0) (roll_file p l now opened)
unfolding roll_file
roll_file-Inv {p} {bytes} {l} now opened v =
    Gives-if (ltb l.last_roll now)
      (λ later.
        Gives-bind (λ file. ok (change_file l now file, true)) (open_append-Gives _ opened)
          (λ file e. gives (changed-Inv now v (ground arith) e)))
      (λ _. gives v)

pub roll_on-Inv :
    {p : Process} {bytes : List ℕ} {l : LogFile} (w : World)
    → Inv p bytes l
    → Gives w.opened (Inv p bytes) (roll_on p l w)
unfolding roll_on
roll_on-Inv {p} {bytes} {l} w v =
    Gives-bind (λ r. ok r.0) (roll_file-Inv w.roll_now w.opened v) (λ r i. gives i)

pub flush_file-Inv :
    {p : Process} {bytes : List ℕ} {l : LogFile} → Inv p bytes l → Inv p bytes (flush_file l)
unfolding flush_file FileUtil.flush joined
flush_file-Inv v = record {
  file_named = v.file_named;
  older_named = v.older_named;
  aligned = v.aligned;
  flushed_later = v.flushed_later;
  counting = v.counting;
  nothing_lost = v.nothing_lost;
  measured = v.measured;
}

-- What one call may meet: `fwrite_unlocked` has no error, and takes a line in the end.
abbrev pub Sound : List ℕ → World → Type 0
Sound logline w =
    Answers (length logline) w.answers × (length logline ≤ length w.answers) × Faultless w.answers

checked-Inv :
    {p : Process} {bytes : List ℕ} {l : LogFile} (w : World)
    → Inv p bytes l
    → Gives w.opened (Inv p bytes) (check p l w)
unfolding check
checked-Inv {p} {bytes} {l} w v =
    Gives-if (not (period w.now == l.start_of_period)) (λ _. roll_on-Inv w v)
      (λ _.
        Gives-if (ltb l.flush_interval (w.now - l.last_flush))
          (λ late. gives (
            flush_file-Inv (record {
              file_named = v.file_named;
              older_named = v.older_named;
              aligned = v.aligned;
              flushed_later = let f = v.flushed_later in ground arith;
              counting = v.counting;
              nothing_lost = v.nothing_lost;
              measured = v.measured;
            })))
          (λ _. gives v))

count-Inv :
    {p : Process} {bytes : List ℕ} {l : LogFile} (count : ℕ)
    → Inv p bytes l
    → (0 < l.check_every_n → count < l.check_every_n)
    → Inv p bytes (record l { count = count })
count-Inv count v h = record {
  file_named = v.file_named;
  older_named = v.older_named;
  aligned = v.aligned;
  flushed_later = v.flushed_later;
  counting = h;
  nothing_lost = v.nothing_lost;
  measured = v.measured;
}

after_append-Inv :
    {p : Process} {bytes : List ℕ} {l : LogFile} (w : World)
    → Inv p bytes l
    → Gives w.opened (Inv p bytes) (after_append p l w)
unfolding after_append
after_append-Inv {p} {bytes} {l} w v =
    Gives-if (ltb l.roll_size l.file.written_bytes) (λ _. roll_on-Inv w v)
      (λ _.
        Gives-if (leb l.check_every_n (suc l.count)) (λ _. checked-Inv w (count-Inv 0 v (λ h. h)))
          (λ more. gives (count-Inv (suc l.count) v (λ _. ground arith))))

line-Inv :
    {p : Process} {bytes logline : List ℕ} {l : LogFile} {answers : List Fwrite} {file : AppendFile}
    → Inv p bytes l
    → Faultless answers
    → Appended l.file logline answers file
    → Inv p (bytes ++ logline) (record l { file = file })
unfolding joined
line-Inv {p} {bytes} {logline} {l} {answers} {file} v good a =
    let (e, n) = a.whole good in
    let b : file.taken ≡ l.file.taken ++ logline =
      a.bytes
      ∙ ap (λ k. l.file.taken ++ take k logline) e
      ∙ ap (λ xs. l.file.taken ++ xs) (take-all logline) in
    record {
      file_named = a.same.0 ∙ v.file_named;
      older_named = v.older_named;
      aligned = v.aligned;
      flushed_later = v.flushed_later;
      counting = v.counting;
      nothing_lost =
          ap (λ xs. joined l.older ++ xs) b
          ∙ sym (append_assoc (joined l.older) l.file.taken logline)
          ∙ ap (λ xs. xs ++ logline) v.nothing_lost;
      measured =
          let m = v.measured in
          let s = length-append l.file.taken logline in
          let t = ap (λ xs. length xs) b in omega arith;
    }

-- `append`, where `fwrite_unlocked` meets no error, comes to an end with the whole line in a file.
pub append_unlocked-Inv :
    {p : Process} {bytes : List ℕ} {l : LogFile} (logline : List ℕ) (w : World)
    → Inv p bytes l
    → Sound logline w
    → (r : Result LogFile) × (append_unlocked p l logline w ≡ some r)
      × Gives w.opened (Inv p (bytes ++ logline)) r
unfolding append_unlocked appended
append_unlocked-Inv {p} {bytes} {l} logline w v (a, enough, good) =
    let (file, e, line) = append-Appended l.file logline w.answers a enough in
    (_, ap (appended p l w) e, after_append-Inv w (line-Inv v good line))
