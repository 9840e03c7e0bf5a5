-- ===== src/LogFile/Sizes.antt =====
-- How large base/LogFile.cpp lets a file grow.
use cly_server.Base.{
  ℕ, suc, ◌-◌, ◌≤◌, ◌<◌, ◌≡◌, ap, subst, Bool, true, false, some, List, ◌⊎◌, inl, inr, not, ltb,
  leb, ◌==◌, ok, arith, Option, none, Result,
}
use cly_server.FileUtil.{AppendFile, open_append, append}
use cly_server.FileUtil
use cly_server.LogFile.{
  LogFile, Process, World, period, change_file, roll_file, roll_on, flush_file, check, after_append,
  append_unlocked, appended,
}
use cly_server.LogFile.Rolling.{Gives, gives, unopened, Gives-if, Gives-bind, open_append-Gives}

abbrev pub Small : LogFile → Type 0
Small l = l.file.written_bytes ≤ l.roll_size

roll_file-Small :
    (p : Process) (l : LogFile) (now : ℕ) (opened : Bool)
    → (l.last_roll < now) ⊎ Small l
    → Gives opened (λ r. Small r.0) (roll_file p l now opened)
unfolding roll_file change_file
roll_file-Small p l now opened h =
    Gives-if (ltb l.last_roll now)
      (λ later.
        Gives-bind (λ file. ok (change_file l now file, true)) (open_append-Gives _ opened)
          (λ file e. gives (empty file (ap (λ (f : AppendFile). f.written_bytes) e))))
      (λ (soon : ltb l.last_roll now ≡ false). gives (kept soon h))
  where
    empty : (file : AppendFile) → file.written_bytes ≡ 0 → Small (change_file l now file)
    empty file e = omega arith

    kept : ltb l.last_roll now ≡ false → (l.last_roll < now) ⊎ Small l → Small l
    kept soon h = ground arith

roll_on-Small :
    (p : Process) (l : LogFile) (w : World)
    → (l.last_roll < w.roll_now) ⊎ Small l
    → Gives w.opened Small (roll_on p l w)
unfolding roll_on
roll_on-Small p l w h =
    Gives-bind (λ r. ok r.0) (roll_file-Small p l w.roll_now w.opened h) (λ r i. gives i)

check-Small : (p : Process) (l : LogFile) (w : World) → Small l → Gives w.opened Small (check p l w)
unfolding check flush_file FileUtil.flush
check-Small p l w h =
    Gives-if (not (period w.now == l.start_of_period)) (λ _. roll_on-Small p l w (inr h))
      (λ _. Gives-if (ltb l.flush_interval (w.now - l.last_flush)) (λ _. gives h) (λ _. gives h))

after_append-Small :
    (p : Process) (l : LogFile) (w : World)
    → l.last_roll < w.roll_now
    → Gives w.opened Small (after_append p l w)
unfolding after_append
after_append-Small p l w later =
    Gives-if (ltb l.roll_size l.file.written_bytes) (λ _. roll_on-Small p l w (inl later))
      (λ (small : ltb l.roll_size l.file.written_bytes ≡ false).
        Gives-if (leb l.check_every_n (suc l.count))
          (λ _. check-Small p (record l { count = 0 }) w (ground arith))
          (λ _. gives (ground arith)))

-- When a call of `append` returns, the file that the next line goes to counts no more than
-- `rollSize_` bytes, unless the clock has not moved on since that file was opened.
pub append_unlocked-Small :
    (p : Process) (l : LogFile) (logline : List ℕ) (w : World) {l' : LogFile}
    → l.last_roll < w.roll_now
    → append_unlocked p l logline w ≡ some (ok l')
    → Small l'
unfolding append_unlocked appended
append_unlocked-Small p l logline w {l'} later e = by_answer (append l.file logline w.answers) e
  where
    given : {r : Result LogFile} → Gives w.opened Small r → some r ≡ some (ok l') → Small l'
    given (gives {a} h) same = subst Small (inner same) h
      where
        inner : {x y : LogFile} → some (ok x) ≡ some (ok y) → x ≡ y
        inner s = cc
    given (unopened o) same = absurd (cc)

    by_answer : (o : Option AppendFile) → appended p l w o ≡ some (ok l') → Small l'
    by_answer none same = absurd (cc)
    by_answer (some file) same =
        given (after_append-Small p (record l { file = file }) w later) same
