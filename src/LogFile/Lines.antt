-- ===== src/LogFile/Lines.antt =====
-- What a base/LogFile.cpp log does over many calls.
use cly_server.Base.{
  ℕ, ◌≡◌, refl, sym, ap, subst, ◌∙◌, Bool, true, false, some, List, [], ◌++◌, not, ltb, length,
  arith, Result, ok, assert, ◌>>◌,
}
use cly_server.FileUtil.{AppendFile}
use cly_server.LogFile.{
  LogFile, Process, World, get_log_file_name, roll_file, flush_file, append_unlocked, has_slash,
  first_log, new,
}
use cly_server.LogFile.Rolling.{
  Inv, joined, Gives, gives, unopened, Gives-if, Sound, append_unlocked-Inv, roll_file-Inv,
  flush_file-Inv, open_append-Gives, Gives-bind,
}

-- The logs that come about from calls of `append`, `flush` and `rollFile`, with all that was logged.
pub data Reachable (p : Process) : LogFile → List ℕ → Type 0 where
  created :
      {l : LogFile} (basename : List ℕ) (roll_size flush_interval check_every_n now : ℕ)
      → new p basename roll_size flush_interval check_every_n now true ≡ ok l
      → Reachable p l []
  appended :
      {l l' : LogFile} {bytes : List ℕ} (logline : List ℕ) (w : World)
      → Reachable p l bytes
      → Sound logline w
      → append_unlocked p l logline w ≡ some (ok l')
      → Reachable p l' (bytes ++ logline)
  flushed : {l : LogFile} {bytes : List ℕ} → Reachable p l bytes → Reachable p (flush_file l) bytes
  rolled :
      {l l' : LogFile} {bytes : List ℕ} {b : Bool} (now : ℕ) (opened : Bool)
      → Reachable p l bytes
      → roll_file p l now opened ≡ ok (l', b)
      → Reachable p l' bytes

given :
    {A : Type 0} {P : A → Type 0} {opened : Bool} {r : Result A} {a : A}
    → Gives opened P r
    → r ≡ ok a
    → P a
given {P = P} (gives h) e = subst P (let same : _ ≡ _ = cc in same) h
given (unopened o) e = absurd (cc)

weaken :
    {A : Type 0} {P : A → Type 0} {opened : Bool} {r : Result A}
    → Gives opened P r
    → Gives false P r
weaken (gives h) = gives h
weaken (unopened e) = unopened refl

asserted :
    {A : Type 0} {P : A → Type 0} (test : Bool) {r : Result A}
    → Gives false P r
    → Gives false P (assert test >> r)
asserted true h = h
asserted false h = unopened refl

first-Inv :
    {p : Process} (basename : List ℕ) (roll_size flush_interval check_every_n now : ℕ)
    (file : AppendFile)
    → file ≡ record {
      name = get_log_file_name p basename now;
      taken = [];
      flushed = 0;
      written_bytes = 0;
    }
    → Inv p [] (first_log basename roll_size flush_interval check_every_n now file)
unfolding first_log joined
first-Inv basename roll_size flush_interval check_every_n now file e = record {
  file_named = ap (λ (f : AppendFile). f.name) e;
  older_named = tt;
  aligned = refl;
  flushed_later = omega arith;
  counting = λ h. h;
  nothing_lost = ap (λ (f : AppendFile). f.taken) e;
  measured =
      ap (λ (f : AppendFile). f.written_bytes) e ∙ ap (λ (f : AppendFile). length f.taken) (sym e);
}

-- A constructor that fails faults, which `false` leaves open.
new-Inv :
    {p : Process} (basename : List ℕ) (roll_size flush_interval check_every_n now : ℕ)
    → Gives false (Inv p []) (new p basename roll_size flush_interval check_every_n now true)
unfolding new
new-Inv {p} basename roll_size flush_interval check_every_n now =
    asserted (not (has_slash basename)) (
      Gives-if (ltb 0 now)
        (λ _.
          Gives-bind
            (λ file. ok (first_log basename roll_size flush_interval check_every_n now file))
            (weaken (open_append-Gives (get_log_file_name p basename now) true))
            (λ file e.
              gives (first-Inv basename roll_size flush_interval check_every_n now file e)))
        (λ _. unopened refl))

-- In every log that comes about by calls of `append` in which `fwrite_unlocked` meets no error, of
-- `flush` and of `rollFile`, whatever the clock says: the files it opened hold, in the order in
-- which it opened them, all lines that were logged, in order, and nothing else; each was opened in
-- a later second than the one before and is named for that second; the period is the day of the
-- last file; the last flush is not before the last file was opened; and the count of lines stays
-- below `checkEveryN_`.
pub Reachable-Inv :
    {p : Process} {l : LogFile} {bytes : List ℕ} → Reachable p l bytes → Inv p bytes l
Reachable-Inv (created basename roll_size flush_interval check_every_n now e) =
    given (new-Inv basename roll_size flush_interval check_every_n now) e
Reachable-Inv {p} (appended {l} {l'} {bytes} logline w r s e) =
    let (x, e', g) = append_unlocked-Inv logline w (Reachable-Inv r) s in
    given g (first (sym e' ∙ e))
  where
    first : {x y : Result LogFile} → some x ≡ some y → x ≡ y
    first h = cc
Reachable-Inv (flushed r) = flush_file-Inv (Reachable-Inv r)
Reachable-Inv (rolled now opened r e) = given (roll_file-Inv now opened (Reachable-Inv r)) e

-- If the file can be opened where a new one is needed, `append` returns, and in a log that comes
-- about as above it leaves a log that does.
pub append-Reachable :
    {p : Process} {l : LogFile} {bytes : List ℕ} (logline : List ℕ) (w : World)
    → Reachable p l bytes
    → Sound logline w
    → w.opened ≡ true
    → (l' : LogFile) × (append_unlocked p l logline w ≡ some (ok l'))
      × Reachable p l' (bytes ++ logline)
append-Reachable {p} {l} {bytes} logline w r s o =
    let (x, e, g) = append_unlocked-Inv logline w (Reachable-Inv r) s in
    let (l', e') = returned o g in
    let e2 : append_unlocked p l logline w ≡ some (ok l') = e ∙ ap (λ z. some z) e' in
    (l', e2, appended logline w r s e2)
  where
    returned :
        {A : Type 0} {P : A → Type 0} {opened : Bool} {x : Result A}
        → opened ≡ true
        → Gives opened P x
        → (a : A) × (x ≡ ok a)
    returned o (gives {a} h) = (a, refl)
    returned o (unopened e) = absurd (cc)
