-- ===== src/LogFile/Names.antt =====
-- The names of the files that a base/LogFile.cpp log opens.
use mathlib.Core.List.{append_cancel_left, append_cancel_right}
use cly_server.Base.{ℕ, ◌≤◌, ◌≡◌, ◌≢◌, sym, ◌∙◌, List, [], ◌∷◌, ◌++◌, All, arith, codes}
use cly_server.Base.Decimal.{decimal}
use cly_server.FileUtil.{AppendFile}
use cly_server.LogFile.{LogFile, Process, get_log_file_name}
use cly_server.LogFile.Rolling.{Named}
use cly_server.LogFile.Lines.{Reachable, Reachable-Inv}

-- Files of which no two have one name.
abbrev pub Apart : List AppendFile → Type 0
Apart [] = Unit
Apart (f ∷ fs) = All (λ (g : AppendFile). f.name ≢ g.name) fs × Apart fs

name-injective :
    (p : Process) (basename : List ℕ)
    → ((s t : ℕ) → p.time_text s ≡ p.time_text t → s ≡ t)
    → (s t : ℕ) → get_log_file_name p basename s ≡ get_log_file_name p basename t
    → s ≡ t
unfolding get_log_file_name
name-injective p basename i s t e = i s t (
    append_cancel_right (p.time_text s) (p.time_text t)
      (p.hostname ++ (b'.' ∷ decimal p.pid ++ codes ".log"))
      (append_cancel_left basename
        (p.time_text s ++ (p.hostname ++ (b'.' ∷ decimal p.pid ++ codes ".log")))
        (p.time_text t ++ (p.hostname ++ (b'.' ∷ decimal p.pid ++ codes ".log"))) e))

Named-All :
    (p : Process) (basename : List ℕ)
    → ((s t : ℕ) → p.time_text s ≡ p.time_text t → s ≡ t)
    → (now before : ℕ) → before ≤ now
    → (name : List ℕ) → name ≡ get_log_file_name p basename now
    → (fs : List AppendFile) → Named p basename before fs
    → All (λ (g : AppendFile). name ≢ g.name) fs
Named-All p basename i now before h name e [] n = tt
Named-All p basename i now before h name e (f ∷ fs) (time, lt, e', n) = (
  λ same. absurd (differ (name-injective p basename i now time (sym e ∙ same ∙ e'))),
  Named-All p basename i now time (omega arith) name e fs n,
)
  where
    differ : now ≡ time → ⊥
    differ s = omega arith

Named-Apart :
    (p : Process) (basename : List ℕ)
    → ((s t : ℕ) → p.time_text s ≡ p.time_text t → s ≡ t)
    → (before : ℕ) (fs : List AppendFile) → Named p basename before fs
    → Apart fs
Named-Apart p basename i before [] n = tt
Named-Apart p basename i before (f ∷ fs) (time, lt, e, n) = (
  Named-All p basename i time time (omega arith) f.name e fs n,
  Named-Apart p basename i time fs n,
)

-- If `strftime` writes different texts for different seconds, no two files that a log opens have one
-- name: none is opened again and appended to.
pub Reachable-Apart :
    {p : Process} {l : LogFile} {bytes : List ℕ}
    → ((s t : ℕ) → p.time_text s ≡ p.time_text t → s ≡ t)
    → Reachable p l bytes
    → Apart (l.file ∷ l.older)
Reachable-Apart {p} {l} i r =
    let v = Reachable-Inv r in
    (
      Named-All p l.basename i l.last_roll l.last_roll (omega arith) l.file.name v.file_named
          l.older v.older_named,
      Named-Apart p l.basename i l.last_roll l.older v.older_named,
    )
