-- ===== src/Thread/Phases.antt =====
-- The states that a thread with a loop passes, where `pthread_create` succeeds: where its two sides
-- are tells all the rest.
use cly_server.Base.{
  ℕ, ◌≡◌, subst, ap, sym, ◌∙◌, Bool, true, false, Option, none, some, List, ltb, if◌then◌else◌, ok,
  assert, ◌>>◌, arith,
}
use cly_server.Thread.{
  Thread, end_start, Starter, idle, latching, locking, waiting, quitting, joining, returned,
  calling_quit, gone, Child, unborn, born, known, building, publishing, looping, ended, done,
  LoopThread, Setup, after_latch, starter_at, wake, child_at,
}

-- Where the promise is set and the loop has not ended, where it may be used no more, and where the
-- owner may wait.
pub data IsOpen : Child → Type 0 where
  at_building : IsOpen building
  at_publishing : IsOpen publishing
  at_looping : IsOpen looping

pub data IsOver : Child → Type 0 where
  over_looping : IsOver looping
  over_ended : IsOver ended
  over_done : IsOver done

pub data MayWait : Child → Type 0 where
  wait_building : MayWait building
  wait_publishing : MayWait publishing

pub data Allowed (u : Setup) : Starter → Child → Type 0 where
  fresh : Allowed u idle unborn
  at_birth : Allowed u latching born
  at_tid : Allowed u latching known
  latched : {c : Child} → IsOpen c → Allowed u latching c
  locks : {c : Child} → IsOpen c → Allowed u locking c
  waits : {c : Child} → MayWait c → Allowed u waiting c
  has : Allowed u (returned u.new_loop) looping
  quits : Allowed u quitting looping
  calls : Allowed u (calling_quit u.new_loop) looping
  joins : {c : Child} → IsOver c → Allowed u joining c
  left : Allowed u (gone true) done

unfoldable pub is_started : Starter → Bool
is_started idle = false
is_started _ = true

unfoldable pub is_joined : Starter → Bool
is_joined joining = true
is_joined (gone b) = b
is_joined _ = false

unfoldable pub is_exiting : Starter → Bool
is_exiting quitting = true
is_exiting (calling_quit l) = true
is_exiting joining = true
is_exiting (gone b) = true
is_exiting _ = false

unfoldable pub is_counted : Child → Bool
is_counted unborn = false
is_counted born = false
is_counted known = false
is_counted _ = true

unfoldable pub tid_of : Setup → Child → ℕ
tid_of u unborn = 0
tid_of u born = 0
tid_of u _ = u.gettid

unfoldable pub loop_of : Setup → Child → Option ℕ
loop_of u looping = some u.new_loop
loop_of u ended = some u.new_loop
loop_of u _ = none

unfoldable pub called_of : Setup → Child → Bool
called_of u publishing = u.has_callback
called_of u looping = u.has_callback
called_of u ended = u.has_callback
called_of u done = u.has_callback
called_of u _ = false

unfoldable pub shape : Setup → List ℕ → Starter → Child → LoopThread
shape u name st c = record {
  thread = record {
    started = is_started st;
    joined = is_joined st;
    tid = tid_of u c;
    name = name;
    has_future = is_started st;
    latch = is_counted c;
  };
  starter = st;
  child = c;
  loop = loop_of u c;
  exiting = is_exiting st;
  quit_asked = is_joined st;
  called_back = called_of u c;
}

pub data Fits (u : Setup) (name : List ℕ) : LoopThread → Type 0 where
  fits : {st : Starter} {c : Child} → Allowed u st c → Fits u name (shape u name st c)

pub moved :
    (u : Setup) (name : List ℕ) (s' : LoopThread) (st : Starter) (c : Child)
    → Allowed u st c
    → ◌≡◌ {A = Option LoopThread} (some (shape u name st c)) (some s')
    → Fits u name s'
moved u name s' st c a e = subst (Fits u name) (some_injective e) (fits a)
  where
    some_injective : {x y : LoopThread} → ◌≡◌ {A = Option LoopThread} (some x) (some y) → x ≡ y
    some_injective h = cc

pub child-Fits :
    (u : Setup) (name : List ℕ) (s' : LoopThread) {st : Starter} {c : Child}
    → Allowed u st c
    → child_at u (shape u name st c) c ≡ some s'
    → Fits u name s'
unfolding child_at shape is_started is_joined is_exiting is_counted tid_of loop_of called_of wake
child-Fits u name s' fresh e = absurd (ground arith)
child-Fits u name s' at_birth e = moved u name s' latching known at_tid e
child-Fits u name s' at_tid e = moved u name s' latching building (latched at_building) e
child-Fits u name s' (latched at_building) e =
    moved u name s' latching publishing (latched at_publishing) e
child-Fits u name s' (latched at_publishing) e =
    moved u name s' latching looping (latched at_looping) e
child-Fits u name s' (latched at_looping) e = absurd (ground arith)
child-Fits u name s' (locks at_building) e =
    moved u name s' locking publishing (locks at_publishing) e
child-Fits u name s' (locks at_publishing) e = moved u name s' locking looping (locks at_looping) e
child-Fits u name s' (locks at_looping) e = absurd (ground arith)
child-Fits u name s' (waits wait_building) e =
    moved u name s' waiting publishing (waits wait_publishing) e
child-Fits u name s' (waits wait_publishing) e =
    moved u name s' locking looping (locks at_looping) e
child-Fits u name s' has e = absurd (ground arith)
child-Fits u name s' quits e = absurd (ground arith)
child-Fits u name s' calls e = absurd (ground arith)
child-Fits u name s' (joins over_looping) e = absurd (ground arith)
child-Fits u name s' (joins over_ended) e = moved u name s' joining done (joins over_done) e
child-Fits u name s' (joins over_done) e = absurd (ground arith)
child-Fits u name s' left e = absurd (ground arith)

-- Nobody but the destructor has the loop quit.
abbrev pub Calm : Setup → Type 0
Calm u = u.others_quit ≡ false

-- What a step of the owner needs of the setup: a thread is created, and its number is not 0.
abbrev pub Works : Setup → Type 0
Works u = (u.is_created ≡ true) × (ltb 0 u.gettid ≡ true)

abbrev after_create : LoopThread → Thread → Bool → LoopThread
after_create s t created =
    if created
    then record s { thread = t; starter = latching; child = born }
    else record s { thread = record t { started = false }; starter = locking }

abbrev pub after_check : (u : Setup) → List ℕ → Child → Bool → Option LoopThread
after_check u name c positive =
    some (
      after_latch (shape u name latching c)
        (assert positive >> ok (shape u name latching c).thread))

pub latch-Fits :
    (u : Setup) (name : List ℕ) (s' : LoopThread) {c : Child}
    → Works u
    → IsOpen c
    → starter_at u (shape u name latching c) latching ≡ some s'
    → Fits u name s'
unfolding starter_at end_start after_latch shape is_started is_joined is_exiting is_counted tid_of
    loop_of called_of
latch-Fits u name s' (_, positive) at_building e =
    moved u name s' locking building (locks at_building)
      (sym (ap (after_check u name building) positive) ∙ e)
latch-Fits u name s' (_, positive) at_publishing e =
    moved u name s' locking publishing (locks at_publishing)
      (sym (ap (after_check u name publishing) positive) ∙ e)
latch-Fits u name s' (_, positive) at_looping e =
    moved u name s' locking looping (locks at_looping)
      (sym (ap (after_check u name looping) positive) ∙ e)
