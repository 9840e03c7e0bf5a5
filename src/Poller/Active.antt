-- ===== src/Poller/Active.antt =====
-- `fillActiveChannels` of net/PollPoller.cpp on what poll(2) wrote.
use cly_server.Base.{
  ℕ, zero, suc, ◌≡◌, refl, sym, ap, ap₂, ◌∙◌, ◌⊎◌, inl, inr, true, false, some, List, [], ◌∷◌, map,
  arith, All, ok, Result, if◌then◌else◌, ==_iff, Bool-cases,
}
use cly_server.Base.Int.{ℤ, pos, negsuc}
use cly_server.Base.Map.{nat_key, lookup}
use cly_server.Poller.{
  Channel, PollFd, plain_fd, put, find_fd, pos_is, report, fill_active, num_events,
}
use cly_server.Poller.Events.{Mask, is_none}

-- The descriptors of the entries with an event, in the order of the vector.
unfoldable pub ready : List PollFd → List ℕ
ready [] = []
ready (pfd ∷ pfds) = if is_none pfd.revents then ready pfds else plain_fd pfd.fd ∷ ready pfds

-- The memory of the channels but for their `revents`.
abbrev pub SameBut : (ℕ → Channel) → (ℕ → Channel) → Type 0
SameBut s t =
    (d : ℕ) → ((s d).fd ≡ (t d).fd) × ((s d).events ≡ (t d).events) × ((s d).index ≡ (t d).index)

-- An entry with an event is one that is watched, and the map knows its channel.
abbrev pub Reportable : List (ℕ × ℕ) → (ℕ → Channel) → PollFd → Type 0
Reportable channels store pfd =
    (is_none pfd.revents ≡ true)
    ⊎ ((fd c : ℕ) × (pfd.fd ≡ pos fd) × (lookup fd channels ≡ some c) × ((store c).fd ≡ fd))

put-SameBut :
    (store : ℕ → Channel) (c : ℕ) (m : Mask)
    → SameBut (put store c (record (store c) { revents = m })) store
unfolding put
put-SameBut store c m d = ground arith

Reportable-SameBut :
    (channels : List (ℕ × ℕ)) (s t : ℕ → Channel) (pfds : List PollFd)
    → SameBut s t
    → All (Reportable channels t) pfds
    → All (Reportable channels s) pfds
Reportable-SameBut channels s t [] h a = tt
Reportable-SameBut channels s t (pfd ∷ pfds) h (inl e, a) =
    (inl e, Reportable-SameBut channels s t pfds h a)
Reportable-SameBut channels s t (pfd ∷ pfds) h (inr (fd, c, e, l, f), a) =
    (inr (fd, c, e, l, (h c).0 ∙ f), Reportable-SameBut channels s t pfds h a)

-- What `fillActiveChannels` gives for the entries from one on.
abbrev Filled :
    List (ℕ × ℕ) → (ℕ → Channel) → List PollFd → Result (List ℕ × (ℕ → Channel)) → Type 0
Filled channels store pfds r =
    (active : List ℕ) × (store' : ℕ → Channel) × (r ≡ ok (active, store'))
    × (map (λ c. (store c).fd) active ≡ ready pfds)
    × All (λ c. lookup (store c).fd channels ≡ some c) active
    × SameBut store' store

ready-nil : (pfds : List PollFd) → num_events pfds ≡ 0 → ready pfds ≡ []
unfolding num_events ready
ready-nil [] h = refl
ready-nil (pfd ∷ pfds) h = ground (arith, ready-nil pfds)

found :
    (channels : List (ℕ × ℕ)) (z : ℤ) (fd c : ℕ)
    → z ≡ pos fd
    → lookup fd channels ≡ some c
    → find_fd z channels ≡ some c
unfolding find_fd
found channels (pos n) fd c e l = let same : n ≡ fd = cc in rw same l
found channels (negsuc n) fd c e l = absurd (cc)

agrees : (z : ℤ) (fd fd' : ℕ) → z ≡ pos fd → fd' ≡ fd → pos_is z fd' ≡ true
unfolding pos_is
agrees (pos n) fd fd' e f = let same : n ≡ fd' = cc in (==_iff n fd').1 same
agrees (negsuc n) fd fd' e f = absurd (cc)

report_lem :
    (channels : List (ℕ × ℕ)) (store : ℕ → Channel) (pfd : PollFd) (fd c : ℕ)
    (rest : (ℕ → Channel) → Result (List ℕ × (ℕ → Channel))) (active : List ℕ)
    (store' : ℕ → Channel)
    → pfd.fd ≡ pos fd
    → lookup fd channels ≡ some c
    → (store c).fd ≡ fd
    → rest (put store c (record (store c) { revents = pfd.revents })) ≡ ok (active, store')
    → report store pfd (find_fd pfd.fd channels) rest ≡ ok (c ∷ active, store')
unfolding report
report_lem channels store pfd fd c rest active store' e l f r =
    rw (found channels pfd.fd fd c e l, agrees pfd.fd fd (store c).fd e f, r)

map-SameBut :
    (s t : ℕ → Channel) (cs : List ℕ)
    → SameBut s t
    → map (λ c. (s c).fd) cs ≡ map (λ c. (t c).fd) cs
map-SameBut s t [] h = refl
map-SameBut s t (c ∷ cs) h = ap₂ ◌∷◌ (h c).0 (map-SameBut s t cs h)

All-SameBut :
    (channels : List (ℕ × ℕ)) (s t : ℕ → Channel) (cs : List ℕ)
    → SameBut s t
    → All (λ c. lookup (s c).fd channels ≡ some c) cs
    → All (λ c. lookup (t c).fd channels ≡ some c) cs
All-SameBut channels s t [] h a = tt
All-SameBut channels s t (c ∷ cs) h a =
    (ap (λ k. lookup k channels) (sym (h c).0) ∙ a.0, All-SameBut channels s t cs h a.1)

SameBut-trans : (s t u : ℕ → Channel) → SameBut s t → SameBut t u → SameBut s u
SameBut-trans s t u h k d = ((h d).0 ∙ (k d).0, (h d).1 ∙ (k d).1, (h d).2 ∙ (k d).2)

-- One entry of the loop, by whether it has an event.
module _ (channels : List (ℕ × ℕ)) (store : ℕ → Channel) (pfd : PollFd) (pfds : List PollFd)
    (n : ℕ) where
  fill_active-idle :
      is_none pfd.revents ≡ true
      → (fill_active channels store (pfd ∷ pfds) (suc n) ≡ fill_active channels store pfds (suc n))
        × (num_events (pfd ∷ pfds) ≡ num_events pfds)
        × (ready (pfd ∷ pfds) ≡ ready pfds)
  unfolding fill_active num_events ready
  fill_active-idle h = (rw h, rw h, rw h)

  fill_active-event :
      is_none pfd.revents ≡ false
      → (fill_active channels store (pfd ∷ pfds) (suc n)
          ≡ report store pfd (find_fd pfd.fd channels) (λ s. fill_active channels s pfds n))
        × (num_events (pfd ∷ pfds) ≡ suc (num_events pfds))
        × (ready (pfd ∷ pfds) ≡ plain_fd pfd.fd ∷ ready pfds)
  unfolding fill_active num_events ready
  fill_active-event h = (rw h, rw h, rw h)

fill_active-nil :
    (channels : List (ℕ × ℕ)) (store : ℕ → Channel) (pfds : List PollFd)
    → fill_active channels store pfds 0 ≡ ok ([], store)
unfolding fill_active
fill_active-nil channels store [] = refl
fill_active-nil channels store (pfd ∷ pfds) = refl

-- With the number of entries that have an event, the loop reports each of them and no other.
Filled-event :
    (channels : List (ℕ × ℕ)) (store : ℕ → Channel) (pfd : PollFd) (pfds : List PollFd) (n fd c : ℕ)
    → is_none pfd.revents ≡ false
    → pfd.fd ≡ pos fd
    → lookup fd channels ≡ some c
    → (store c).fd ≡ fd
    → (let marked = put store c (record (store c) { revents = pfd.revents }) in
        Filled channels marked pfds (fill_active channels marked pfds n))
    → Filled channels store (pfd ∷ pfds) (fill_active channels store (pfd ∷ pfds) (suc n))
unfolding plain_fd
Filled-event channels store pfd pfds n fd c h e l f (active, store', r, heads, known, same) =
    let (step, _, count) = fill_active-event channels store pfd pfds n h in
    let marked : ℕ → Channel = put store c (record (store c) { revents = pfd.revents }) in
    let like : SameBut marked store = put-SameBut store c pfd.revents in
    (
      c ∷ active,
      store',
      step
          ∙ report_lem channels store pfd fd c (λ s. fill_active channels s pfds n) active store' e
              l f r,
      ap₂ ◌∷◌ (f ∙ ap plain_fd (sym e)) (sym (map-SameBut marked store active like) ∙ heads)
          ∙ sym count,
      (ap (λ k. lookup k channels) f ∙ l, All-SameBut channels marked store active like known),
      SameBut-trans store' marked store same like,
    )

pub fill_active-Filled :
    (channels : List (ℕ × ℕ)) (store : ℕ → Channel) (pfds : List PollFd) (n : ℕ)
    → num_events pfds ≡ n
    → All (Reportable channels store) pfds
    → Filled channels store pfds (fill_active channels store pfds n)
fill_active-Filled channels store [] n h a =
    ([], store, unfold fill_active in refl, unfold ready in refl, tt, λ d. (refl, refl, refl))
fill_active-Filled channels store (pfd ∷ pfds) zero h a = (
  [],
  store,
  fill_active-nil channels store (pfd ∷ pfds),
  sym (ready-nil (pfd ∷ pfds) h),
  tt,
  λ d. (refl, refl, refl),
)
fill_active-Filled channels store (pfd ∷ pfds) (suc n) h (this, a) =
    elim (Bool-cases (is_none pfd.revents)) [
      | inl idle ↦
          let (step, count, heads) = fill_active-idle channels store pfd pfds n idle in
          rw (step, heads) (fill_active-Filled channels store pfds (suc n) (sym count ∙ h) a)
      | inr event ↦ elim this [
        | inl e ↦ absurd (clash event e)
        | inr (fd, c, e, l, f) ↦
            let marked : ℕ → Channel = put store c (record (store c) { revents = pfd.revents }) in
            let (_, count, _) = fill_active-event channels store pfd pfds n event in
            Filled-event channels store pfd pfds n fd c event e l f (
              fill_active-Filled channels marked pfds n (omega (arith, count))
                (Reportable-SameBut channels marked store pfds (put-SameBut store c pfd.revents) a))
      ]
    ]
  where
    clash : is_none pfd.revents ≡ false → is_none pfd.revents ≡ true → ⊥
    clash a b = cc
