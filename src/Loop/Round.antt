-- ===== src/Loop/Round.antt =====
-- All the active channels of a turn of net/EventLoop.cpp, one after another.
use cly_server.Base.{
  ℕ, suc, ◌≡◌, ◌≢◌, refl, sym, ap, ap₂, subst, ◌∙◌, true, false, none, some, inl, inr, List, [],
  ◌∷◌, Bool-cases, Result, ok, ◌>>=◌, All, map, get_elem?, arith,
}
use cly_server.Base.Map.{nat_key, lookup}
use cly_server.Poller.{Channel, PollFd, Poller, plain_fd, events, write_revents}
use cly_server.Poller.Events.{Mask, is_none}
use cly_server.Poller.Registry.{Inv, Owned-unique}
use cly_server.Poller.Active.{ready, SameBut}
use cly_server.Poller.Polling.{IgnoresNegative, write_revents-get}
use cly_server.Poller.Written.{after_poll, poll-written}
use cly_server.Poller.Frame.{SameFds}
use cly_server.Loop.Channels.{Reactor, Demand, handle_active, loop_turn}
use cly_server.Loop.Turn.{Known, Own, Kept, serve_all-Kept}

-- A list without a number twice.
abbrev Distinct : List ℕ → Type 0
Distinct [] = Unit
Distinct (x ∷ xs) = All (λ y. x ≢ y) xs × Distinct xs

-- The descriptors of the entries that are ready.
ready-All :
    (P : ℕ → Type 0) (pfds : List PollFd)
    → ((j : ℕ) (q : PollFd) → get_elem? pfds j ≡ some q → P (plain_fd q.fd))
    → All P (ready pfds)
unfolding ready
ready-All P [] h = tt
ready-All P (pfd ∷ pfds) h = elim (Bool-cases (is_none pfd.revents)) [
  | inl e ↦ rw e (ready-All P pfds (λ j q g. h (suc j) q g))
  | inr e ↦ rw e (h 0 pfd refl, ready-All P pfds (λ j q g. h (suc j) q g))
]

ready-Distinct :
    (pfds : List PollFd)
    → ((i j : ℕ) (a b : PollFd)
        → get_elem? pfds i ≡ some a
        → get_elem? pfds j ≡ some b
        → plain_fd a.fd ≡ plain_fd b.fd
        → i ≡ j)
    → Distinct (ready pfds)
unfolding ready
ready-Distinct [] h = tt
ready-Distinct (pfd ∷ pfds) h =
    let below =
      ready-Distinct pfds (λ i j a b g k e. let s = h (suc i) (suc j) a b g k e in omega arith) in
    elim (Bool-cases (is_none pfd.revents)) [
      | inl e ↦ rw e below
      | inr e ↦ rw e (ready-All (λ y. plain_fd pfd.fd ≢ y) pfds apart, below)
    ]
  where
    apart : (j : ℕ) (q : PollFd) → get_elem? pfds j ≡ some q → plain_fd pfd.fd ≢ plain_fd q.fd
    apart j q g e = let s = h 0 (suc j) pfd q refl g e in absurd (omega arith)

-- The entries that poll(2) wrote to are those of different channels.
reported-Distinct :
    (p : Poller) (masks : List Mask) → Inv p → Distinct (ready (write_revents p.pollfds masks))
reported-Distinct p masks v = ready-Distinct (write_revents p.pollfds masks) apart
  where
    apart :
        (i j : ℕ) (a b : PollFd)
        → get_elem? (write_revents p.pollfds masks) i ≡ some a
        → get_elem? (write_revents p.pollfds masks) j ≡ some b
        → plain_fd a.fd ≡ plain_fd b.fd
        → i ≡ j
    apart i j a b g k e =
        let (a', g', fa, _) = write_revents-get p.pollfds masks i a g in
        let (b', k', fb, _) = write_revents-get p.pollfds masks j b k in
        Owned-unique p i j a' b' (v.owned i a' g') (v.owned j b' k')
          (sym (ap plain_fd fa) ∙ e ∙ ap plain_fd fb)

-- The channels that are still to be handled are not touched by the handlers of another one.
still-Known :
    {p p' : Poller} {c : ℕ} (cs : List ℕ)
    → Kept p c p'
    → All (λ y. (p.store c).fd ≢ y) (map (λ d. (p.store d).fd) cs)
    → All (Known p) cs
    → All (Known p') cs
still-Known [] k apart known = tt
still-Known {p} {p'} {c} (d ∷ ds) k (ne, apart) (known, all) = (
  ap (λ fd. lookup fd p'.channels) (k.same_fds d) ∙ k.others (p.store d).fd ne ∙ known,
  still-Known ds k apart all,
)

map_same :
    (p p' : Poller) (cs : List ℕ)
    → SameFds p p'
    → map (λ d. (p'.store d).fd) cs ≡ map (λ d. (p.store d).fd) cs
map_same p p' [] s = refl
map_same p p' (d ∷ ds) s = ap₂ (λ x xs. x ∷ xs) (s d) (map_same p p' ds s)

handle_active-Kept :
    (handler : ℕ → List Demand)
    → ((c : ℕ) → Own c (handler c))
    → (r : Reactor) (cs : List ℕ) → Inv r.poller
    → All (Known r.poller) cs
    → Distinct (map (λ d. (r.poller.store d).fd) cs)
    → (r' : Reactor) × (handle_active handler r cs ≡ ok r')
      × Inv r'.poller
      × SameFds r.poller r'.poller
unfolding handle_active
handle_active-Kept handler own r [] v known apart = (r, refl, v, λ d. refl)
handle_active-Kept handler own r (c ∷ cs) v (known, all) (ne, apart) =
    let (p', e, k) =
      serve_all-Kept (record r { current_active_channel = some c }) (own c) refl v known in
    let (r', e', v', s') =
      handle_active-Kept handler own (record r { current_active_channel = some c; poller = p' }) cs
        k.valid (still-Known cs k ne all)
        (subst Distinct (sym (map_same r.poller p' cs k.same_fds)) apart) in
    (r', ap (λ x. x >>= λ r'. handle_active handler r' cs) e ∙ e', v', λ d. s' d ∙ k.same_fds d)

-- A turn of the loop over any channels that are ready. If the handlers of each channel change only
-- its own mask, any number of times, and may remove it at last, no assertion of the loop or of the
-- poller fails, the invariant of the poller is kept, no channel changes its descriptor, and
-- afterwards the loop handles no event and has no current channel.
pub turn-Inv :
    (handler : ℕ → List Demand) (r : Reactor) (masks : List Mask)
    → ((c : ℕ) → Own c (handler c))
    → Inv r.poller
    → All IgnoresNegative (write_revents r.poller.pollfds masks)
    → (r' : Reactor) × (loop_turn handler r (events masks) ≡ ok r')
      × Inv r'.poller
      × SameFds r.poller r'.poller
      × (r'.event_handling ≡ false)
      × (r'.current_active_channel ≡ none)
unfolding loop_turn
turn-Inv handler r masks own v ignores =
    let (active, store, e, heads, known, same, v') = poll-written r.poller masks v ignores in
    let p : Poller = after_poll r.poller masks store in
    let (r', e', v'', s) =
      handle_active-Kept handler own
        (record r { poller = p; active_channels = active; event_handling = true }) active v'
        (kept_known store active same known)
        (subst Distinct (sym (kept_fds store active same ∙ heads))
          (reported-Distinct r.poller masks v)) in
    (
      record r' { current_active_channel = none; event_handling = false },
      ap (λ x. x >>= λ (y : List ℕ × Poller). after y) e ∙ ap (λ x. x >>= finish_turn) e',
      v'',
      λ d. s d ∙ (same d).0,
      refl,
      refl,
    )
  where
    finish_turn : Reactor → Result Reactor
    finish_turn r' = ok (record r' { current_active_channel = none; event_handling = false })

    after : List ℕ × Poller → Result Reactor
    after (active, poller) =
        handle_active handler
          (record r { poller = poller; active_channels = active; event_handling = true }) active
        >>= finish_turn

    kept_known :
        (store : ℕ → Channel) (cs : List ℕ)
        → SameBut store r.poller.store
        → All (Known r.poller) cs
        → All (Known (after_poll r.poller masks store)) cs
    kept_known store [] same known = tt
    kept_known store (c ∷ cs) same (k, all) =
        (ap (λ fd. lookup fd r.poller.channels) (same c).0 ∙ k, kept_known store cs same all)

    kept_fds :
        (store : ℕ → Channel) (cs : List ℕ)
        → SameBut store r.poller.store
        → map (λ d. (store d).fd) cs ≡ map (λ d. (r.poller.store d).fd) cs
    kept_fds store [] same = refl
    kept_fds store (c ∷ cs) same = ap₂ (λ x xs. x ∷ xs) (same c).0 (kept_fds store cs same)
