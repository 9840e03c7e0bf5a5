-- ===== src/Poller/Polling.antt =====
-- `poll` of net/PollPoller.cpp as a whole.
use cly_server.Base.{
  ℕ, zero, suc, ◌≡◌, refl, sym, ap, ◌∙◌, inl, inr, true, some, List, [], ◌∷◌, map, All, ok,
  get_elem?,
}
use cly_server.Base.Int.{ℤ, pos, negsuc}
use cly_server.Base.Map.{nat_key, lookup}
use cly_server.Poller.{PollFd, Poller, plain_fd, num_events, write_revents, poll, events}
use cly_server.Poller.Events.{Mask, is_none}
use cly_server.Poller.Registry.{Inv}
use cly_server.Poller.Active.{ready, SameBut, Reportable, fill_active-Filled}

-- poll(2) writes no event to an entry with a negative descriptor.
abbrev pub IgnoresNegative : PollFd → Type 0
IgnoresNegative pfd = (n : ℕ) → pfd.fd ≡ negsuc n → is_none pfd.revents ≡ true

-- Every entry of the vector is one that `fillActiveChannels` can report.
pub entries-Reportable :
    (p : Poller) (pfds : List PollFd)
    → ((i : ℕ) (pfd : PollFd)
        → get_elem? pfds i ≡ some pfd
        → (c : ℕ) × (lookup (plain_fd pfd.fd) p.channels ≡ some c)
          × ((p.store c).fd ≡ plain_fd pfd.fd))
    → All IgnoresNegative pfds
    → All (Reportable p.channels p.store) pfds
entries-Reportable p [] owned a = tt
entries-Reportable p (pfd ∷ pfds) owned (ignores, a) = (
  by_sign pfd.fd refl (owned 0 pfd refl),
  entries-Reportable p pfds (λ i q e. owned (suc i) q e) a,
)
  where
    by_sign :
        (z : ℤ)
        → pfd.fd ≡ z
        → (c : ℕ) × (lookup (plain_fd pfd.fd) p.channels ≡ some c)
          × ((p.store c).fd ≡ plain_fd pfd.fd)
        → Reportable p.channels p.store pfd
    by_sign (pos n) e (c, l, f) =
        inr (n, c, e, ap (λ k. lookup k p.channels) (sym (plain_pos n e)) ∙ l, f ∙ plain_pos n e)
      where
        plain_pos : (n : ℕ) → pfd.fd ≡ pos n → plain_fd pfd.fd ≡ n
        plain_pos n e = ap plain_fd e ∙ (unfold plain_fd in refl)
    by_sign (negsuc n) e h = inl (ignores n e)

pub write_revents-get :
    (pfds : List PollFd) (masks : List Mask) (i : ℕ) (q : PollFd)
    → get_elem? (write_revents pfds masks) i ≡ some q
    → (old : PollFd) × (get_elem? pfds i ≡ some old) × (q.fd ≡ old.fd) × (q.events ≡ old.events)
unfolding write_revents
write_revents-get [] masks i q e = absurd (cc)
write_revents-get (pfd ∷ pfds) [] i q e = (q, e, refl, refl)
write_revents-get (pfd ∷ pfds) (m ∷ masks) zero q e = (pfd, refl, cc, cc)
write_revents-get (pfd ∷ pfds) (m ∷ masks) (suc i) q e = write_revents-get pfds masks i q e

-- After poll(2) the active channels are those of the entries with an event, in the order of the
-- vector, each the one that the map knows for its descriptor; no assertion of `fillActiveChannels`
-- fails, if poll(2) leaves the entries alone that are to be ignored.
pub poll-reports :
    (p : Poller) (masks : List Mask)
    → Inv p
    → All IgnoresNegative (write_revents p.pollfds masks)
    → (active : List ℕ) × (p' : Poller) × (poll p (events masks) ≡ ok (active, p'))
      × (map (λ c. (p.store c).fd) active ≡ ready (write_revents p.pollfds masks))
      × All (λ c. lookup (p.store c).fd p.channels ≡ some c) active
      × SameBut p'.store p.store
unfolding poll
poll-reports p masks v a =
    let pfds : List PollFd = write_revents p.pollfds masks in
    let (active, store, r, heads, known, same) =
      fill_active-Filled p.channels p.store pfds (num_events pfds) refl
        (entries-Reportable p pfds owned a) in
    (
      active,
      record { pollfds = pfds; channels = p.channels; store = store },
      rw r,
      heads,
      known,
      same,
    )
  where
    owned :
        (i : ℕ) (pfd : PollFd)
        → get_elem? (write_revents p.pollfds masks) i ≡ some pfd
        → (c : ℕ) × (lookup (plain_fd pfd.fd) p.channels ≡ some c)
          × ((p.store c).fd ≡ plain_fd pfd.fd)
    owned i pfd e =
        let (old, o, f, _) = write_revents-get p.pollfds masks i pfd e in
        let (c, l, g, _, _) = v.owned i old o in
        (c, ap (λ z. lookup (plain_fd z) p.channels) f ∙ l, g ∙ sym (ap plain_fd f))
