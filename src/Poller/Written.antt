-- ===== src/Poller/Written.antt =====
-- The poller of net/PollPoller.cpp once poll(2) has after_poll to its vector.
use cly_server.Base.{
  ℕ, zero, suc, ◌≡◌, refl, sym, ap, ◌∙◌, some, List, [], ◌∷◌, map, All, ok, get_elem?,
}
use cly_server.Base.Map.{nat_key, lookup}
use cly_server.Poller.{Channel, PollFd, Poller, plain_fd, num_events, write_revents, poll, events}
use cly_server.Poller.Events.{Mask}
use cly_server.Poller.Registry.{Inv}
use cly_server.Poller.Active.{ready, SameBut, fill_active-Filled}
use cly_server.Poller.Polling.{IgnoresNegative, entries-Reportable, write_revents-get}

write_revents-some :
    (pfds : List PollFd) (masks : List Mask) (i : ℕ) {old : PollFd}
    → get_elem? pfds i ≡ some old
    → (q : PollFd) × (get_elem? (write_revents pfds masks) i ≡ some q) × (q.fd ≡ old.fd)
unfolding write_revents
write_revents-some [] masks i e = absurd (cc)
write_revents-some (pfd ∷ pfds) [] i {old} e = (old, e, refl)
write_revents-some (pfd ∷ pfds) (m ∷ masks) zero e = (record pfd { revents = m }, refl, cc)
write_revents-some (pfd ∷ pfds) (m ∷ masks) (suc i) e = write_revents-some pfds masks i e

abbrev pub after_poll : Poller → List Mask → (ℕ → Channel) → Poller
after_poll p masks store = record {
  pollfds = write_revents p.pollfds masks;
  channels = p.channels;
  store = store;
}

written-Inv :
    (p : Poller) (masks : List Mask) (store : ℕ → Channel)
    → Inv p
    → SameBut store p.store
    → Inv (after_poll p masks store)
written-Inv p masks store v same = record {
  owned = λ i q g.
      let (old, g', f, m) = write_revents-get p.pollfds masks i q g in
      let (c, l, sf, x, e) = v.owned i old g' in
      let (s1, s2, s3) = same c in
      (
        c,
        ap (λ z. lookup (plain_fd z) p.channels) f ∙ l,
        s1 ∙ sf ∙ sym (ap plain_fd f),
        s3 ∙ x,
        s2 ∙ e ∙ sym m,
      );
  listed = λ fd c l.
      let (i, old, g, f, sf, x) = v.listed fd c l in
      let (q, g', f') = write_revents-some p.pollfds masks i g in
      let (s1, s2, s3) = same c in (i, q, g', ap plain_fd f' ∙ f, s1 ∙ sf, s3 ∙ x);
}

-- What `poll` leaves, with the active channels in the order of the vector.
pub poll-written :
    (p : Poller) (masks : List Mask)
    → Inv p
    → All IgnoresNegative (write_revents p.pollfds masks)
    → (active : List ℕ) × (store : ℕ → Channel) × (poll p (events masks)
        ≡ ok (active, after_poll p masks store))
      × (map (λ c. (p.store c).fd) active ≡ ready (write_revents p.pollfds masks))
      × All (λ c. lookup (p.store c).fd p.channels ≡ some c) active
      × SameBut store p.store
      × Inv (after_poll p masks store)
unfolding poll
poll-written p masks v a =
    let pfds : List PollFd = write_revents p.pollfds masks in
    let (active, store, r, heads, known, same) =
      fill_active-Filled p.channels p.store pfds (num_events pfds) refl (
        entries-Reportable p pfds
          (λ i pfd e.
            let (c, l, f, _, _) =
              (written-Inv p masks p.store v (λ d. (refl, refl, refl))).owned i pfd e in
            (c, l, f))
          a) in
    (active, store, rw r, heads, known, same, written-Inv p masks store v same)
