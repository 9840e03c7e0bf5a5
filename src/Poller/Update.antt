-- ===== src/Poller/Update.antt =====
-- `updateChannel` for a channel that has an entry.
use cly_server.Base.{
  ℕ, ◌≡◌, ◌≢◌, refl, sym, ap, ◌∙◌, true, some, get_elem?, arith, ◌<◌, length, set, ok, get_elem?-lt,
  get_elem?-set_self, get_elem?-set_ne, ℕ_discrete, subst, lt→ltb,
}
use cly_server.Base.Int.{flip_sign}
use cly_server.Base.Map.{nat_key, lookup}
use cly_server.Poller.{
  Channel, PollFd, Poller, plain_fd, put, entry_or_ignored, update_channel, update_at, set_events,
}
use cly_server.Poller.Events.{Mask}
use cly_server.Poller.Registry.{Inv, Owned, Listed, put_self, put-ne, listed_at}

-- A new entry in place of a channel's old one keeps the invariant.
module _ (p : Poller) (c i : ℕ) (channel : Channel) (pfd : PollFd) (store : ℕ → Channel)
    (others : (d : ℕ) → c ≢ d → store d ≡ p.store d) (this : store c ≡ channel)
    (fd_agrees : channel.fd ≡ plain_fd pfd.fd) (fd_same : (p.store c).fd ≡ channel.fd)
    (events_agree : channel.events ≡ pfd.events) (index_same : channel.index ≡ some i)
    (seen : (p.store c).index ≡ some i) (known : lookup channel.fd p.channels ≡ some c)
    (v : Inv p) where
  abbrev changed : Poller
  changed = record { pollfds = set p.pollfds i pfd; channels = p.channels; store = store }

  in_range : i < length p.pollfds
  in_range = let (_, e, _) = listed_at p channel.fd c i v known seen in get_elem?-lt p.pollfds i e

  own_entry : Owned changed i pfd
  own_entry =
      (c, rw (← fd_agrees) known, rw this fd_agrees, rw this index_same, rw this events_agree)

  old_entry : (j : ℕ) (q : PollFd) → i ≢ j → get_elem? p.pollfds j ≡ some q → Owned changed j q
  old_entry j q apart e =
      let (d, l, f, x, m) = v.owned j q e in
      let other : c ≢ d =
        λ h. apart (some_injective i j (sym seen ∙ ap (λ k. (p.store k).index) h ∙ x)) in
      (
        d,
        l,
        ap (λ (ch : Channel). ch.fd) (others d other) ∙ f,
        ap (λ (ch : Channel). ch.index) (others d other) ∙ x,
        ap (λ (ch : Channel). ch.events) (others d other) ∙ m,
      )
    where
      some_injective : (a b : ℕ) → some a ≡ some b → a ≡ b
      some_injective a b h = cc

  own_channel : (fd d : ℕ) → c ≡ d → lookup fd p.channels ≡ some d → Listed changed fd d
  own_channel fd d h l =
      let (j, q, e, f, g, x) = v.listed fd d l in
      let stands : channel.fd ≡ fd = sym fd_same ∙ ap (λ k. (p.store k).fd) h ∙ g in
      (
        i,
        pfd,
        get_elem?-set_self p.pollfds i pfd in_range,
        sym fd_agrees ∙ stands,
        rw (← h, this) stands,
        rw (← h, this) index_same,
      )

  old_channel : (fd d : ℕ) → c ≢ d → lookup fd p.channels ≡ some d → Listed changed fd d
  old_channel fd d other l =
      let (j, q, e, f, g, x) = v.listed fd d l in
      let (q', e', f') = listed_at p channel.fd c i v known seen in
      let apart : i ≢ j = λ h. other (collide j q q' h e e' f f' l) in
      (
        j,
        q,
        get_elem?-set_ne p.pollfds pfd apart ∙ e,
        f,
        ap (λ (ch : Channel). ch.fd) (others d other) ∙ g,
        ap (λ (ch : Channel). ch.index) (others d other) ∙ x,
      )
    where
      collide :
          (j : ℕ) (q q' : PollFd)
          → i ≡ j
          → get_elem? p.pollfds j ≡ some q
          → get_elem? p.pollfds i ≡ some q'
          → plain_fd q.fd ≡ fd
          → plain_fd q'.fd ≡ channel.fd
          → lookup fd p.channels ≡ some d
          → c ≡ d
      collide j q q' h e e' f f' l = cc

  pub changed-Inv : Inv changed
  changed-Inv = record {
    owned = λ j q e. elim (ℕ_discrete i j) [
      | yes h ↦
          subst (λ k. Owned changed k q) h
            (subst (Owned changed i) (written q (ap (get_elem? (set p.pollfds i pfd)) h ∙ e))
              own_entry)
      | no h ↦ old_entry j q h (sym (get_elem?-set_ne p.pollfds pfd h) ∙ e)
    ];
    listed = λ fd d l. elim (ℕ_discrete c d) [
      | yes h ↦ own_channel fd d h l
      | no h ↦ old_channel fd d h l
    ];
  }
    where
      written : (q : PollFd) → get_elem? (set p.pollfds i pfd) i ≡ some q → pfd ≡ q
      written q e = cc (get_elem?-set_self p.pollfds i pfd in_range)

pub plain_fd-entry_or_ignored : (ch : Channel) → ch.fd ≡ plain_fd (entry_or_ignored ch).fd
unfolding entry_or_ignored plain_fd flip_sign
plain_fd-entry_or_ignored ch = ground arith

events-entry_or_ignored : (ch : Channel) → ch.events ≡ (entry_or_ignored ch).events
unfolding entry_or_ignored
events-entry_or_ignored ch = ground arith

-- Setting the events of a channel that the map knows rewrites its entry in place, stays within the
-- vector and keeps the invariant.
pub set_events_known-Inv :
    (p : Poller) (c i : ℕ) (m : Mask)
    → Inv p
    → lookup (p.store c).fd p.channels ≡ some c
    → (p.store c).index ≡ some i
    → (p' : Poller) × (set_events p c m ≡ ok p')
      × Inv p'
      × (lookup (p.store c).fd p'.channels ≡ some c)
      × ((p'.store c).events ≡ m)
      × ((p'.store c).index ≡ some i)
unfolding set_events update_channel update_at
set_events_known-Inv p c i m v known seen =
    let ch : Channel = record (p.store c) { events = m; added_to_loop = true } in
    let store : ℕ → Channel = put p.store c ch in
    let this : store c ≡ ch = put_self p.store c ch in
    let (_, e, _) = listed_at p (p.store c).fd c i v known seen in
    (
      record p { pollfds = set p.pollfds i (entry_or_ignored ch); store = store },
      rw (this, seen, lt→ltb i (length p.pollfds) (get_elem?-lt p.pollfds i e)),
      changed-Inv p c i ch (entry_or_ignored ch) store (λ d h. put-ne p.store ch h) this
          (plain_fd-entry_or_ignored ch) refl (events-entry_or_ignored ch) seen seen known v,
      known,
      ap (λ (x : Channel). x.events) this,
      ap (λ (x : Channel). x.index) this ∙ seen,
    )
