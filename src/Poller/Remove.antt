-- ===== src/Poller/Remove.antt =====
-- The two branches of `removeChannel`: at the end of the vector, and before it.
use cly_server.Base.{
  ℕ, ◌-◌, ◌≡◌, ◌≢◌, sym, ap, ◌∙◌, some, List, get_elem?, arith, ◌<◌, length, set, take,
  get_elem?-lt, get_elem?-take, get_elem?-take_lt, get_elem?-set_self, get_elem?-set_ne, ℕ_discrete,
  subst,
}
use cly_server.Base.Map.{nat_key, lookup, erase, lookup-erase_self, lookup-erase_ne}
use cly_server.Poller.{Channel, PollFd, Poller, plain_fd, put}
use cly_server.Poller.Registry.{Inv, Owned, Listed, put_self, put-ne, listed_at}

-- Without the last entry, and without its channel in the map, the invariant holds.
module _ (p : Poller) (c i : ℕ) (pfd : PollFd) (v : Inv p) (here : get_elem? p.pollfds i ≡ some pfd)
    (seen : (p.store c).index ≡ some i) (known : lookup (p.store c).fd p.channels ≡ some c) where
  abbrev without : List PollFd → (ℕ → Channel) → Poller
  without pollfds store = record {
    pollfds = pollfds;
    channels = erase (p.store c).fd p.channels;
    store = store;
  }

  pub other_fd :
      (j : ℕ) (q : PollFd) → get_elem? p.pollfds j ≡ some q → i ≢ j → (p.store c).fd ≢ plain_fd q.fd
  other_fd j q e apart h = let (d, l, f, x, m) = v.owned j q e in apart (pinned d l x)
    where
      pinned :
          (d : ℕ) → lookup (plain_fd q.fd) p.channels ≡ some d → (p.store d).index ≡ some j → i ≡ j
      pinned d l x = cc

  -- A channel that is still in the map is another one, at another index.
  still :
      (fd d : ℕ)
      → lookup fd (erase (p.store c).fd p.channels) ≡ some d
      → (j : ℕ) × (q : PollFd) × (get_elem? p.pollfds j ≡ some q)
        × (plain_fd q.fd ≡ fd)
        × ((p.store d).fd ≡ fd)
        × ((p.store d).index ≡ some j)
        × (c ≢ d)
        × (i ≢ j)
        × (lookup fd p.channels ≡ some d)
  still fd d l = elim (ℕ_discrete (p.store c).fd fd) [
    | yes h ↦ absurd (gone h)
    | no h ↦
        let (j, q, e, f, g, x) =
          v.listed fd d (sym (lookup-erase_ne (p.store c).fd fd p.channels h) ∙ l) in
        (
          j,
          q,
          e,
          f,
          g,
          x,
          λ k. h (ap (λ n. (p.store n).fd) k ∙ g),
          λ k. h (at_home j q k e f),
          sym (lookup-erase_ne (p.store c).fd fd p.channels h) ∙ l,
        )
  ]
    where
      gone : (p.store c).fd ≡ fd → ⊥
      gone h = cc (lookup-erase_self (p.store c).fd p.channels)

      at_home :
          (j : ℕ) (q : PollFd)
          → i ≡ j
          → get_elem? p.pollfds j ≡ some q
          → plain_fd q.fd ≡ fd
          → (p.store c).fd ≡ fd
      at_home j q k e f =
          let (q', e', f') = listed_at p (p.store c).fd c i v known seen in meet q' e' f'
        where
          meet :
              (q' : PollFd)
              → get_elem? p.pollfds i ≡ some q'
              → plain_fd q'.fd ≡ (p.store c).fd
              → (p.store c).fd ≡ fd
          meet q' e' f' = cc

  pub last-Inv :
      i ≡ length p.pollfds - 1 → Inv (without (take (length p.pollfds - 1) p.pollfds) p.store)
  last-Inv at = record {
    owned = λ j q e.
        let lt = get_elem?-take_lt (length p.pollfds - 1) p.pollfds j e in
        let e' = sym (get_elem?-take (length p.pollfds - 1) p.pollfds j lt) ∙ e in
        let (d, l, f, x, m) = v.owned j q e' in
        (d, lookup-erase_ne _ _ p.channels (other_fd j q e' (λ h. omega arith)) ∙ l, f, x, m);
    listed = λ fd d l.
        let (j, q, e, f, g, x, _, apart, _) = still fd d l in
        (
          j,
          q,
          get_elem?-take (length p.pollfds - 1) p.pollfds j
                (omega (arith, get_elem?-lt p.pollfds j e, λ (h : i ≡ j). apart h))
              ∙ e,
          f,
          g,
          x,
        );
  }

  -- With the last entry moved to index `i`, and its channel told.
  module _ (m d : ℕ) (last : PollFd) (end : m ≡ length p.pollfds - 1) (apart : i ≢ m)
      (at_end : get_elem? p.pollfds m ≡ some last)
      (owner : lookup (plain_fd last.fd) p.channels ≡ some d) where
    abbrev moved : Channel
    moved = record (p.store d) { index = some i }

    abbrev swapped : Poller
    swapped = without (take m (set p.pollfds i last)) (put p.store d moved)

    owner-Owned :
        Owned p m last
        → ((p.store d).fd ≡ plain_fd last.fd)
          × ((p.store d).index ≡ some m)
          × ((p.store d).events ≡ last.events)
    owner-Owned (e, l, f, x, t) =
        let same : e ≡ d = cc in (rw (← same) f, rw (← same) x, rw (← same) t)

    before_end : i < m
    before_end = omega (arith, get_elem?-lt p.pollfds i here)

    keep :
        (j : ℕ) (q : PollFd)
        → j < m
        → i ≢ j
        → get_elem? p.pollfds j ≡ some q
        → get_elem? (take m (set p.pollfds i last)) j ≡ some q
    keep j q lt ne e =
        get_elem?-take m (set p.pollfds i last) j lt ∙ get_elem?-set_ne p.pollfds last ne ∙ e

    at_hole : get_elem? (take m (set p.pollfds i last)) i ≡ some last
    at_hole =
        get_elem?-take m (set p.pollfds i last) i before_end
        ∙ get_elem?-set_self p.pollfds i last (get_elem?-lt p.pollfds i here)

    moved_entry : Owned swapped i last
    moved_entry =
        let (f, x, t) = owner-Owned (v.owned m last at_end) in
        let told : put p.store d moved d ≡ moved = put_self p.store d moved in
        (
          d,
          lookup-erase_ne _ _ p.channels (other_fd m last at_end apart) ∙ owner,
          ap (λ (ch : Channel). ch.fd) told ∙ f,
          ap (λ (ch : Channel). ch.index) told,
          ap (λ (ch : Channel). ch.events) told ∙ t,
        )

    kept_entry :
        (j : ℕ) (q : PollFd) → j < m → i ≢ j → get_elem? p.pollfds j ≡ some q → Owned swapped j q
    kept_entry j q lt ne e =
        let (a, l, f, x, t) = v.owned j q e in
        let (_, y, _) = owner-Owned (v.owned m last at_end) in
        let other : d ≢ a = λ h. unlike a h x y lt in
        let told : put p.store d moved a ≡ p.store a = put-ne p.store moved other in
        (
          a,
          lookup-erase_ne _ _ p.channels (other_fd j q e ne) ∙ l,
          ap (λ (ch : Channel). ch.fd) told ∙ f,
          ap (λ (ch : Channel). ch.index) told ∙ x,
          ap (λ (ch : Channel). ch.events) told ∙ t,
        )
      where
        unlike :
            (a : ℕ) → d ≡ a → (p.store a).index ≡ some j → (p.store d).index ≡ some m → j < m → ⊥
        unlike a h x y lt = let same : j ≡ m = cc in omega arith

    channel_kept :
        (fd a : ℕ) → lookup fd (erase (p.store c).fd p.channels) ≡ some a → Listed swapped fd a
    channel_kept fd a l =
        let (j, q, e, f, g, x, _, ne, l') = still fd a l in
        elim (ℕ_discrete d a) [
          | yes h ↦
              let told : put p.store d moved a ≡ moved = rw (← h) (put_self p.store d moved) in
              let (df, _, _) = owner-Owned (v.owned m last at_end) in
              let stands : (p.store d).fd ≡ fd = ap (λ n. (p.store n).fd) h ∙ g in
              (
                i,
                last,
                at_hole,
                sym df ∙ stands,
                ap (λ (ch : Channel). ch.fd) told ∙ stands,
                ap (λ (ch : Channel). ch.index) told,
              )
          | no h ↦
              let told : put p.store d moved a ≡ p.store a = put-ne p.store moved h in
              (
                j,
                q,
                keep j q
                    (omega
                      (arith, get_elem?-lt p.pollfds j e, λ (k : j ≡ m). h (taken j q k e f l')))
                    ne e,
                f,
                ap (λ (ch : Channel). ch.fd) told ∙ g,
                ap (λ (ch : Channel). ch.index) told ∙ x,
              )
        ]
      where
        taken :
            (j : ℕ) (q : PollFd)
            → j ≡ m
            → get_elem? p.pollfds j ≡ some q
            → plain_fd q.fd ≡ fd
            → lookup fd p.channels ≡ some a
            → d ≡ a
        taken j q k e f l' = cc

    pub swapped-Inv : Inv swapped
    swapped-Inv = record { owned = λ j q e. entry_at j q e; listed = channel_kept }
      where
        entry_at :
            (j : ℕ) (q : PollFd)
            → get_elem? (take m (set p.pollfds i last)) j ≡ some q
            → Owned swapped j q
        entry_at j q e = elim (ℕ_discrete i j) [
          | yes h ↦
              subst (λ k. Owned swapped k q) h
                (subst (Owned swapped i)
                  (written q (ap (get_elem? (take m (set p.pollfds i last))) h ∙ e)) moved_entry)
          | no h ↦
              let lt = get_elem?-take_lt m (set p.pollfds i last) j e in
              kept_entry j q lt h (
                sym
                  (get_elem?-take m (set p.pollfds i last) j lt ∙ get_elem?-set_ne p.pollfds last h)
                ∙ e)
        ]
          where
            written : (q : PollFd) → get_elem? (take m (set p.pollfds i last)) i ≡ some q → last ≡ q
            written q e = cc at_hole
