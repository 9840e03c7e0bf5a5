-- ===== src/Poller/Append.antt =====
-- `updateChannel` for a channel that the poller has not seen.
use cly_server.Base.{
  ℕ, ◌≡◌, ◌≢◌, refl, sym, ap, ◌∙◌, inl, inr, true, none, some, [], ◌∷◌, ◌++◌, get_elem?, length, ok,
  get_elem?-lt, get_elem?-append_left, get_elem?-append_last, get_elem?-append_cases, ℕ_discrete,
  subst,
}
use cly_server.Base.Map.{nat_key, lookup, insert, lookup-insert_self, lookup-insert_ne, same-ne}
use cly_server.Poller.{
  Channel, PollFd, Poller, plain_fd, put, entry, update_channel, update_at, set_events,
}
use cly_server.Poller.Events.{Mask}
use cly_server.Poller.Registry.{Inv, Owned, Listed, put_self, put-ne}

-- An entry behind the others, for a channel that was in none, keeps the invariant.
module _ (p : Poller) (c : ℕ) (channel : Channel) (pfd : PollFd) (store : ℕ → Channel)
    (others : (d : ℕ) → c ≢ d → store d ≡ p.store d) (this : store c ≡ channel)
    (fd_agrees : channel.fd ≡ plain_fd pfd.fd) (events_agree : channel.events ≡ pfd.events)
    (at_end : channel.index ≡ some (length p.pollfds)) (unseen : (p.store c).index ≡ none)
    (fresh : lookup channel.fd p.channels ≡ none) (v : Inv p) where
  abbrev grown : Poller
  grown = record {
    pollfds = p.pollfds ++ pfd ∷ [];
    channels = insert channel.fd c p.channels;
    store = store;
  }

  own_entry : Owned grown (length p.pollfds) pfd
  own_entry = (
    c,
    rw (← fd_agrees) (lookup-insert_self channel.fd c p.channels),
    rw this fd_agrees,
    rw this at_end,
    rw this events_agree,
  )

  old_entry : (i : ℕ) (q : PollFd) → get_elem? p.pollfds i ≡ some q → Owned grown i q
  old_entry i q e =
      let (d, l, f, x, m) = v.owned i q e in
      let other : c ≢ d = λ h. cc in
      let elsewhere : channel.fd ≢ plain_fd q.fd = λ h. cc in
      (
        d,
        lookup-insert_ne channel.fd (plain_fd q.fd) c p.channels (same-ne _ _ elsewhere) ∙ l,
        ap (λ (ch : Channel). ch.fd) (others d other) ∙ f,
        ap (λ (ch : Channel). ch.index) (others d other) ∙ x,
        ap (λ (ch : Channel). ch.events) (others d other) ∙ m,
      )

  old_channel : (fd d : ℕ) → lookup fd p.channels ≡ some d → Listed grown fd d
  old_channel fd d l =
      let (i, q, e, f, g, x) = v.listed fd d l in
      let other : c ≢ d = λ h. cc in
      (
        i,
        q,
        get_elem?-append_left p.pollfds (pfd ∷ []) i (get_elem?-lt p.pollfds i e) ∙ e,
        f,
        ap (λ (ch : Channel). ch.fd) (others d other) ∙ g,
        ap (λ (ch : Channel). ch.index) (others d other) ∙ x,
      )

  own_channel : (d : ℕ) → c ≡ d → Listed grown channel.fd d
  own_channel d e = (
    length p.pollfds,
    pfd,
    get_elem?-append_last p.pollfds pfd,
    sym fd_agrees,
    rw (← e, this),
    rw (← e, this) at_end,
  )

  pub grown-Inv : Inv grown
  grown-Inv = record {
    owned = λ i q e. elim (get_elem?-append_cases p.pollfds pfd i e) [
      | inl old ↦ old_entry i q old
      | inr (at, new) ↦
          subst (λ j. Owned grown j q) (sym at)
            (subst (Owned grown (length p.pollfds)) new own_entry)
    ];
    listed = λ fd d l. elim (ℕ_discrete channel.fd fd) [
      | yes h ↦
          subst (λ k. Listed grown k d) h
            (own_channel d (
              some_injective c d (
                sym (lookup-insert_self channel.fd c p.channels)
                ∙ ap (λ k. lookup k grown.channels) h
                ∙ l)))
      | no h ↦
          old_channel fd d (sym (lookup-insert_ne channel.fd fd c p.channels (same-ne _ _ h)) ∙ l)
    ];
  }
    where
      some_injective : (a b : ℕ) → some a ≡ some b → a ≡ b
      some_injective a b e = cc

-- A channel that no poller has seen, with a descriptor that the map does not know, is entered when
-- its events are first set: it keeps the invariant and is then known with these events.
pub set_events_new-Inv :
    (p : Poller) (c : ℕ) (m : Mask)
    → Inv p
    → (p.store c).index ≡ none
    → lookup (p.store c).fd p.channels ≡ none
    → (p' : Poller) × (set_events p c m ≡ ok p')
      × Inv p'
      × (lookup (p.store c).fd p'.channels ≡ some c)
      × ((p'.store c).events ≡ m)
unfolding set_events update_channel update_at
set_events_new-Inv p c m v unseen fresh =
    let changed : Channel = record (p.store c) { events = m; added_to_loop = true } in
    let before : Poller = record p { store = put p.store c changed } in
    let entered : Channel = record changed { index = some (length p.pollfds) } in
    let store : ℕ → Channel = put (put p.store c changed) c entered in
    let others : ((d : ℕ) → c ≢ d → store d ≡ p.store d) =
      λ d h. put-ne (put p.store c changed) entered h ∙ put-ne p.store changed h in
    let this : store c ≡ entered = put_self (put p.store c changed) c entered in
    (
      record {
        pollfds = p.pollfds ++ entry changed ∷ [];
        channels = insert (p.store c).fd c p.channels;
        store = store;
      },
      ap (λ (ch : Channel). update_at before c ch ch.index) (put_self p.store c changed)
          ∙ ap (update_at before c changed) unseen,
      unfold entry plain_fd in
          grown-Inv p c entered (entry changed) store others this refl refl refl unseen fresh v,
      lookup-insert_self (p.store c).fd c p.channels,
      ap (λ (ch : Channel). ch.events) this,
    )
