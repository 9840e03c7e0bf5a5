-- ===== src/Poller/Removal.antt =====
-- `Channel::remove` and `PollPoller::removeChannel` as a whole.
use cly_server.Base.{
  ℕ, ◌+◌, ◌-◌, ◌≡◌, ◌≢◌, refl, sym, ap, ◌∙◌, false, none, some, List, arith, ◌<◌, length, set, take,
  ok, get_elem?-lt, get_elem?-some, get_elem?-set_self, ℕ_discrete, lt→ltb, ==_iff, ◌==◌,
  length-set, length-take,
}
use cly_server.Base.Map.{nat_key, lookup, erase, lookup-erase_self, lookup-erase_ne}
use cly_server.Poller.{
  Channel, PollFd, Poller, plain_fd, put, swap_out, remove_at, remove_channel, remove,
  update_channel, update_at, entry_or_ignored,
}
use cly_server.Poller.Registry.{Inv, put-ne, listed_at}
use cly_server.Poller.Update.{plain_fd-entry_or_ignored}
use cly_server.Poller.Remove.{last-Inv, swapped-Inv, other_fd}

-- What the removal of a channel leaves. Its own `index_` is not reset.
pub record Removed (p : Poller) (c i : ℕ) (p' : Poller) : Type 0 where
  pub valid : Inv p'
  pub gone : lookup (p.store c).fd p'.channels ≡ none
  pub others : (fd : ℕ) → (p.store c).fd ≢ fd → lookup fd p'.channels ≡ lookup fd p.channels
  pub shorter : length p'.pollfds + 1 ≡ length p.pollfds
  pub stale : (p'.store c).index ≡ some i
  pub same_fd : (p'.store c).fd ≡ (p.store c).fd

remove_channel-Removed :
    (p : Poller) (c i : ℕ)
    → Inv p
    → lookup (p.store c).fd p.channels ≡ some c
    → (p.store c).index ≡ some i
    → (p' : Poller) × (remove_channel p c ≡ ok p') × Removed p c i p'
unfolding remove_channel remove_at swap_out
remove_channel-Removed p c i v known seen =
    let (pfd, here, _) = listed_at p (p.store c).fd c i v known seen in
    let lt = get_elem?-lt p.pollfds i here in
    let (last, at_end) = get_elem?-some p.pollfds (length p.pollfds - 1) (omega arith) in
    elim (ℕ_discrete i (length p.pollfds - 1)) [
      | yes is_last ↦ (
        record p {
          channels = erase (p.store c).fd p.channels;
          pollfds = take (length p.pollfds - 1) p.pollfds;
        },
        rw (
          seen,
          at_end,
          lt→ltb i (length p.pollfds) lt,
          (==_iff i (length p.pollfds - 1)).1 is_last,
        ),
        record {
          valid = last-Inv p c i pfd v here seen known is_last;
          gone = lookup-erase_self (p.store c).fd p.channels;
          others = λ fd ne. lookup-erase_ne (p.store c).fd fd p.channels ne;
          shorter = omega (arith, length-take (length p.pollfds - 1) p.pollfds);
          stale = seen;
          same_fd = refl;
        },
      )
      | no apart ↦
          let (d, owner, f, x, t) = v.owned (length p.pollfds - 1) last at_end in
          let told : Channel = record (p.store d) { index = some i } in
          let elsewhere =
            other_fd p c i pfd v here seen known (length p.pollfds - 1) last at_end apart in
          let other : d ≢ c = λ h. apart (pinned d h x) in
          (
            record {
              pollfds = take (length p.pollfds - 1) (set p.pollfds i last);
              channels = erase (p.store c).fd p.channels;
              store = put p.store d told;
            },
            rw (
              seen,
              at_end,
              lt→ltb i (length p.pollfds) lt,
              ne→== i (length p.pollfds - 1) apart,
              lookup-erase_ne (p.store c).fd (plain_fd last.fd) p.channels elsewhere,
              owner,
            ),
            record {
              valid =
                  swapped-Inv p c i pfd v here seen known (length p.pollfds - 1) d last refl apart
                    at_end owner;
              gone = lookup-erase_self (p.store c).fd p.channels;
              others = λ fd ne. lookup-erase_ne (p.store c).fd fd p.channels ne;
              shorter = omega (
                arith,
                length-take (length p.pollfds - 1) (set p.pollfds i last),
                length-set p.pollfds i last,
              );
              stale = ap (λ (ch : Channel). ch.index) (put-ne p.store told other) ∙ seen;
              same_fd = ap (λ (ch : Channel). ch.fd) (put-ne p.store told other);
            },
          )
    ]
  where
    pinned :
        (d : ℕ) → d ≡ c → (p.store d).index ≡ some (length p.pollfds - 1) → i ≡ length p.pollfds - 1
    pinned d h x = cc

    ne→== : (a b : ℕ) → a ≢ b → (a == b) ≡ false
    ne→== a b h = ground arith

-- The flag `addedToLoop_` is no part of the invariant.
flagged : Poller → ℕ → Poller
flagged p c = record p { store = put p.store c (record (p.store c) { added_to_loop = false }) }

flagged-same :
    (p : Poller) (c d : ℕ)
    → (((flagged p c).store d).fd ≡ (p.store d).fd)
      × (((flagged p c).store d).index ≡ (p.store d).index)
      × (((flagged p c).store d).events ≡ (p.store d).events)
unfolding flagged put
flagged-same p c d = ground arith

flagged-Inv : (p : Poller) (c : ℕ) → Inv p → Inv (flagged p c)
unfolding flagged
flagged-Inv p c v = record {
  owned = λ i q e.
      let (d, l, f, x, m) = v.owned i q e in
      let (sf, si, se) = flagged-same p c d in (d, l, sf ∙ f, si ∙ x, se ∙ m);
  listed = λ fd d l.
      let (i, q, e, f, g, x) = v.listed fd d l in
      let (sf, si, se) = flagged-same p c d in (i, q, e, f, sf ∙ g, si ∙ x);
}

-- Removing a channel that the map knows takes out its entry and nothing else, wherever it stands in
-- the vector, and keeps the invariant; the channel's own `index_` stays as it was.
pub remove-Removed :
    (p : Poller) (c i : ℕ)
    → Inv p
    → lookup (p.store c).fd p.channels ≡ some c
    → (p.store c).index ≡ some i
    → (p' : Poller) × (remove p c ≡ ok p') × Removed p c i p'
unfolding remove flagged
remove-Removed p c i v known seen =
    let (sf, si, _) = flagged-same p c c in
    let (p', e, r) =
      remove_channel-Removed (flagged p c) c i (flagged-Inv p c v) (rw sf known) (rw si seen) in
    (
      p',
      e,
      record {
        valid = r.valid;
        gone = rw sf at r.gone;
        others = λ fd ne. r.others fd (λ h. ne (sym sf ∙ h));
        shorter = r.shorter;
        stale = r.stale;
        same_fd = r.same_fd ∙ sf;
      },
    )

-- The index that is left behind: where another channel's entry has taken the place, an update of the
-- removed channel overwrites that entry, and the invariant is lost.
pub stale_update_breaks :
    (p : Poller) (c i : ℕ) (p' : Poller)
    → Removed p c i p'
    → i < length p'.pollfds
    → (p'' : Poller) × (update_channel p' c ≡ ok p'') × ¬ Inv p''
unfolding update_channel update_at
stale_update_breaks p c i p' r lt =
    let written : List PollFd = set p'.pollfds i (entry_or_ignored (p'.store c)) in
    (
      record p' { pollfds = written },
      rw (r.stale, lt→ltb i (length p'.pollfds) lt),
      λ v.
          let (d, l, _, _, _) =
            v.owned i (entry_or_ignored (p'.store c)) (get_elem?-set_self p'.pollfds i _ lt) in
          clash d (sym (plain_fd-entry_or_ignored (p'.store c)) ∙ r.same_fd) l,
    )
  where
    clash :
        (d : ℕ)
        → plain_fd (entry_or_ignored (p'.store c)).fd ≡ (p.store c).fd
        → lookup (plain_fd (entry_or_ignored (p'.store c)).fd) p'.channels ≡ some d
        → ⊥
    clash d e l = let gone = r.gone in cc
