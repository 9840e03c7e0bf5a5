-- ===== src/Loop/Turn.antt =====
-- A turn of net/EventLoop.cpp over the channels of net/PollPoller.cpp: the handlers of the active
-- channels, and what they ask for.
use cly_server.Base.{
  ℕ, ◌≡◌, ◌≢◌, refl, sym, ap, ◌∙◌, true, some, List, [], ◌∷◌, ==_iff, ok, assert, ◌>>=◌, ◌>>◌,
  arith,
}
use cly_server.Base.Map.{nat_key, lookup}
use cly_server.Poller.{Poller, remove}
use cly_server.Poller.Events.{Mask}
use cly_server.Poller.Registry.{Inv}
use cly_server.Poller.Update.{set_events_known-Inv}
use cly_server.Poller.Removal.{remove-Removed}
use cly_server.Poller.Frame.{SameFds, set_events-SameFds, set_events-channels, remove-SameFds}
use cly_server.Loop.Channels.{
  Reactor, is_current, may_remove, with_poller, loop_update_channel, loop_remove_channel, Demand,
  updates, removes, serve, serve_all,
}

abbrev pub Known : Poller → ℕ → Type 0
Known p c = lookup (p.store c).fd p.channels ≡ some c

-- What the handlers of a channel ask for: new masks of their own channel, and at last its removal.
pub data Own (c : ℕ) : List Demand → Type 0 where
  done : Own c []
  change : {qs : List Demand} (m : Mask) → Own c qs → Own c (updates c m ∷ qs)
  drop : Own c (removes c ∷ [])

-- What they leave: the invariant, every descriptor, and the other channels in the map.
pub record Kept (p : Poller) (c : ℕ) (p' : Poller) : Type 0 where
  pub valid : Inv p'
  pub same_fds : SameFds p p'
  pub others : (fd : ℕ) → (p.store c).fd ≢ fd → lookup fd p'.channels ≡ lookup fd p.channels

updates-Kept :
    (r : Reactor) (c : ℕ) (m : Mask)
    → Inv r.poller
    → Known r.poller c
    → (p' : Poller) × (loop_update_channel r c m ≡ ok (record r { poller = p' }))
      × Kept r.poller c p'
      × Known p' c
unfolding loop_update_channel with_poller
updates-Kept r c m v known =
    let (i, _, _, _, _, seen) = v.listed (r.poller.store c).fd c known in
    let (p', e, v', k, _, _) = set_events_known-Inv r.poller c i m v known seen in
    let same = set_events-SameFds r.poller c m e in
    (
      p',
      ap (λ x. x >>= λ poller. ok (record r { poller = poller })) e,
      record {
        valid = v';
        same_fds = same;
        others = λ fd _. ap (λ l. lookup fd l) (set_events-channels r.poller c i m seen e);
      },
      ap (λ k. lookup k p'.channels) (same c) ∙ k,
    )

-- A handler may remove its own channel.
may_remove_own : (r : Reactor) (c : ℕ) → r.current_active_channel ≡ some c → may_remove r c ≡ true
unfolding may_remove is_current
may_remove_own r c e = let h = (==_iff c c).1 refl in rw e (ground arith)

removes-Kept :
    (r : Reactor) (c : ℕ)
    → r.current_active_channel ≡ some c
    → Inv r.poller
    → Known r.poller c
    → (p' : Poller) × (loop_remove_channel r c ≡ ok (record r { poller = p' })) × Kept r.poller c p'
unfolding loop_remove_channel with_poller
removes-Kept r c current v known =
    let (i, _, _, _, _, seen) = v.listed (r.poller.store c).fd c known in
    let (p', e, d) = remove-Removed r.poller c i v known seen in
    (
      p',
      ap (λ b. assert b >> (remove r.poller c >>= λ poller. ok (record r { poller = poller })))
            (may_remove_own r c current)
          ∙ ap (λ x. x >>= λ poller. ok (record r { poller = poller })) e,
      record { valid = d.valid; same_fds = remove-SameFds r.poller c e; others = d.others },
    )

pub serve_all-Kept :
    {c : ℕ} {qs : List Demand} (r : Reactor)
    → Own c qs
    → r.current_active_channel ≡ some c
    → Inv r.poller
    → Known r.poller c
    → (p' : Poller) × (serve_all r qs ≡ ok (record r { poller = p' })) × Kept r.poller c p'
unfolding serve_all serve
serve_all-Kept r done current v known =
    (r.poller, refl, record { valid = v; same_fds = λ d. refl; others = λ fd _. refl })
serve_all-Kept {c} r (change {qs} m own) current v known =
    let (p1, e1, k1, known1) = updates-Kept r c m v known in
    let (p2, e2, k2) = serve_all-Kept (record r { poller = p1 }) own current k1.valid known1 in
    (
      p2,
      ap (λ x. x >>= λ r'. serve_all r' qs) e1 ∙ e2,
      record {
        valid = k2.valid;
        same_fds = λ d. k2.same_fds d ∙ k1.same_fds d;
        others = λ fd ne. k2.others fd (λ h. ne (sym (k1.same_fds c) ∙ h)) ∙ k1.others fd ne;
      },
    )
serve_all-Kept {c} r drop current v known =
    let (p1, e1, k1) = removes-Kept r c current v known in
    (p1, ap (λ x. x >>= λ r'. serve_all r' []) e1, k1)
