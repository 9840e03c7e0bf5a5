-- ===== src/Poller/Frame.antt =====
-- What the operations of net/PollPoller.cpp leave alone.
use cly_server.Base.{
  ℕ, ◌-◌, ◌≡◌, refl, sym, ap, subst, ◌∙◌, true, false, Bool-cases, inl, inr, Option, none, some,
  Result, ok, fault, ltb, ◌==◌, length, get_elem?, ==_iff,
}
use cly_server.Base.Map.{nat_key, lookup, erase}
use cly_server.Poller.{
  Channel, PollFd, Poller, plain_fd, put, update_at, update_channel, set_events, swap_out,
  remove_at, remove_channel, remove,
}
use cly_server.Poller.Events.{Mask}
use cly_server.Poller.Registry.{put_self}

-- What holds of the result, if there is one.
abbrev pub Sure : {A : Type 0} → (A → Type 0) → Result A → Type 0
Sure P (ok a) = P a
Sure P (fault e) = Unit

pub Sure-ok : {A : Type 0} (P : A → Type 0) {r : Result A} {a : A} → r ≡ ok a → Sure P r → P a
Sure-ok P {r} e h = subst (Sure P) e h

-- No channel's descriptor changes.
abbrev pub SameFds : Poller → Poller → Type 0
SameFds p p' = (d : ℕ) → (p'.store d).fd ≡ (p.store d).fd

put-fd :
    (store : ℕ → Channel) (c : ℕ) (channel : Channel)
    → channel.fd ≡ (store c).fd
    → (d : ℕ) → (put store c channel d).fd ≡ (store d).fd
unfolding put
put-fd store c channel e d = elim (Bool-cases (c == d)) [
  | inl h ↦ rw h (e ∙ ap (λ k. (store k).fd) ((==_iff c d).0 h))
  | inr h ↦ rw h refl
]

update_at-SameFds :
    (p : Poller) (c : ℕ) (channel : Channel) (o : Option ℕ)
    → channel.fd ≡ (p.store c).fd
    → Sure (SameFds p) (update_at p c channel o)
unfolding update_at
update_at-SameFds p c channel none e = put-fd p.store c _ e
update_at-SameFds p c channel (some i) e = elim (Bool-cases (ltb i (length p.pollfds))) [
  | inl h ↦ rw h (λ d. refl)
  | inr h ↦ rw h tt
]

pub set_events-SameFds :
    (p : Poller) (c : ℕ) (m : Mask) {p' : Poller} → set_events p c m ≡ ok p' → SameFds p p'
unfolding set_events update_channel
set_events-SameFds p c m {p'} e d =
    let changed : Channel = record (p.store c) { events = m; added_to_loop = true } in
    let before : Poller = record p { store = put p.store c changed } in
    Sure-ok (SameFds before) e
      (update_at-SameFds before c (before.store c) (before.store c).index refl) d
    ∙ put-fd p.store c changed refl d

-- A channel that has an index stays in the map, and so does every other.
pub set_events-channels :
    (p : Poller) (c i : ℕ) (m : Mask) {p' : Poller}
    → (p.store c).index ≡ some i
    → set_events p c m ≡ ok p'
    → p'.channels ≡ p.channels
unfolding set_events update_channel update_at
set_events-channels p c i m {p'} seen e =
    let changed : Channel = record (p.store c) { events = m; added_to_loop = true } in
    let before : Poller = record p { store = put p.store c changed } in
    let at : (before.store c).index ≡ some i =
      ap (λ (x : Channel). x.index) (put_self p.store c changed) ∙ seen in
    Sure-ok (λ q. q.channels ≡ p.channels) e
      (subst (λ o. Sure (λ q. q.channels ≡ p.channels) (update_at before c (before.store c) o))
        (sym at) (by_index before))
  where
    by_index :
        (before : Poller)
        → Sure (λ q. q.channels ≡ before.channels) (update_at before c (before.store c) (some i))
    by_index before = elim (Bool-cases (ltb i (length before.pollfds))) [
      | inl h ↦ rw h refl
      | inr h ↦ rw h tt
    ]

remove_at-SameFds :
    (p : Poller) (fd : ℕ) (o : Option ℕ) (last : Option PollFd)
    → Sure (SameFds p) (remove_at p fd o last)
unfolding remove_at swap_out
remove_at-SameFds p fd none last = tt
remove_at-SameFds p fd (some i) none = tt
remove_at-SameFds p fd (some i) (some last) = elim (Bool-cases (ltb i (length p.pollfds))) [
  | inr out ↦ rw out tt
  | inl inside ↦ elim (Bool-cases (i == length p.pollfds - 1)) [
    | inl at_end ↦ rw (inside, at_end) (λ d. refl)
    | inr apart ↦ rw (inside, apart) (swapped (lookup (plain_fd last.fd) (erase fd p.channels)))
  ]
]
  where
    swapped :
        (o : Option ℕ)
        → Sure (SameFds p) (swap_out (record p { channels = erase fd p.channels }) i last o)
    swapped none = tt
    swapped (some d) = put-fd p.store d _ refl

pub remove-SameFds : (p : Poller) (c : ℕ) {p' : Poller} → remove p c ≡ ok p' → SameFds p p'
unfolding remove remove_channel
remove-SameFds p c {p'} e d =
    let told : Channel = record (p.store c) { added_to_loop = false } in
    let before : Poller = record p { store = put p.store c told } in
    Sure-ok (SameFds before) e
      (remove_at-SameFds before (before.store c).fd (before.store c).index
        (get_elem? p.pollfds (length p.pollfds - 1)))
      d
    ∙ put-fd p.store c told refl d
