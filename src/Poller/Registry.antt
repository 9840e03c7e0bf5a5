-- ===== src/Poller/Registry.antt =====
-- The invariant that ties the vector of entries, the map of channels and the channels' own `index_`.
use cly_server.Base.{ℕ, ◌≡◌, ◌≢◌, some, get_elem?, arith}
use cly_server.Base.Map.{nat_key, lookup}
use cly_server.Poller.{Channel, PollFd, Poller, plain_fd, put, empty}

-- The entry at an index belongs to a channel that the map knows and that knows its index.
abbrev pub Owned : Poller → ℕ → PollFd → Type 0
Owned p i pfd =
    (c : ℕ) × (lookup (plain_fd pfd.fd) p.channels ≡ some c)
    × ((p.store c).fd ≡ plain_fd pfd.fd)
    × ((p.store c).index ≡ some i)
    × ((p.store c).events ≡ pfd.events)

-- A channel that the map knows stands under its own descriptor, and has an entry.
abbrev pub Listed : Poller → ℕ → ℕ → Type 0
Listed p fd c =
    (i : ℕ) × (pfd : PollFd) × (get_elem? p.pollfds i ≡ some pfd)
    × (plain_fd pfd.fd ≡ fd)
    × ((p.store c).fd ≡ fd)
    × ((p.store c).index ≡ some i)

pub record Inv (p : Poller) : Type 0 where
  pub owned : (i : ℕ) (pfd : PollFd) → get_elem? p.pollfds i ≡ some pfd → Owned p i pfd
  pub listed : (fd c : ℕ) → lookup fd p.channels ≡ some c → Listed p fd c

pub empty-Inv : (store : ℕ → Channel) → Inv (empty store)
unfolding empty lookup
empty-Inv store = record { owned = λ i pfd e. cc; listed = λ fd c e. cc }

pub put_self : (store : ℕ → Channel) (c : ℕ) (channel : Channel) → put store c channel c ≡ channel
unfolding put
put_self store c channel = ground arith

pub put-ne :
    (store : ℕ → Channel) {c d : ℕ} (channel : Channel) → c ≢ d → put store c channel d ≡ store d
unfolding put
put-ne store channel h = ground arith

-- Two entries for one descriptor are one entry.
pub Owned-unique :
    (p : Poller) (i j : ℕ) (a b : PollFd)
    → Owned p i a
    → Owned p j b
    → plain_fd a.fd ≡ plain_fd b.fd
    → i ≡ j
Owned-unique p i j a b (c, la, _, ia, _) (d, lb, _, ib, _) e = cc

-- A channel in the map is found at its index.
pub listed_at :
    (p : Poller) (fd c i : ℕ)
    → Inv p
    → lookup fd p.channels ≡ some c
    → (p.store c).index ≡ some i
    → (pfd : PollFd) × (get_elem? p.pollfds i ≡ some pfd) × (plain_fd pfd.fd ≡ fd)
listed_at p fd c i v l x =
    let (j, pfd, e, f, _, y) = v.listed fd c l in let at : j ≡ i = cc in (pfd, rw (← at) e, f)

-- The map gives one channel for each descriptor.
pub lookup_unique :
    (p : Poller) (fd c d : ℕ)
    → lookup fd p.channels ≡ some c
    → lookup fd p.channels ≡ some d
    → c ≡ d
lookup_unique p fd c d a b = cc
