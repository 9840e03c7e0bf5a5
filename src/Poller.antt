-- ===== src/Poller.antt =====
-- net/Channel.h, net/Channel.cpp, net/PollPoller.h and net/PollPoller.cpp: the channels of a loop and
-- the vector of `struct pollfd` that is handed to poll(2).
pub mod Events
pub mod Registry
pub mod Append
pub mod Update
pub mod Remove
pub mod Removal
pub mod Active
pub mod Polling
pub mod Frame
pub mod Written
mod Examples
use cly_server.Base.{
  ℕ, zero, suc, ◌+◌, ◌-◌, ◌<◌, Bool, true, false, not, ◌&&◌, ◌||◌, Option, none, some, List, [],
  ◌∷◌, ◌++◌, ltb, ◌==◌, if◌then◌else◌, length, get_elem?, set, take, Result, ok, fault,
  out_of_range, null_pointer, assert_failed, aborted, ◌>>=◌,
}
use cly_server.Base.Int.{ℤ, pos, negsuc, flip_sign, is_negative}
use cly_server.Base.Map.{nat_key, insert, lookup, erase}
use Events.{Mask, none_event}

pub record Channel : Type 0 where
  pub fd : ℕ
  pub events : Mask
  pub revents : Mask
  -- `none` is the -1 of a channel that no poller has seen.
  pub index : Option ℕ
  pub added_to_loop : Bool

pub record PollFd : Type 0 where
  pub fd : ℤ
  pub events : Mask
  pub revents : Mask

-- A channel is known by its address, a number; `store` is the memory behind the addresses.
pub record Poller : Type 0 where
  pub pollfds : List PollFd
  pub channels : List (ℕ × ℕ)
  pub store : ℕ → Channel

unfoldable pub new_channel : ℕ → Channel
new_channel fd = record {
  fd = fd;
  events = none_event;
  revents = none_event;
  index = none;
  added_to_loop = false;
}

unfoldable pub empty : (ℕ → Channel) → Poller
empty store = record { pollfds = []; channels = []; store = store }

unfoldable pub put : (ℕ → Channel) → ℕ → Channel → ℕ → Channel
put store c channel d = if c == d then channel else store d

unfoldable pub has_channel : Poller → ℕ → Bool
has_channel p c = elim (lookup (p.store c).fd p.channels) [ none ↦ false | some d ↦ d == c ]

-- The entry that `updateChannel` writes for a channel; the file descriptor of one that asks for no
-- event is made negative, which poll(2) ignores.
unfoldable pub entry : Channel → PollFd
entry channel = record { fd = pos channel.fd; events = channel.events; revents = none_event }

unfoldable pub entry_or_ignored : Channel → PollFd
entry_or_ignored channel =
    if Events.is_none channel.events
    then record { fd = flip_sign (pos channel.fd); events = channel.events; revents = none_event }
    else record { fd = pos channel.fd; events = channel.events; revents = none_event }

-- `updateChannel` by the channel's index.
unfoldable pub update_at : Poller → ℕ → Channel → Option ℕ → Result Poller
update_at p c channel none = ok (record {
  pollfds = p.pollfds ++ entry channel ∷ [];
  channels = insert channel.fd c p.channels;
  store = put p.store c (record channel { index = some (length p.pollfds) });
})
update_at p c channel (some i) =
    if ltb i (length p.pollfds)
    then ok (record p { pollfds = set p.pollfds i (entry_or_ignored channel) })
    else fault out_of_range

unfoldable pub update_channel : Poller → ℕ → Result Poller
update_channel p c = update_at p c (p.store c) (p.store c).index

-- The descriptor behind an entry, whether it is ignored or not.
unfoldable pub plain_fd : ℤ → ℕ
plain_fd (pos n) = n
plain_fd (negsuc n) = n

-- The branch of `removeChannel` for an entry that is not the last: the last one takes its place, and
-- its channel, which the map must know, is told.
unfoldable pub swap_out : Poller → ℕ → PollFd → Option ℕ → Result Poller
swap_out p i last none = fault null_pointer
swap_out p i last (some d) = ok (record p {
  pollfds = take (length p.pollfds - 1) (set p.pollfds i last);
  store = put p.store d (record (p.store d) { index = some i });
})

-- `removeChannel` by the channel's index and the last entry.
unfoldable pub remove_at : Poller → ℕ → Option ℕ → Option PollFd → Result Poller
remove_at p fd none last = fault out_of_range
remove_at p fd (some i) none = fault out_of_range
remove_at p fd (some i) (some last) =
    let rest = record p { channels = erase fd p.channels } in
    if ltb i (length p.pollfds)
    then if i == length p.pollfds - 1
      then ok (record rest { pollfds = take (length p.pollfds - 1) p.pollfds })
      else swap_out rest i last (lookup (plain_fd last.fd) rest.channels)
    else fault out_of_range

unfoldable pub remove_channel : Poller → ℕ → Result Poller
remove_channel p c =
    remove_at p (p.store c).fd (p.store c).index (get_elem? p.pollfds (length p.pollfds - 1))

-- `enableReading` and the others: the mask is changed, and the loop told by `update`.
unfoldable pub set_events : Poller → ℕ → Mask → Result Poller
set_events p c events =
    update_channel
      (record p {
        store = put p.store c (record (p.store c) { events = events; added_to_loop = true });
      })
      c

unfoldable pub enable_reading : Poller → ℕ → Result Poller
enable_reading p c = set_events p c (record (p.store c).events { pollin = true })

unfoldable pub disable_reading : Poller → ℕ → Result Poller
disable_reading p c = set_events p c (record (p.store c).events { pollin = false })

unfoldable pub enable_writing : Poller → ℕ → Result Poller
enable_writing p c = set_events p c (record (p.store c).events { pollout = true })

unfoldable pub disable_writing : Poller → ℕ → Result Poller
disable_writing p c = set_events p c (record (p.store c).events { pollout = false })

unfoldable pub disable_all : Poller → ℕ → Result Poller
disable_all p c = set_events p c none_event

-- `Channel::remove`.
unfoldable pub remove : Poller → ℕ → Result Poller
remove p c =
    remove_channel
      (record p { store = put p.store c (record (p.store c) { added_to_loop = false }) }) c

-- `channel->fd() == pfd->fd`.
unfoldable pub pos_is : ℤ → ℕ → Bool
pos_is (pos n) fd = n == fd
pos_is (negsuc n) fd = false

-- `channels_.find(pfd->fd)`; no channel has a negative descriptor.
unfoldable pub find_fd : ℤ → List (ℕ × ℕ) → Option ℕ
find_fd (pos n) channels = lookup n channels
find_fd (negsuc n) channels = none

-- The body of `fillActiveChannels` for an entry with an event; `rest` is the loop's remainder.
unfoldable pub report :
    (ℕ → Channel)
    → PollFd
    → Option ℕ
    → ((ℕ → Channel) → Result (List ℕ × (ℕ → Channel)))
    → Result (List ℕ × (ℕ → Channel))
report store pfd none rest = fault assert_failed
report store pfd (some c) rest =
    if pos_is pfd.fd (store c).fd
    then (do
      (active, s) ← rest (put store c (record (store c) { revents = pfd.revents }))
      ok (c ∷ active, s))
    else fault assert_failed

-- `fillActiveChannels` over what is left of the vector: the channels that are reported, and the
-- memory with their `revents` set. The map must know each descriptor, and its channel agree.
unfoldable pub fill_active :
    List (ℕ × ℕ) → (ℕ → Channel) → List PollFd → ℕ → Result (List ℕ × (ℕ → Channel))
fill_active channels store [] n = ok ([], store)
fill_active channels store (pfd ∷ pfds) zero = ok ([], store)
fill_active channels store (pfd ∷ pfds) (suc n) =
    if Events.is_none pfd.revents
    then fill_active channels store pfds (suc n)
    else report store pfd (find_fd pfd.fd channels) (λ s. fill_active channels s pfds n)

-- What poll(2) answers: the masks that it wrote, one for each entry, or an error number.
pub data Polled : Type 0 where
  events : List Mask → Polled
  error : ℕ → Polled

unfoldable pub write_revents : List PollFd → List Mask → List PollFd
write_revents [] masks = []
write_revents (pfd ∷ pfds) [] = pfd ∷ pfds
write_revents (pfd ∷ pfds) (m ∷ masks) = record pfd { revents = m } ∷ write_revents pfds masks

-- `numEvents`: the entries with a mask that is not zero.
unfoldable pub num_events : List PollFd → ℕ
num_events [] = 0
num_events (pfd ∷ pfds) =
    if Events.is_none pfd.revents then num_events pfds else suc (num_events pfds)

abbrev pub eintr : ℕ
eintr = 4

-- `poll`: the active channels. With no event, and when a signal interrupts, there are none; on
-- another error `LOG_SYSERR` aborts.
unfoldable pub poll : Poller → Polled → Result (List ℕ × Poller)
poll p (error errno) = if errno == eintr then ok ([], p) else fault aborted
poll p (events masks) = do
  let pfds = write_revents p.pollfds masks
  (active, store) ← fill_active p.channels p.store pfds (num_events pfds)
  ok (active, record { pollfds = pfds; channels = p.channels; store = store })
