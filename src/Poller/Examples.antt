-- ===== src/Poller/Examples.antt =====
-- The poller of net/PollPoller.cpp with two channels.
use cly_server.Base.{
  ℕ, zero, suc, ◌≡◌, refl, sym, ap, subst, true, false, none, List, [], ◌∷◌, Result, ok, fault,
}
use cly_server.Base.Int.{pos, negsuc}
use cly_server.Base.Map.{nat_key, lookup, insert, same}
use cly_server.Poller.{
  Poller, new_channel, put, empty, update_at, entry, set_events, update_channel, remove, events,
  write_revents,
}
use cly_server.Poller.Events.{Mask, none_event}
use cly_server.Poller.Registry.{Inv, empty-Inv}
use cly_server.Poller.Append.{set_events_new-Inv}
use cly_server.Poller.Removal.{Removed, remove-Removed}
use cly_server.Poller.Frame.{SameFds}
use cly_server.Loop.Channels.{Reactor, Demand, updates, removes, loop_turn}
use cly_server.Loop.Turn.{Own, done, change, drop}
use cly_server.Loop.Round.{turn-Inv}

abbrev reading : Mask
reading = record none_event { pollin = true }

abbrev value : Result Poller → Poller
value (ok p) = p
value (fault f) = empty new_channel

-- The channel at an address has the address as its descriptor, and waits for bytes to read.
abbrev one_channel : Poller
one_channel = value (set_events (empty new_channel) 3 reading)

abbrev two_channels : Poller
two_channels = value (set_events one_channel 4 reading)

one_channel-Inv : Inv one_channel
unfolding empty new_channel lookup
one_channel-Inv =
    let (_, e, v, _, _) =
      set_events_new-Inv (empty new_channel) 3 reading (empty-Inv new_channel) refl refl in
    subst Inv (sym (ap value e)) v

two_channels-Inv : Inv two_channels
unfolding empty new_channel lookup set_events update_channel update_at put insert same
two_channels-Inv =
    let (_, e, v, _, _) = set_events_new-Inv one_channel 4 reading one_channel-Inv refl refl in
    subst Inv (sym (ap value e)) v

remove-Removed_example :
    (p' : Poller) × (remove two_channels 3 ≡ ok p') × Removed two_channels 3 0 p'
unfolding empty new_channel lookup set_events update_channel update_at put insert same
remove-Removed_example = remove-Removed two_channels 3 0 two_channels-Inv refl refl

abbrev one_left : Poller
one_left = value (remove two_channels 3)

one_left-Removed : Removed two_channels 3 0 one_left
unfolding empty new_channel lookup set_events update_channel update_at put insert same
one_left-Removed =
    let (_, e, r) = remove-Removed two_channels 3 0 two_channels-Inv refl refl in
    subst (Removed two_channels 3 0) (sym (ap value e)) r

-- Of the two channels the first is ready; its handler stops listening and removes it.
abbrev one_leaves : ℕ → List Demand
one_leaves zero = []
one_leaves (suc n) = updates (suc n) none_event ∷ removes (suc n) ∷ []

one_leaves-Own : (c : ℕ) → Own c (one_leaves c)
one_leaves-Own zero = done
one_leaves-Own (suc n) = change none_event drop

abbrev resting : Reactor
resting = record {
  poller = two_channels;
  active_channels = [];
  current_active_channel = none;
  event_handling = false;
}

turn-Inv_example :
    (r' : Reactor) × (loop_turn one_leaves resting (events (reading ∷ none_event ∷ [])) ≡ ok r')
    × Inv r'.poller
    × SameFds two_channels r'.poller
    × (r'.event_handling ≡ false)
    × (r'.current_active_channel ≡ none)
unfolding empty new_channel lookup set_events update_channel update_at put insert same write_revents
    entry
turn-Inv_example =
    turn-Inv one_leaves resting (reading ∷ none_event ∷ []) one_leaves-Own two_channels-Inv
      ((λ n (e : pos 3 ≡ negsuc n). cc), ((λ n (e : pos 4 ≡ negsuc n). cc), tt))
