-- ===== src/Loop/Channels.antt =====
-- net/EventLoop.cpp towards its poller: the active channels of a turn, and the updates and removals
-- of channels that their handlers ask for.
use cly_server.Base.{
  ℕ, Bool, true, false, not, ◌||◌, Option, none, some, List, [], ◌∷◌, ◌==◌, Result, ok, assert,
  ◌>>=◌, ◌>>◌,
}
use cly_server.Poller.{Poller, Polled, has_channel, set_events, remove, poll}
use cly_server.Poller.Events.{Mask, none_event}

-- A channel is known by its address.
pub record Reactor : Type 0 where
  pub poller : Poller
  pub active_channels : List ℕ
  pub current_active_channel : Option ℕ
  pub event_handling : Bool

unfoldable pub is_current : Option ℕ → ℕ → Bool
is_current none c = false
is_current (some d) c = d == c

-- `std::find` on the active channels.
unfoldable pub is_active : List ℕ → ℕ → Bool
is_active [] c = false
is_active (d ∷ ds) c = d == c || is_active ds c

unfoldable pub loop_has_channel : Reactor → ℕ → Bool
loop_has_channel r c = has_channel r.poller c

unfoldable pub with_poller : Reactor → Result Poller → Result Reactor
with_poller r p = p >>= λ poller. ok (record r { poller = poller })

-- `EventLoop::updateChannel`, behind a setter of the channel's mask.
unfoldable pub loop_update_channel : Reactor → ℕ → Mask → Result Reactor
loop_update_channel r c events = with_poller r (set_events r.poller c events)

-- The assertion of `EventLoop::removeChannel`.
unfoldable pub may_remove : Reactor → ℕ → Bool
may_remove r c =
    not r.event_handling
    || (is_current r.current_active_channel c || not (is_active r.active_channels c))

-- `EventLoop::removeChannel`, behind `Channel::remove`.
unfoldable pub loop_remove_channel : Reactor → ℕ → Result Reactor
loop_remove_channel r c = do assert (may_remove r c); with_poller r (remove r.poller c)

-- What a handler asks of the loop.
pub data Demand : Type 0 where
  updates : ℕ → Mask → Demand
  removes : ℕ → Demand

unfoldable pub serve : Reactor → Demand → Result Reactor
serve r (updates c events) = loop_update_channel r c events
serve r (removes c) = loop_remove_channel r c

unfoldable pub serve_all : Reactor → List Demand → Result Reactor
serve_all r [] = ok r
serve_all r (q ∷ qs) = serve r q >>= λ r'. serve_all r' qs

-- The loop over the active channels; `handler` tells what the handlers of a channel ask for.
unfoldable pub handle_active : (ℕ → List Demand) → Reactor → List ℕ → Result Reactor
handle_active handler r [] = ok r
handle_active handler r (c ∷ cs) =
    serve_all (record r { current_active_channel = some c }) (handler c) >>= λ r'.
    handle_active handler r' cs

-- A turn of `loop()` up to `doPendingFunctors`.
unfoldable pub loop_turn : (ℕ → List Demand) → Reactor → Polled → Result Reactor
loop_turn handler r polled = do
  (active, poller) ← poll r.poller polled
  r' ←
      handle_active handler
        (record r { poller = poller; active_channels = active; event_handling = true }) active
  ok (record r' { current_active_channel = none; event_handling = false })

-- The constructor: the channel of the eventfd at an address is the first one.
unfoldable pub new_reactor : Poller → ℕ → Result Reactor
new_reactor p wakeup_channel =
    loop_update_channel
      (record {
        poller = p;
        active_channels = [];
        current_active_channel = none;
        event_handling = false;
      })
      wakeup_channel (record none_event { pollin = true })

-- The destructor takes it out again.
unfoldable pub destroy_reactor : Reactor → ℕ → Result Reactor
destroy_reactor r wakeup_channel =
    loop_update_channel r wakeup_channel none_event >>= λ r'. loop_remove_channel r' wakeup_channel
