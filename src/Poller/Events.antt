-- ===== src/Poller/Events.antt =====
-- The event masks of poll(2), and the dispatch of `Channel::handleEvent` over them.
use cly_server.Base.{Bool, false, not, ◌&&◌, ◌||◌, List, [], ◌∷◌, ◌++◌, if◌then◌else◌}

-- The bits of `<poll.h>` that the program uses.
pub record Mask : Type 0 where
  pub pollin : Bool
  pub pollpri : Bool
  pub pollout : Bool
  pub pollerr : Bool
  pub pollhup : Bool
  pub pollnval : Bool
  pub pollrdhup : Bool

abbrev pub none_event : Mask
none_event = record {
  pollin = false;
  pollpri = false;
  pollout = false;
  pollerr = false;
  pollhup = false;
  pollnval = false;
  pollrdhup = false;
}

unfoldable pub is_none : Mask → Bool
is_none m = not (
    m.pollin
    || (m.pollpri || (m.pollout || (m.pollerr || (m.pollhup || (m.pollnval || m.pollrdhup))))))

-- The callbacks of a channel, as far as they are set.
pub data Callback : Type 0 where
  close_callback error_callback read_callback write_callback : Callback

pub record Callbacks : Type 0 where
  pub close_set : Bool
  pub error_set : Bool
  pub read_set : Bool
  pub write_set : Bool

abbrev when : Bool → Bool → Callback → List Callback
when test is_set callback = if test && is_set then callback ∷ [] else []

-- `handleEventWithGuard`: the callbacks that are called, in order.
unfoldable pub handle_event : Callbacks → Mask → List Callback
handle_event set revents =
    when (revents.pollhup && not revents.pollin) set.close_set close_callback
    ++ when (revents.pollerr || revents.pollnval) set.error_set error_callback
    ++ when (revents.pollin || (revents.pollpri || revents.pollrdhup)) set.read_set read_callback
    ++ when revents.pollout set.write_set write_callback
