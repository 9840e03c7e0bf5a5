-- ===== src/Connector/Examples.antt =====
-- A net/Connector.cpp connector that dials, fails and dials again, on concrete data.
use cly_server.Base.{◌^◌, ◌*◌, ◌≡◌, refl, true, some, none, [], ◌∷◌, min, inl, inr}
use cly_server.Connector.{
  Connector, connecting, closed, run_after, Dial, classify, retry, new, start, start_in_loop_of,
  connect_to, connect_with, attempt, connecting_on, is_null, is_disconnected, opened,
  update_channel,
}
use cly_server.Connector.System.{
  System, idle, note, note_all, with_connector, step, starts, Reachable, begun, stepped, Idle,
}
use cly_server.Connector.Invariant.{Inv, held, socket}
use cly_server.Connector.Protocol.{held-Reachable}
use cly_server.Connector.Backoff.{retried, retry_delays}

-- A socket whose dial is under way, and one that is refused.
abbrev under_way : Dial
under_way = record { socket = some 5; errno = 115 }

abbrev refused : Dial
refused = record { socket = some 6; errno = 111 }

abbrev dialling : System
dialling = record idle {
  connector = record new {
    connect = true;
    state = connecting;
    channel = some (record { fd = 5; writing = true });
  };
}

idle-Idle : Idle idle
unfolding idle new
idle-Idle = record { down = refl; no_channel = refl; no_timer = refl; no_start = refl }

dialling-Reachable : Reachable dialling (opened 5 ∷ update_channel 5 true ∷ [])
unfolding step idle new start start_in_loop_of is_disconnected connect_to connect_with classify
    attempt connecting_on is_null with_connector note note_all
dialling-Reachable = stepped (starts under_way) begun ((5, refl, inl refl), idle-Idle) refl

held-Reachable_example :
    Inv dialling
    × (held (some none) (opened 5 ∷ update_channel 5 true ∷ []) ≡ some (socket dialling))
held-Reachable_example = held-Reachable dialling-Reachable

abbrev ready : Connector
ready = record new { connect = true }

retry_delays_example :
    (retry (retried ready (1 ∷ 2 ∷ [])) 3).1 ≡ closed 3 ∷ run_after (min (500 * 2 ^ 2) 30_000) ∷ []
unfolding new
retry_delays_example = retry_delays ready (1 ∷ 2 ∷ []) 3 refl refl

abbrev waiting : System
waiting = record {
  connector = record new { connect = true; retry_delay_ms = 1000 };
  pending = [];
  timers = 1;
}

waiting-Reachable : Reachable waiting (opened 6 ∷ closed 6 ∷ run_after 500 ∷ [])
unfolding step idle new start start_in_loop_of is_disconnected connect_to connect_with classify
    attempt retry with_connector note note_all
waiting-Reachable = stepped (starts refused) begun ((6, refl, inr refl), idle-Idle) refl
