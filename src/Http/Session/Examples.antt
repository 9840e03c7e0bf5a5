-- ===== src/Http/Session/Examples.antt =====
-- A request on a new connection of http/HttpServer.cpp.
use cly_server.Base.{
  ℕ, ◌≡◌, refl, true, false, none, some, List, [], ◌∷◌, replicate, codes, ok, arith, ◌=s=◌,
}
use cly_server.Buffer.{Buffer, contents, got, offered, writable_bytes, readable_bytes}
use cly_server.Buffer
use cly_server.Buffer.Invariant.{new-IsValid}
use cly_server.Poller.Events.{none_event}
use cly_server.Connection.{
  Connection, connected, Effect, connection_callback, message_callback, is_connecting,
  connect_established,
}
use cly_server.Connection
use cly_server.Connection.Trace.{Reachable, established}
use cly_server.Http.Request.{get, http11, is_invalid, is_space, skip_spaces}
use cly_server.Http.Request
use cly_server.Http.Context.{Context, expect_request_line}
use cly_server.Http.Render.{Wire, WellFormed, render}
use cly_server.Http.Server.{default_callback}
use cly_server.Http.Serve.{ok_bytes}
use cly_server.Http.Session.{on_readable, takes_all, reply, on_readable-render}

-- GET / HTTP/1.1, with one header.
abbrev wire : Wire
wire = record {
  method = get;
  path = codes "/";
  query = none;
  version = http11;
  headers = (codes "Connection", codes "close") ∷ [];
}

wire-WellFormed : WellFormed wire
unfolding skip_spaces is_space
wire-WellFormed = record {
  known_method = λ e. cc;
  known_version = λ e. cc;
  path_space = grind arith;
  path_mark = grind arith;
  path_return = grind arith;
  query_clean = tt;
  headers_clean = ((grind arith, grind arith, grind arith, (refl, refl)), tt);
}

abbrev begun : Connection
begun = record {
  state = connected;
  reading = true;
  events = record none_event { pollin = true };
  registered = true;
  input = Buffer.new Buffer.initial_size;
  output = Buffer.new Buffer.initial_size;
  tells_complete = false;
}

begun-Reachable : Reachable begun (connection_callback true ∷ [])
unfolding connect_established Connection.new is_connecting
begun-Reachable = established false refl

abbrev stack : List ℕ
stack = replicate 32 7

on_readable-render_example :
    (context : Context) × (c' : Connection) × (on_readable 3 default_callback stack takes_all
        (record { state = expect_request_line; request = Request.empty })
        begun
        (got (render wire))
        5
      ≡ some (ok (context, c', message_callback ∷ reply false (ok_bytes stack true) true)))
    × (context.state ≡ expect_request_line)
    × (context.request.headers ≡ [])
    × (contents c'.input ≡ [])
unfolding is_invalid Buffer.new offered writable_bytes ◌=s=◌
on_readable-render_example =
    on_readable-render 3 default_callback stack Request.empty wire 5 begun-Reachable refl
      (new-IsValid Buffer.initial_size (omega arith)).4 (omega arith) (omega arith) (omega arith)
      refl refl refl wire-WellFormed
