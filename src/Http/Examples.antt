-- ===== src/Http/Examples.antt =====
-- The server of http/ on concrete requests.
use cly_server.Base.{
  ℕ, ◌+◌, ◌≡◌, ◌≢◌, ◌⊎◌, refl, ap, Bool, true, false, none, some, List, [], ◌∷◌, ◌++◌, length,
  replicate, codes, ok, arith, ◌=s=◌,
}
use cly_server.Buffer.{Buffer, contents}
use cly_server.Buffer.Invariant.{IsValid}
use cly_server.Http.Request.{
  Request, get, http11, is_invalid, skip_spaces, is_space, set_method, method_of, set_version,
  set_path, set_query,
}
use cly_server.Http.Request
use cly_server.Http.Context.{
  Context, State, expect_request_line, expect_body, got_all, reset, parse_request,
  process_request_line, process_rest, process_version, process_target,
}
use cly_server.Http.Context
use cly_server.Http.Loop.{Ready}
use cly_server.Http.Ends.{parse_request-Ends}
use cly_server.Http.Render.{Wire, WellFormed, render}
use cly_server.Http.Message.{parsed, parse_request-render}
use cly_server.Http.Response
use cly_server.Http.Response.{
  Response, set_status_code, set_status_message, append_to_buffer, pieces, header_pieces,
  connection_pieces, length_line, status_line, printed, status_number,
}
use cly_server.Http.Output.{joined}
use cly_server.Http.Server.{
  Action, send, shutdown, set_status, response_for, wants_close, rejection, on_message,
}
use cly_server.Http.Serve.{
  ok_bytes, ok_response, ok_response-small, Fits, on_message-render, on_message-Ends,
}

-- GET /a?q HTTP/1.1
abbrev wire : Wire
wire = record {
  method = get;
  path = codes "/a";
  query = some (codes "q");
  version = http11;
  headers = (codes "Host", codes "x") ∷ [];
}

abbrev plain : Wire
plain = record wire { query = none }

wire-WellFormed : WellFormed wire
unfolding skip_spaces is_space
wire-WellFormed = record {
  known_method = λ e. cc;
  known_version = λ e. cc;
  path_space = grind arith;
  path_mark = grind arith;
  path_return = grind arith;
  query_clean = grind arith;
  headers_clean = ((grind arith, grind arith, grind arith, (refl, refl)), tt);
}

plain-WellFormed : WellFormed plain
unfolding skip_spaces is_space
plain-WellFormed = record {
  known_method = λ e. cc;
  known_version = λ e. cc;
  path_space = grind arith;
  path_mark = grind arith;
  path_return = grind arith;
  query_clean = tt;
  headers_clean = ((grind arith, grind arith, grind arith, (refl, refl)), tt);
}

abbrev holding : List ℕ → Buffer
holding text = record { bytes = replicate 8 0 ++ text; reader = 8; writer = 8 + length text }

abbrev wire_bytes : Buffer
wire_bytes = holding (render wire)

wire_bytes-IsValid : IsValid wire_bytes
wire_bytes-IsValid = record {
  ordered = omega arith;
  inside = omega arith;
  roomy = omega arith;
  small = omega arith;
}

abbrev plain_bytes : Buffer
plain_bytes = holding (render plain)

plain_bytes-IsValid : IsValid plain_bytes
plain_bytes-IsValid = record {
  ordered = omega arith;
  inside = omega arith;
  roomy = omega arith;
  small = omega arith;
}

abbrev garbage : List ℕ
garbage = replicate 32 7

parse_request-render_example :
    (b' : Buffer) × (parse_request 3
        (record { state = expect_request_line; request = Request.empty })
        wire_bytes
        5
      ≡ some (ok (record { state = got_all; request = parsed wire Request.empty 5 }, b', true)))
    × IsValid b'
    × (contents b' ≡ [])
unfolding contents is_invalid
parse_request-render_example =
    parse_request-render 3 Request.empty wire_bytes 5 wire [] (omega arith) wire_bytes-IsValid refl
      refl wire-WellFormed

on_message-render_example :
    (c' : Context) × (b' : Buffer) × (on_message 3 set_status garbage
        (record { state = expect_request_line; request = Request.empty })
        wire_bytes
        5
      ≡ some (ok (c', b', send (ok_bytes garbage false) ∷ [])))
    × (c'.state ≡ expect_request_line)
    × (is_invalid c'.request.method ≡ true)
    × (c'.request.headers ≡ [])
    × IsValid b'
    × (contents b' ≡ [])
unfolding contents is_invalid ◌=s=◌
on_message-render_example =
    on_message-render 3 set_status garbage Request.empty wire_bytes 5 wire [] (omega arith) refl
      wire_bytes-IsValid refl refl refl wire-WellFormed

set_status-response : (req : Request) → response_for set_status req ≡ ok_response (wants_close req)
unfolding response_for set_status set_status_code set_status_message Response.new
set_status-response req = ground arith

set_status-Fits : Fits set_status garbage
set_status-Fits req = omega (
  arith,
  ap (λ r. length (joined (pieces garbage r))) (set_status-response req),
  ok_response-small garbage (wants_close req) refl,
)

on_message-Ends_example :
    (c' : Context) × (b' : Buffer) × (actions : List Action) × (on_message 40 set_status garbage
        Context.new wire_bytes 5
      ≡ some (ok (c', b', actions)))
    × IsValid b'
    × (contents b' ≡ [])
    × (Ready c'.state c'.request ⊎ (actions ≡ send rejection ∷ shutdown ∷ []))
unfolding contents is_invalid
on_message-Ends_example =
    on_message-Ends 40 set_status garbage Context.new wire_bytes 5 (omega arith) set_status-Fits
      refl wire_bytes-IsValid

parse_request-Ends_example :
    (c' : Context) × (b' : Buffer) × (succeed : Bool) × (parse_request 40 Context.new wire_bytes 5
      ≡ some (ok (c', b', succeed)))
    × IsValid b'
    × (contents b' ≡ [])
    × (c'.state ≢ expect_body)
    × (succeed ≡ true → Ready c'.state c'.request ⊎ (c'.state ≡ got_all))
unfolding contents is_invalid
parse_request-Ends_example =
    parse_request-Ends 40 Context.new wire_bytes 5 (omega arith) refl wire_bytes-IsValid

-- A response with one header.
abbrev response : Response
response = record (ok_response false) {
  headers = (codes "Server", codes "Cly") ∷ [];
  body = codes "hi";
}

abbrev no_bytes : Buffer
no_bytes = holding []

no_bytes-IsValid : IsValid no_bytes
no_bytes-IsValid = record {
  ordered = omega arith;
  inside = omega arith;
  roomy = omega arith;
  small = omega arith;
}
