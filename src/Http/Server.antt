-- ===== src/Http/Server.antt =====
-- http/HttpServer.cpp: what the server does with the bytes of a connection.
use cly_server.Base.{
  ℕ, Bool, true, false, not, ◌&&◌, ◌||◌, Option, none, some, List, [], ◌∷◌, ◌++◌, ◌=s=◌,
  if◌then◌else◌, codes, Result, ok, ◌>>=◌,
}
use cly_server.Buffer.{Buffer, contents, max_size}
use cly_server.Buffer
use cly_server.Http.Request.{Request, Version, http10, http11, unknown, is_invalid, get_header}
use cly_server.Http.Context
use cly_server.Http.Context.{Context, is_got_all, reset, parse_request}
use cly_server.Http.Response.{
  Response, not_found, ok_200, set_status_code, set_status_message, set_close_connection,
  append_to_buffer,
}
use cly_server.Http.Response

-- What the server asks of the connection: to send bytes, and to shut down its writing side.
pub data Action : Type 0 where
  send : List ℕ → Action
  shutdown : Action

-- `defaultHttpCallback`.
unfoldable pub default_callback : Request → Response → Response
default_callback req resp =
    set_close_connection (set_status_message (set_status_code resp not_found) (codes "Not Found"))
      true

-- `setstatus`.
unfoldable pub set_status : Request → Response → Response
set_status req resp = set_status_message (set_status_code resp ok_200) (codes "ok")

unfoldable pub is_http10 : Version → Bool
is_http10 unknown = false
is_http10 http10 = true
is_http10 http11 = false

-- Whether the connection is to be closed after the response.
unfoldable pub wants_close : Request → Bool
wants_close req =
    let connection = get_header req (codes "Connection") in
    connection =s= codes "close"
    || (is_http10 req.version && not (connection =s= codes "Keep-Alive"))

-- `httpCallback_`, which the server's user may set.
abbrev pub HttpCallback : Type 0
HttpCallback = Request → Response → Response

unfoldable pub response_for : HttpCallback → Request → Response
response_for callback req =
    let response = Response.new (wants_close req) in
    if is_invalid req.method then callback req response else set_status req response

-- `onRequest`; `stack` is what the array of `appendToBuffer` held before.
unfoldable pub on_request : HttpCallback → List ℕ → Request → Result (List Action)
on_request callback stack req = do
  let response = response_for callback req
  buf ← append_to_buffer stack response (Buffer.new Buffer.initial_size)
  ok (send (contents buf) ∷ (if response.close_connection then shutdown ∷ [] else []))

abbrev pub rejection : List ℕ
rejection = codes "HTTP/1.1 Bad Request" ++ b'\r' ∷ b'\n' ∷ b'\r' ∷ b'\n' ∷ []

-- `onMessage` once `parseRequest` has returned.
unfoldable pub answer :
    HttpCallback → List ℕ → Context × Buffer × Bool → Result (Context × Buffer × List Action)
answer callback stack (c, b, succeed) =
    let refused = if succeed then [] else send rejection ∷ shutdown ∷ [] in
    let served = on_request callback stack c.request in
    if is_got_all c
    then (served >>= λ actions. ok (reset c, b, refused ++ actions))
    else ok (c, b, refused)

unfoldable pub map_answer :
    HttpCallback
    → List ℕ
    → Option (Result (Context × Buffer × Bool))
    → Option (Result (Context × Buffer × List Action))
map_answer callback stack none = none
map_answer callback stack (some r) = some (r >>= answer callback stack)

-- `onMessage`; the fuel is that of the loop in `parseRequest`.
unfoldable pub on_message :
    ℕ
    → HttpCallback
    → List ℕ
    → Context
    → Buffer
    → ℕ
    → Option (Result (Context × Buffer × List Action))
on_message fuel callback stack c b time = map_answer callback stack (parse_request fuel c b time)

-- `onConnection`: a connection that comes up gets a fresh context.
unfoldable pub on_connection : Bool → Context → Context
on_connection connected old = if connected then Context.new else old
