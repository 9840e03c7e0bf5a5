-- ===== src/Http/Session.antt =====
-- The server of http/HttpServer.cpp on a connection of net/TcpConnection.cpp: what one event that the
-- connection is readable leads to.
mod Examples
use cly_server.Base.{
  ℕ, zero, suc, ◌+◌, ◌-◌, ◌≤◌, ◌<◌, ◌≡◌, ◌≢◌, refl, sym, ap, ◌∙◌, Bool, true, false, not, ◌&&◌,
  Bool-cases, inl, inr, Option, none, some, List, [], ◌∷◌, ◌++◌, ◌==◌, ==_iff, if◌then◌else◌,
  length, take, take_past, append-nil, Result, ok, fault, ◌>>=◌, arith,
}
use cly_server.Buffer.{Buffer, Received, got, contents, offered, extra_size, max_size}
use cly_server.Buffer.Invariant.{IsValid}
use cly_server.Buffer.Receive.{read_fd-Holds}
use cly_server.Connection.{
  Connection, connected, disconnecting, Effect, message_callback, write_complete_callback, wrote,
  shutdown_write, Written, took, Outcome, handle_read, after_read,
}
use cly_server.Connection
use cly_server.Connection.Trace.{Reachable, Sound}
use cly_server.Connection.Calls.{send-up}
use cly_server.Connection.Closing.{shutdown-up}
use cly_server.Connection.Protocol.{watch-Reachable}
use cly_server.Http.Request.{Request, is_invalid}
use cly_server.Http.Context.{Context, expect_request_line}
use cly_server.Http.Response.{Response, pieces}
use cly_server.Http.Output.{joined}
use cly_server.Http.Render.{Wire, WellFormed, render, request_line, header_lines, method_name}
use cly_server.Http.Message.{parsed}
use cly_server.Http.Server.{Action, send, shutdown, HttpCallback, wants_close, on_message}
use cly_server.Http.Serve.{
  sends, ok_response, on_message-parsed, asks_close, ok_bytes, wants_close-asks_close,
  joined-ok_bytes,
}

-- The actions of `onMessage`, done on the connection; `socket` is what write(2) answers.
pub perform : (List ℕ → Written) → Connection → List Action → Outcome
perform socket c [] = ok (c, [])
perform socket c (send message ∷ actions) = do
  (c', es) ← Connection.send c message (socket message)
  (c'', es') ← perform socket c' actions
  ok (c'', es ++ es')
perform socket c (shutdown ∷ actions) = do
  (c', es) ← Connection.shutdown c
  (c'', es') ← perform socket c' actions
  ok (c'', es ++ es')

abbrev is_message : List Effect → Bool
is_message (message_callback ∷ es) = true
is_message _ = false

-- What `onMessage` leaves, and its actions.
pub finish_message :
    (List ℕ → Written)
    → Connection
    → Result (Context × Buffer × List Action)
    → Result (Context × Connection × List Effect)
finish_message socket c r = do
  (context, input, actions) ← r
  (c', es) ← perform socket (record c { input = input }) actions
  ok (context, c', message_callback ∷ es)

abbrev map_result :
    (Result (Context × Buffer × List Action) → Result (Context × Connection × List Effect))
    → Option (Result (Context × Buffer × List Action))
    → Option (Result (Context × Connection × List Effect))
map_result f none = none
map_result f (some r) = some (f r)

-- The message callback of `HttpServer`, where `handleRead` calls it.
pub after_event :
    ℕ
    → HttpCallback
    → List ℕ
    → (List ℕ → Written)
    → Context
    → ℕ
    → Outcome
    → Option (Result (Context × Connection × List Effect))
after_event fuel callback stack socket context time (fault e) = some (fault e)
after_event fuel callback stack socket context time (ok (c, es)) =
    let replied =
      map_result (finish_message socket c) (on_message fuel callback stack context c.input time) in
    if is_message es then replied else some (ok (context, c, es))

pub on_readable :
    ℕ
    → HttpCallback
    → List ℕ
    → (List ℕ → Written)
    → Context
    → Connection
    → Received
    → ℕ
    → Option (Result (Context × Connection × List Effect))
on_readable fuel callback stack socket context c received time =
    after_event fuel callback stack socket context time (handle_read c received)

-- A socket that takes all it is given.
abbrev pub takes_all : List ℕ → Written
takes_all message = took (length message)

-- The effects of a whole response.
abbrev pub reply : Bool → List ℕ → Bool → List Effect
reply tells_complete response close =
    wrote response
    ∷ ((if tells_complete then write_complete_callback ∷ [] else [])
        ++ (if close then shutdown_write ∷ [] else []))

append-ne : (xs : List ℕ) (y : ℕ) (ys : List ℕ) → xs ++ (y ∷ ys) ≢ []
append-ne [] y ys e = cc
append-ne (x ∷ xs) y ys e = cc

after_read-some :
    (c : Connection) (b : Buffer) (bytes : List ℕ)
    → bytes ≢ []
    → after_read c (got bytes, b) ≡ ok (record c { input = b }, message_callback ∷ [])
unfolding after_read
after_read-some c b [] ne = absurd (ne refl)
after_read-some c b (x ∷ xs) ne = refl

render-ne : (w : Wire) → render w ≢ []
render-ne w e = append-ne (request_line w) b'\r' (b'\n' ∷ header_lines w.headers) e

with_input-Sound :
    (c : Connection) (b : Buffer) → Sound c → IsValid b → Sound (record c { input = b })
with_input-Sound c b v i = record {
  begun = v.begun;
  deaf = v.deaf;
  never_writing = v.never_writing;
  nothing_kept = v.nothing_kept;
  valid = i;
}

-- While the connection is up, a message that the socket takes goes out whole.
send-all :
    (c : Connection) (message : List ℕ)
    → Sound c
    → c.state ≡ connected
    → Connection.send c message (takes_all message)
      ≡ ok (c, wrote message ∷ (if c.tells_complete then write_complete_callback ∷ [] else []))
send-all c message v s =
    send-up c message (length message) v s
    ∙ ap
        (λ t. ok (
          c,
          wrote t
              ∷ (if (length message - length message == 0) && c.tells_complete
                  then write_complete_callback ∷ []
                  else []),
        ))
        (take_past (length message) message (omega arith))
    ∙ ap
        (λ t.
          ok (
            c,
            wrote message ∷ (if t && c.tells_complete then write_complete_callback ∷ [] else []),
          ))
        ((==_iff (length message - length message) 0).1 (omega arith))

perform-sends :
    (c : Connection) (stack : List ℕ) (close : Bool)
    → Sound c
    → c.state ≡ connected
    → (c' : Connection) × (perform takes_all c (sends stack (ok_response close))
        ≡ ok (c', reply c.tells_complete (joined (pieces stack (ok_response close))) close))
      × (c'.input ≡ c.input)
unfolding perform
perform-sends c stack false v s =
    (c, rw (send-all c (joined (pieces stack (ok_response false))) v s), refl)
perform-sends c stack true v s = (
  record c { state = disconnecting },
  rw (
    send-all c (joined (pieces stack (ok_response true))) v s,
    shutdown-up c (ap Connection.is_connected s ∙ (unfold Connection.is_connected in refl))
        v.never_writing,
  ),
  refl,
)

-- The effects of an event that brings a well-formed request, by the request that the parser makes
-- of it.
on_readable-parsed :
    (fuel : ℕ) (callback : HttpCallback) (stack : List ℕ) (r : Request) {c : Connection}
    {es : List Effect} (w : Wire) (time : ℕ)
    → Reachable c es
    → c.state ≡ connected
    → contents c.input ≡ []
    → length (render w) ≤ offered c.input
    → length c.input.bytes + extra_size ≤ max_size
    → length w.headers + 1 < fuel
    → length stack ≡ 32
    → is_invalid r.method ≡ true
    → WellFormed w
    → (context : Context) × (c' : Connection) × (on_readable fuel callback stack takes_all
          (record { state = expect_request_line; request = r })
          c
          (got (render w))
          time
        ≡ some (
            ok (
              context,
              c',
              message_callback
                  ∷ reply c.tells_complete
                      (joined (pieces stack (ok_response (wants_close (parsed w r time)))))
                      (wants_close (parsed w r time)),
            )))
      × (context.state ≡ expect_request_line)
      × (context.request.headers ≡ [])
      × (contents c'.input ≡ [])
unfolding on_readable after_event finish_message handle_read
on_readable-parsed fuel callback stack r {c} w time reach s nothing fits room lt long m f =
    let (v, _) = watch-Reachable reach in
    let (b, e, i, cs) = read_fd-Holds c.input (render w) v.valid fits room in
    let (context, b', e', st, _, hs, i', none_left) =
      on_message-parsed fuel callback stack r b time w [] lt long i
        (cs ∙ ap (λ t. t ++ render w) nothing ∙ sym (append-nil (render w))) m f in
    let (c', e'', same) =
      perform-sends (record c { input = b' }) stack (wants_close (parsed w r time))
        (with_input-Sound c b' v i') s in
    (
      context,
      c',
      rw (e, after_read-some c b (render w) (render-ne w), e', e''),
      st,
      hs,
      ap contents same ∙ none_left,
    )

-- From the socket to the socket: where a reachable connection that is up, awaits a request, has no
-- byte left over and no header from before gets the bytes of a well-formed request in one piece,
-- the server writes the bytes of one response, of status 200 and "ok", and shuts its writing side
-- down exactly if the client asks to close: by a last "Connection" line with the value "close", or
-- as one of HTTP/1.0 with no last "Connection" line of the value "Keep-Alive". No byte and no
-- header of the request is left, and the next request is awaited. The request fits what `readFd`
-- offers, memory is not exhausted, the fuel is a turn for each line and one more, and the socket
-- takes all of the response at once.
pub on_readable-render :
    (fuel : ℕ) (callback : HttpCallback) (stack : List ℕ) (r : Request) {c : Connection}
    {es : List Effect} (w : Wire) (time : ℕ)
    → Reachable c es
    → c.state ≡ connected
    → contents c.input ≡ []
    → length (render w) ≤ offered c.input
    → length c.input.bytes + extra_size ≤ max_size
    → length w.headers + 1 < fuel
    → length stack ≡ 32
    → is_invalid r.method ≡ true
    → r.headers ≡ []
    → WellFormed w
    → (context : Context) × (c' : Connection) × (on_readable fuel callback stack takes_all
          (record { state = expect_request_line; request = r })
          c
          (got (render w))
          time
        ≡ some (
            ok (
              context,
              c',
              message_callback
                  ∷ reply c.tells_complete (ok_bytes stack (asks_close w)) (asks_close w),
            )))
      × (context.state ≡ expect_request_line)
      × (context.request.headers ≡ [])
      × (contents c'.input ≡ [])
on_readable-render fuel callback stack r {c} w time reach s nothing fits room lt long m h f =
    let (context, c', e, st, hs, none_left) =
      on_readable-parsed fuel callback stack r w time reach s nothing fits room lt long m f in
    (
      context,
      c',
      e
          ∙ ap
              (λ close. some (
                ok (
                  context,
                  c',
                  message_callback
                      ∷ reply c.tells_complete (joined (pieces stack (ok_response close))) close,
                )))
              (wants_close-asks_close w r time h)
          ∙ ap
              (λ bytes.
                some (
                  ok (context, c', message_callback ∷ reply c.tells_complete bytes (asks_close w))))
              (joined-ok_bytes stack (asks_close w)),
      st,
      hs,
      none_left,
    )
