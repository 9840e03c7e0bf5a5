-- ===== src/Http/Serve.antt =====
-- What a client sees of the server on one connection.
use mathlib.Core.Bool.{false≢true}
use cly_server.Base.{
  ℕ, ◌+◌, ◌≤◌, ◌<◌, ◌≡◌, refl, sym, ap, ◌∙◌, ◌⊎◌, inl, inr, Bool, true, false, some, List, [], ◌∷◌,
  ◌++◌, if◌then◌else◌, length, codes, drop, ◌=s=◌, =s=-eq, =s=-refl, ◌&&◌, ◌||◌, not, ok, arith,
  Bool-cases, length-append,
}
use cly_server.Base.Decimal.{decimal, digits_onto}
use cly_server.Buffer.{Buffer, contents, max_size}
use cly_server.Buffer
use cly_server.Buffer.Invariant.{IsValid, new-IsValid}
use cly_server.Base.Map.{
  string_key, insert, lookup, same, same_refl, same-ne, lookup-insert_self, lookup-insert_ne,
}
use cly_server.Http.Request.{
  Request, Version, unknown, http10, http11, is_invalid, get_header, or_empty,
}
use cly_server.Http.Context.{Context, expect_request_line, got_all, is_got_all, reset}
use cly_server.Http.Response.{
  Response, not_found, ok_200, set_status_code, set_status_message, append_to_buffer, pieces,
  status_line, connection_pieces, header_pieces, length_line, crlf, printed, status_number,
}
use cly_server.Http.Response
use cly_server.Http.Output.{joined, append_to_buffer-Holds, status_line-zero}
use cly_server.Http.Loop.{Ready}
use cly_server.Http.Ends.{parse_request-Ends}
use cly_server.Http.Render.{Wire, WellFormed, render, enter}
use cly_server.Http.Parse.{is_invalid-ne}
use cly_server.Http.Message.{parsed, parse_request-render}
use cly_server.Http.Reset.{reset-Ready}
use cly_server.Http.Server.{
  Action, send, shutdown, HttpCallback, set_status, wants_close, response_for, on_request,
  rejection, answer, map_answer, on_message, is_http10,
}

-- The actions for a response: all of it in one `send`, and a shutdown if it closes.
abbrev pub sends : List ℕ → Response → List Action
sends stack r = send (joined (pieces stack r)) ∷ (if r.close_connection then shutdown ∷ [] else [])

-- A response that fits a vector goes out whole.
on_request-sends :
    (callback : HttpCallback) (stack : List ℕ) (req : Request)
    → 8 + length (joined (pieces stack (response_for callback req))) ≤ max_size
    → on_request callback stack req ≡ ok (sends stack (response_for callback req))
unfolding on_request
on_request-sends callback stack req h =
    let (v, _, _, _, nothing) = new-IsValid Buffer.initial_size (omega arith) in
    let r : Response = response_for callback req in
    let (b', e, _, c) =
      append_to_buffer-Holds stack r (Buffer.new Buffer.initial_size) v (unfold Buffer.new in h) in
    rw (e, c, nothing)

abbrev pub ok_response : Bool → Response
ok_response close = record {
  headers = [];
  status_code = ok_200;
  status_message = codes "ok";
  close_connection = close;
  body = [];
}

response_for-known :
    (callback : HttpCallback) (req : Request)
    → is_invalid req.method ≡ false
    → response_for callback req ≡ ok_response (wants_close req)
unfolding response_for set_status set_status_code set_status_message Response.new
response_for-known callback req h = rw h

-- Of the server's own response only the status line depends on anything.
pub ok_response-small :
    (stack : List ℕ) (close : Bool)
    → length stack ≡ 32
    → length (joined (pieces stack (ok_response close))) ≤ 100
unfolding pieces header_pieces connection_pieces length_line decimal digits_onto
ok_response-small stack true h = omega (
  arith,
  (status_line-zero stack (ok_response true) h).0,
  length-append (status_line stack (ok_response true))
      (codes "ok" ++ crlf ++ codes "Connection: close" ++ crlf ++ crlf),
)
ok_response-small stack false h = omega (
  arith,
  (status_line-zero stack (ok_response false) h).0,
  length-append (status_line stack (ok_response false)) (
      codes "ok"
      ++ crlf
      ++ codes "Content-length: 0"
      ++ crlf
      ++ codes "Connection: keep-Alive"
      ++ crlf
      ++ crlf),
)

-- The answer to a well-formed request, by the request that the parser makes of it.
pub on_message-parsed :
    (fuel : ℕ) (callback : HttpCallback) (stack : List ℕ) (r : Request) (b : Buffer) (time : ℕ)
    (w : Wire) (rest : List ℕ)
    → length w.headers + 1 < fuel
    → length stack ≡ 32
    → IsValid b
    → contents b ≡ render w ++ rest
    → is_invalid r.method ≡ true
    → WellFormed w
    → (c' : Context) × (b' : Buffer) × (on_message fuel callback stack
          (record { state = expect_request_line; request = r })
          b
          time
        ≡ some (ok (c', b', sends stack (ok_response (wants_close (parsed w r time))))))
      × (c'.state ≡ expect_request_line)
      × (is_invalid c'.request.method ≡ true)
      × (c'.request.headers ≡ [])
      × IsValid b'
      × (contents b' ≡ [])
unfolding on_message map_answer answer is_got_all reset
on_message-parsed fuel callback stack r b time w rest lt long v split m f =
    let (b', e, v', none_left) = parse_request-render fuel r b time w rest lt v split m f in
    let req : Request = parsed w r time in
    let known = response_for-known callback req (is_invalid-ne w.method f.known_method) in
    let small = ok_response-small stack (wants_close req) long in
    let out =
      on_request-sends callback stack req (rw known (omega (arith, small)))
      ∙ ap (λ x. ok (sends stack x)) known in
    let c' : Context = reset (record { state = got_all; request = req }) in
    (
      c',
      b',
      rw (e, out),
      refl,
      (reset-Ready (record { state = got_all; request = req })).0,
      (reset-Ready (record { state = got_all; request = req })).2,
      v',
      none_left,
    )

-- The value of the last header line of some name, or what was there before.
abbrev pub last_value : List ℕ → List ℕ → List (List ℕ × List ℕ) → List ℕ
last_value name before [] = before
last_value name before ((field, value) ∷ hs) =
    last_value name (if field =s= name then value else before) hs

abbrev is_old : Version → Bool
is_old unknown = false
is_old http10 = true
is_old http11 = false

-- A client asks to close by its last "Connection" line, and one of HTTP/1.0 by having none that
-- keeps the connection.
abbrev pub asks_close : Wire → Bool
asks_close w =
    let connection = last_value (codes "Connection") [] w.headers in
    connection =s= codes "close" || (is_old w.version && not (connection =s= codes "Keep-Alive"))

-- The bytes of the response: the status line of 13 bytes stands in an array of 32, behind it a zero
-- and what the stack held.
abbrev pub ok_bytes : List ℕ → Bool → List ℕ
ok_bytes stack true =
    codes "HTTP/1.1 200 " ++ (0 ∷ drop 14 stack ++ codes "ok\r\nConnection: close\r\n\r\n")
ok_bytes stack false =
    codes "HTTP/1.1 200 "
    ++ (0 ∷ drop 14 stack ++ codes "ok\r\nContent-length: 0\r\nConnection: keep-Alive\r\n\r\n")

pub joined-ok_bytes :
    (stack : List ℕ) (close : Bool)
    → joined (pieces stack (ok_response close)) ≡ ok_bytes stack close
unfolding pieces header_pieces connection_pieces length_line decimal digits_onto status_line printed
    status_number
joined-ok_bytes stack true = refl
joined-ok_bytes stack false = refl

same-test : (a b : List ℕ) → same a b ≡ (a =s= b)
same-test a b = elim (Bool-cases (a =s= b)) [
  | inl e ↦ rw e (ap (λ t. same t b) (=s=-eq a b e) ∙ same_refl b)
  | inr e ↦ rw e (same-ne a b (λ eq. false≢true (sym e ∙ ap (λ t. t =s= b) eq ∙ =s=-refl b)))
]

lookup-insert :
    (k f v : List ℕ) (m : List (List ℕ × List ℕ))
    → or_empty (lookup k (insert f v m)) ≡ (if f =s= k then v else or_empty (lookup k m))
unfolding or_empty
lookup-insert k f v m = elim (Bool-cases (f =s= k)) [
  | inl e ↦ rw e (
      ap (λ t. or_empty (lookup t (insert f v m))) (sym (=s=-eq f k e))
      ∙ ap or_empty (lookup-insert_self f v m))
  | inr e ↦ rw e (ap or_empty (lookup-insert_ne f k v m (same-test f k ∙ e)))
]

enter-last_value :
    (k : List ℕ) (m hs : List (List ℕ × List ℕ))
    → or_empty (lookup k (enter m hs)) ≡ last_value k (or_empty (lookup k m)) hs
enter-last_value k m [] = refl
enter-last_value k m ((f, v) ∷ hs) =
    enter-last_value k (insert f v m) hs ∙ ap (λ t. last_value k t hs) (lookup-insert k f v m)

is_http10-is_old : (v : Version) → is_http10 v ≡ is_old v
unfolding is_http10
is_http10-is_old unknown = refl
is_http10-is_old http10 = refl
is_http10-is_old http11 = refl

-- The server closes exactly for a client that asks for it, where no header was left from before.
pub wants_close-asks_close :
    (w : Wire) (r : Request) (time : ℕ)
    → r.headers ≡ []
    → wants_close (parsed w r time) ≡ asks_close w
unfolding wants_close get_header or_empty lookup
wants_close-asks_close w r time h =
    let at =
      ap (λ m. or_empty (lookup (codes "Connection") (enter m w.headers))) h
      ∙ enter-last_value (codes "Connection") [] w.headers in
    let connection = last_value (codes "Connection") [] w.headers in
    ap (λ t. t =s= codes "close" || (is_http10 w.version && not (t =s= codes "Keep-Alive"))) at
    ∙ ap (λ b. connection =s= codes "close" || (b && not (connection =s= codes "Keep-Alive")))
        (is_http10-is_old w.version)

-- On a connection that awaits a request, with no header left from before, a well-formed one is
-- answered by exactly one response, the bytes of status 200 and "ok", and by a shutdown exactly if
-- the client asks to close; the connection then awaits the next request, with an empty buffer and
-- no header. A client asks to close by a last "Connection" line with the value "close", or as one
-- of HTTP/1.0 with no last "Connection" line of the value "Keep-Alive". The buffer is valid and
-- begins with the request, the array of `appendToBuffer` has its 32 bytes, and the fuel is a turn
-- for each line and one more.
pub on_message-render :
    (fuel : ℕ) (callback : HttpCallback) (stack : List ℕ) (r : Request) (b : Buffer) (time : ℕ)
    (w : Wire) (rest : List ℕ)
    → length w.headers + 1 < fuel
    → length stack ≡ 32
    → IsValid b
    → contents b ≡ render w ++ rest
    → is_invalid r.method ≡ true
    → r.headers ≡ []
    → WellFormed w
    → (c' : Context) × (b' : Buffer) × (on_message fuel callback stack
          (record { state = expect_request_line; request = r })
          b
          time
        ≡ some (
            ok (
              c',
              b',
              send (ok_bytes stack (asks_close w)) ∷ (if asks_close w then shutdown ∷ [] else []),
            )))
      × (c'.state ≡ expect_request_line)
      × (is_invalid c'.request.method ≡ true)
      × (c'.request.headers ≡ [])
      × IsValid b'
      × (contents b' ≡ [])
on_message-render fuel callback stack r b time w rest lt long v split m h f =
    let (c', b', e, st, inv, hs, v', none_left) =
      on_message-parsed fuel callback stack r b time w rest lt long v split m f in
    (
      c',
      b',
      e
          ∙ ap (λ close. some (ok (c', b', sends stack (ok_response close))))
              (wants_close-asks_close w r time h)
          ∙ ap
              (λ bytes.
                some (ok (c', b', send bytes ∷ (if asks_close w then shutdown ∷ [] else []))))
              (joined-ok_bytes stack (asks_close w)),
      st,
      inv,
      hs,
      v',
      none_left,
    )

-- A callback whose responses fit a vector.
abbrev pub Fits : HttpCallback → List ℕ → Type 0
Fits callback stack =
    (req : Request) → 8 + length (joined (pieces stack (response_for callback req))) ≤ max_size

abbrev Served : HttpCallback → List ℕ → Context × Buffer × Bool → Type 0
Served callback stack (c, b, succeed) =
    (c' : Context) × (actions : List Action) × (answer callback stack (c, b, succeed)
      ≡ ok (c', b, actions))
    × (Ready c'.state c'.request ⊎ (actions ≡ send rejection ∷ shutdown ∷ []))

is_got_all_lem : (c : Context) → c.state ≡ got_all → is_got_all c ≡ true
unfolding is_got_all
is_got_all_lem c g = rw g

-- What `onMessage` makes of any end of `parseRequest`.
answer-Served :
    (callback : HttpCallback) (stack : List ℕ) (c : Context) (b : Buffer) (succeed : Bool)
    → Fits callback stack
    → (succeed ≡ true → Ready c.state c.request ⊎ (c.state ≡ got_all))
    → Served callback stack (c, b, succeed)
unfolding answer
answer-Served callback stack c b succeed fits k = elim (Bool-cases (is_got_all c)) [
  | inl e ↦ (
    reset c,
    (if succeed then [] else send rejection ∷ shutdown ∷ [])
        ++ sends stack (response_for callback c.request),
    rw (e, on_request-sends callback stack c.request (fits c.request)),
    inl (reset-Ready c).0,
  )
  | inr e ↦ elim (Bool-cases succeed) [
    | inl s ↦ (c, [], rw (e, s), elim (k s) [ inl m ↦ inl m | inr g ↦ absurd (clash e g) ])
    | inr s ↦ (c, send rejection ∷ shutdown ∷ [], rw (e, s), inr refl)
  ]
]
  where
    clash : is_got_all c ≡ false → c.state ≡ got_all → ⊥
    clash e g = false≢true (sym e ∙ is_got_all_lem c g)

-- Whatever bytes a valid buffer holds on a connection that awaits a request or headers, and with a
-- callback whose responses fit a vector, `onMessage` ends, on fuel beyond the number of bytes, with
-- no failed assertion and an empty buffer. Then either the connection awaits a request or headers
-- again, or the bytes were refused, with the bad-request text and a shutdown as the only answer.
pub on_message-Ends :
    (fuel : ℕ) (callback : HttpCallback) (stack : List ℕ) (c : Context) (b : Buffer) (time : ℕ)
    → length (contents b) < fuel
    → Fits callback stack
    → Ready c.state c.request
    → IsValid b
    → (c' : Context) × (b' : Buffer) × (actions : List Action) × (on_message fuel callback stack c b
          time
        ≡ some (ok (c', b', actions)))
      × IsValid b'
      × (contents b' ≡ [])
      × (Ready c'.state c'.request ⊎ (actions ≡ send rejection ∷ shutdown ∷ []))
unfolding on_message map_answer
on_message-Ends fuel callback stack c b time lt fits m v =
    let (c', b', succeed, e, v', none_left, n, k) = parse_request-Ends fuel c b time lt m v in
    let (c'', actions, a, o) = answer-Served callback stack c' b' succeed fits k in
    (c'', b', actions, rw (e, a), v', none_left, o)
