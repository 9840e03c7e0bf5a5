-- ===== src/Http/Message.antt =====
-- `parseRequest` on a buffer that holds a whole well-formed request.
use cly_server.Base.{
  ℕ, zero, suc, ◌+◌, ◌<◌, ◌≡◌, refl, sym, ap, ◌∙◌, Bool, true, false, some, List, [], ◌∷◌, ◌++◌,
  length, take, drop, append_assoc, take-append_length, drop-append_length, drop-drop, All, ok,
  arith,
}
use cly_server.Buffer.{Buffer, contents}
use cly_server.Buffer.Invariant.{IsValid}
use cly_server.Buffer.Contents.{retrieve_all_as_string-Holds}
use cly_server.Buffer.Search.{find_byte, find_crlf, search_crlf, or_null}
use cly_server.Http.Request.{Request, is_invalid, set_receive_time}
use cly_server.Http.Context.{
  Context, expect_request_line, expect_headers, got_all, Turn, accept_line, request_line_turn,
  headers_turn, turn, parse_loop, finish, map_finish, parse_request,
}
use cly_server.Http.Line.{Free, find_byte-hit, or_null-line, length-before}
use cly_server.Http.Ends.{continue-more, continue-stop}
use cly_server.Http.Loop.{retrieve_line}
use cly_server.Http.Render.{
  Wire, WellFormed, IsHeader, request_line, header_line, header_lines, render, enter,
}
use cly_server.Http.Parse.{
  lined, process_request_line_lem, request_line-Free, header_line-Free, add_header_lem,
}

-- The first line of what is readable, as the parser sees it.
module _ (b : Buffer) (line rest : List ℕ) (v : IsValid b)
    (split : contents b ≡ line ++ b'\r' ∷ b'\n' ∷ rest) (free : Free b'\r' line) where
  find_crlf-line : find_crlf b ≡ some (length line)
  unfolding find_crlf
  find_crlf-line = ap (λ xs. or_null (search_crlf xs) xs) split ∙ or_null-line line rest free

  take-line : take (length line) (contents b) ≡ line
  take-line = ap (take (length line)) split ∙ take-append_length line (b'\r' ∷ b'\n' ∷ rest)

  drop-line : drop (length line + 2) (contents b) ≡ rest
  drop-line =
      ap (drop (length line + 2)) split
      ∙ sym (drop-drop 2 (length line) (line ++ b'\r' ∷ b'\n' ∷ rest))
      ∙ ap (drop 2) (drop-append_length line (b'\r' ∷ b'\n' ∷ rest))

-- A turn on a header line enters the header.
header_turn :
    (c : Context) (b : Buffer) (succeed : Bool) (h : List ℕ × List ℕ) (rest : List ℕ)
    → IsValid b
    → contents b ≡ header_line h ++ b'\r' ∷ b'\n' ∷ rest
    → IsHeader h
    → (b' : Buffer) × (headers_turn c b succeed (find_crlf b)
        ≡ ok (record {
          context = record c {
            request = record c.request { headers = enter c.request.headers (h ∷ []) };
          };
          buffer = b';
          succeed = succeed;
          has_more = true;
        }))
      × IsValid b'
      × (contents b' ≡ rest)
unfolding headers_turn
header_turn c b succeed (field, value) rest v split f =
    let line : List ℕ = field ++ b':' ∷ b' ' ∷ value in
    let free : Free b'\r' line = header_line-Free (field, value) f in
    let at = find_crlf-line b line rest v split free in
    let (b', r, v', c') = retrieve_line b (length line) v at in
    (
      b',
      rw (
        at,
        take-line b line rest v split free,
        r,
        add_header_lem c.request (field, value) f,
        find_byte-hit b':' field (b' ' ∷ value) f.0,
        length-before field (b' ' ∷ value) b':',
      ),
      v',
      c' ∙ drop-line b line rest v split free,
    )

-- A turn on the empty line ends the request.
last_turn :
    (c : Context) (b : Buffer) (succeed : Bool) (rest : List ℕ)
    → IsValid b
    → contents b ≡ b'\r' ∷ b'\n' ∷ rest
    → (b' : Buffer) × (headers_turn c b succeed (find_crlf b)
        ≡ ok (record {
          context = record c { state = got_all };
          buffer = b';
          succeed = succeed;
          has_more = false;
        }))
      × IsValid b'
      × (contents b' ≡ rest)
unfolding headers_turn
last_turn c b succeed rest v split =
    let at = find_crlf-line b [] rest v split tt in
    let (b', r, v', c') = retrieve_line b 0 v at in
    (b', rw (at, r) (unfold find_byte in refl), v', c' ∙ drop-line b [] rest v split tt)

headers_step :
    (c : Context) (b : Buffer) (succeed : Bool) (time : ℕ)
    → c.state ≡ expect_headers
    → turn c.state c b succeed time ≡ headers_turn c b succeed (find_crlf b)
headers_step c b succeed time s = ap (λ k. turn k c b succeed time) s ∙ (unfold turn in refl)

abbrev ended : Context → Buffer → Bool → List (List ℕ × List ℕ) → Turn
ended c b succeed hs = record {
  context = record {
    state = got_all;
    request = record c.request { headers = enter c.request.headers hs };
  };
  buffer = b;
  succeed = succeed;
  has_more = false;
}

-- The loop over the headers of a well-formed request enters them all, in their order.
header_loop :
    (hs : List (List ℕ × List ℕ)) (fuel : ℕ) (c : Context) (b : Buffer) (succeed : Bool) (time : ℕ)
    (rest : List ℕ)
    → length hs < fuel
    → c.state ≡ expect_headers
    → IsValid b
    → contents b ≡ header_lines hs ++ rest
    → All IsHeader hs
    → (b' : Buffer) × (parse_loop fuel c b succeed time ≡ some (ok (ended c b' succeed hs)))
      × IsValid b'
unfolding parse_loop
header_loop hs zero c b succeed time rest lt s v split f = absurd (omega arith)
header_loop [] (suc fuel) c b succeed time rest lt s v split f =
    let (b', e, v', _) = last_turn c b succeed rest v split in
    (
      b',
      continue-stop (turn c.state c b succeed time) (ended c b' succeed [])
          (λ t. parse_loop fuel t.context t.buffer t.succeed time)
          (headers_step c b succeed time s ∙ e) refl,
      v',
    )
header_loop (h ∷ hs) (suc fuel) c b succeed time rest lt s v split f =
    let (b', e, v', split') =
      header_turn c b succeed h (header_lines hs ++ rest) v
        (split ∙ append_assoc (header_line h) (b'\r' ∷ b'\n' ∷ header_lines hs) rest) f.0 in
    let c' : Context = record c {
      request = record c.request { headers = enter c.request.headers (h ∷ []) };
    } in
    let (b'', e', v'') =
      header_loop hs fuel c' b' succeed time rest (omega arith) s v' split' f.1 in
    (
      b'',
      continue-more (turn c.state c b succeed time)
            (record { context = c'; buffer = b'; succeed = succeed; has_more = true })
            (λ t. parse_loop fuel t.context t.buffer t.succeed time)
            (headers_step c b succeed time s ∙ e) refl
          ∙ e',
      v'',
    )

line_step :
    (c : Context) (b : Buffer) (succeed : Bool) (time : ℕ)
    → turn expect_request_line c b succeed time ≡ request_line_turn c b succeed time (find_crlf b)
unfolding turn
line_step c b succeed time = refl

-- A turn on the request line of a well-formed request.
line_turn :
    (c : Context) (b : Buffer) (succeed : Bool) (time : ℕ) (w : Wire) (rest : List ℕ)
    → IsValid b
    → contents b ≡ request_line w ++ b'\r' ∷ b'\n' ∷ rest
    → is_invalid c.request.method ≡ true
    → WellFormed w
    → (b' : Buffer) × (request_line_turn c b succeed time (find_crlf b)
        ≡ ok (record {
          context = record {
            state = expect_headers;
            request = record (lined w c.request) { receive_time = time };
          };
          buffer = b';
          succeed = true;
          has_more = true;
        }))
      × IsValid b'
      × (contents b' ≡ rest)
unfolding request_line_turn accept_line set_receive_time
line_turn c b succeed time w rest v split m f =
    let free = request_line-Free w f in
    let at = find_crlf-line b (request_line w) rest v split free in
    let (b', r, v', c') = retrieve_line b (length (request_line w)) v at in
    (
      b',
      rw (
        at,
        take-line b (request_line w) rest v split free,
        process_request_line_lem c.request w m f,
        r,
      ),
      v',
      c' ∙ drop-line b (request_line w) rest v split free,
    )

-- What the parser holds after a well-formed request: a request with no question mark keeps the query
-- that was there before.
abbrev pub parsed : Wire → Request → ℕ → Request
parsed w r time = record (lined w r) { receive_time = time; headers = enter r.headers w.headers }

-- `parseRequest` reads back what a client wrote: on a buffer that begins with a well-formed request
-- it reports success in the state `kGotAll`, with the method, version and path of that request,
-- with its query if it has one and else the query that the context held before, and with its
-- headers entered into those that the context held before, the last line of a name winning. The
-- buffer is then empty, whatever stood behind the request. Fuel for one turn a line is enough.
pub parse_request-render :
    (fuel : ℕ) (r : Request) (b : Buffer) (time : ℕ) (w : Wire) (rest : List ℕ)
    → length w.headers + 1 < fuel
    → IsValid b
    → contents b ≡ render w ++ rest
    → is_invalid r.method ≡ true
    → WellFormed w
    → (b' : Buffer) × (parse_request fuel
          (record { state = expect_request_line; request = r })
          b
          time
        ≡ some (ok (record { state = got_all; request = parsed w r time }, b', true)))
      × IsValid b'
      × (contents b' ≡ [])
unfolding parse_request parse_loop map_finish finish
parse_request-render zero r b time w rest lt v split m f = absurd (omega arith)
parse_request-render (suc fuel) r b time w rest lt v split m f =
    let c : Context = record { state = expect_request_line; request = r } in
    let c' : Context = record {
      state = expect_headers;
      request = record (lined w r) { receive_time = time };
    } in
    let (b', e, v', split') =
      line_turn c b true time w (header_lines w.headers ++ rest) v
        (split ∙ append_assoc (request_line w) (b'\r' ∷ b'\n' ∷ header_lines w.headers) rest) m f in
    let (b'', e', v'') =
      header_loop w.headers fuel c' b' true time rest (omega arith) refl v' split'
        f.headers_clean in
    let (left, r', valid, none_left) = retrieve_all_as_string-Holds b'' v'' in
    (
      left,
      rw
          (continue-more (turn c.state c b true time)
              (record { context = c'; buffer = b'; succeed = true; has_more = true })
              (λ t. parse_loop fuel t.context t.buffer t.succeed time) (line_step c b true time ∙ e)
              refl
            ∙ e')
          (rw r'),
      valid,
      none_left,
    )
