-- ===== src/Http/Context.antt =====
-- http/HttpContext.h and http/HttpContext.cpp: the parser of requests.
use cly_server.Base.{
  ℕ, zero, suc, ◌+◌, Bool, true, false, ◌&&◌, Option, none, some, List, ◌==◌, ◌=s=◌, if◌then◌else◌,
  length, take, drop, get_or, codes, Result, ok, fault, ◌>>=◌,
}
use cly_server.Buffer.{Buffer, contents, retrieve_until, retrieve_all_as_string}
use cly_server.Buffer.Search.{find_byte, find_crlf}
use cly_server.Http.Request.{
  Request, Version, http10, http11, set_method, set_version, set_path, set_query, set_receive_time,
  add_header, swap,
}
use cly_server.Http.Request

pub data State : Type 0 where
  expect_request_line expect_headers expect_body got_all : State

pub record Context : Type 0 where
  pub state : State
  pub request : Request

abbrev pub new : Context
new = record { state = expect_request_line; request = Request.empty }

unfoldable pub is_got_all : Context → Bool
is_got_all c = elim c.state [ got_all ↦ true | _ ↦ false ]

unfoldable pub reset : Context → Context
reset c = record { state = expect_request_line; request = (swap c.request Request.empty).0 }

-- The last part of `processRequestLine`: "HTTP/1." and one digit.
unfoldable pub process_version : Request → List ℕ → Request × Bool
process_version r version =
    if length version == 8 && take 7 version =s= codes "HTTP/1."
    then if get_or version 7 0 == b'1'
      then (set_version r http11, true)
      else if get_or version 7 0 == b'0'
      then (set_version r http10, true)
      else (r, false)
    else (r, false)

-- The part between the two spaces: the path, and from a question mark on the query.
unfoldable pub process_target : Request → List ℕ → Request
process_target r target =
    let question = find_byte b'?' target in
    if question == length target
    then set_path r target
    else set_query (set_path r (take question target)) (drop question target)

-- What follows the method and its space.
unfoldable pub process_rest : Request → List ℕ → Request × Bool
process_rest r rest =
    let space = find_byte b' ' rest in
    if space == length rest
    then (r, false)
    else process_version (process_target r (take space rest)) (drop (space + 1) rest)

unfoldable pub process_request_line : Request → List ℕ → Result (Request × Bool)
process_request_line r line =
    let space = find_byte b' ' line in
    if space == length line then ok (r, false) else do
      (r', known) ← set_method r (take space line)
      ok (if known then process_rest r' (drop (space + 1) line) else (r', false))

-- The variables of the loop in `parseRequest`.
pub record Turn : Type 0 where
  pub context : Context
  pub buffer : Buffer
  pub succeed : Bool
  pub has_more : Bool

-- What follows `processRequestLine` in the loop.
unfoldable pub accept_line : Context → Buffer → ℕ → ℕ → Request × Bool → Result Turn
accept_line c b time crlf (r, true) = do
  b' ← retrieve_until b (crlf + 2)
  ok (record {
    context = record { state = expect_headers; request = set_receive_time r time };
    buffer = b';
    succeed = true;
    has_more = true;
  })
accept_line c b time crlf (r, false) =
    ok
      (record { context = record c { request = r }; buffer = b; succeed = false; has_more = false })

-- A turn in state `kExpectRequestLine`, by where `findCRLF` found the end of the line.
unfoldable pub request_line_turn : Context → Buffer → Bool → ℕ → Option ℕ → Result Turn
request_line_turn c b succeed time none =
    ok (record { context = c; buffer = b; succeed = succeed; has_more = false })
request_line_turn c b succeed time (some crlf) =
    process_request_line c.request (take crlf (contents b)) >>= accept_line c b time crlf

-- A turn in state `kExpectHeaders`: a line with no colon ends them.
unfoldable pub headers_turn : Context → Buffer → Bool → Option ℕ → Result Turn
headers_turn c b succeed none =
    ok (record { context = c; buffer = b; succeed = succeed; has_more = false })
headers_turn c b succeed (some crlf) = do
  let line = take crlf (contents b)
  let colon = find_byte b':' line
  b' ← retrieve_until b (crlf + 2)
  ok (
      if colon == length line
      then record {
        context = record c { state = got_all };
        buffer = b';
        succeed = succeed;
        has_more = false;
      }
      else record {
        context = record c { request = add_header c.request line colon };
        buffer = b';
        succeed = succeed;
        has_more = true;
      })

-- One turn of the loop. The states `kExpectBody` and `kGotAll` change nothing.
unfoldable pub turn : State → Context → Buffer → Bool → ℕ → Result Turn
turn expect_request_line c b succeed time = request_line_turn c b succeed time (find_crlf b)
turn expect_headers c b succeed time = headers_turn c b succeed (find_crlf b)
turn expect_body c b succeed time =
    ok (record { context = c; buffer = b; succeed = succeed; has_more = true })
turn got_all c b succeed time =
    ok (record { context = c; buffer = b; succeed = succeed; has_more = true })

-- What a turn leads to; `rest` is the loop from there on.
unfoldable pub continue : Result Turn → (Turn → Option (Result Turn)) → Option (Result Turn)
continue (fault e) rest = some (fault e)
continue (ok t) rest = elim t.has_more [ true ↦ rest t | false ↦ some (ok t) ]

-- The loop, with fuel; `none` means that it still runs.
unfoldable pub parse_loop : ℕ → Context → Buffer → Bool → ℕ → Option (Result Turn)
parse_loop zero c b succeed time = none
parse_loop (suc fuel) c b succeed time =
    continue (turn c.state c b succeed time)
      (λ t. parse_loop fuel t.context t.buffer t.succeed time)

-- After the loop `retrieveAllAsString` takes all that is left, to log it.
unfoldable pub finish : Result Turn → Result (Context × Buffer × Bool)
finish r = do t ← r; (message, b) ← retrieve_all_as_string t.buffer; ok (t.context, b, t.succeed)

unfoldable pub map_finish : Option (Result Turn) → Option (Result (Context × Buffer × Bool))
map_finish none = none
map_finish (some r) = some (finish r)

unfoldable pub parse_request : ℕ → Context → Buffer → ℕ → Option (Result (Context × Buffer × Bool))
parse_request fuel c b time = map_finish (parse_loop fuel c b true time)
