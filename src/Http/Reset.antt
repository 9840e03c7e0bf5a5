-- ===== src/Http/Reset.antt =====
-- `reset`, and what a parser keeps from one request to the next.
use cly_server.Base.{
  ℕ, ◌+◌, ◌≡◌, refl, true, false, none, some, List, [], ◌++◌, ◌==◌, length, take, drop, ok, fault,
  assert_failed, arith, ◌<◌,
}
use cly_server.Buffer.{Buffer, contents}
use cly_server.Buffer.Invariant.{IsValid}
use cly_server.Buffer.Search.{find_byte}
use cly_server.Http.Request.{
  Request, is_invalid, method_of, set_method, set_version, set_path, set_query, swap, invalid,
}
use cly_server.Http.Request
use cly_server.Http.Context.{
  Context, got_all, reset, process_version, process_target, process_rest, process_request_line,
  parse_request,
}
use cly_server.Http.Loop.{Ready}
use cly_server.Http.Render.{Wire, WellFormed, render}
use cly_server.Http.Message.{parsed, parse_request-render}

-- `reset` makes the context ready for a next request, clearing the method, version, path, time and
-- headers, but the query of the old request stays.
pub reset-Ready :
    (c : Context)
    → Ready (reset c).state (reset c).request
      × ((reset c).request.path ≡ [])
      × ((reset c).request.headers ≡ [])
      × ((reset c).request.query ≡ c.request.query)
unfolding reset swap is_invalid
reset-Ready c = (refl, refl, refl, refl)

-- So a well-formed request with no question mark that follows on a connection is reported with the
-- query of the request before it.
pub stale_query :
    (fuel : ℕ) (c : Context) (b : Buffer) (time : ℕ) (w : Wire) (rest : List ℕ)
    → length w.headers + 1 < fuel
    → IsValid b
    → contents b ≡ render w ++ rest
    → WellFormed w
    → w.query ≡ none
    → (c' : Context) × (b' : Buffer) × (parse_request fuel (reset c) b time
        ≡ some (ok (c', b', true)))
      × (c'.request.path ≡ w.path)
      × (c'.request.query ≡ c.request.query)
unfolding reset swap
stale_query fuel c b time w rest lt v split f none_asked =
    let r : Request = (swap c.request Request.empty).0 in
    let (b', e, _, _) =
      parse_request-render fuel r b time w rest lt v split (unfold is_invalid in refl) f in
    (record { state = got_all; request = parsed w r time }, b', e, refl, rw (none_asked, parsed))

-- The rest of the request line never changes the method.
method-process_rest : (r : Request) (rest : List ℕ) → (process_rest r rest).0.method ≡ r.method
unfolding process_rest process_version process_target set_version set_path set_query
method-process_rest r rest = ground arith

method_kept :
    (r r' : Request) (line : List ℕ)
    → process_request_line r line ≡ ok (r', false)
    → (find_byte b' ' line == length line) ≡ false
    → is_invalid (method_of (take (find_byte b' ' line) line)) ≡ false
    → is_invalid r'.method ≡ false
unfolding process_request_line set_method
method_kept r r' line e space known =
    let m = method_of (take (find_byte b' ' line) line) in
    ground
      (arith, method-process_rest (record r { method = m }) (drop (find_byte b' ' line + 1) line))

-- A request line with a known method that is rejected for what follows leaves the method set, and the
-- next request line on the connection then fails the assertion of `setMethod`.
pub rejected_line_faults :
    (r r' : Request) (line next : List ℕ)
    → process_request_line r line ≡ ok (r', false)
    → (find_byte b' ' line == length line) ≡ false
    → is_invalid (method_of (take (find_byte b' ' line) line)) ≡ false
    → (find_byte b' ' next == length next) ≡ false
    → process_request_line r' next ≡ fault assert_failed
unfolding process_request_line set_method
rejected_line_faults r r' line next e space known space' =
    rw (space', method_kept r r' line e space known)
