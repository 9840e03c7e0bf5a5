-- ===== src/Http/Loop.antt =====
-- The turns of the loop of `parseRequest` in http/HttpContext.cpp.
use mathlib.Core.Bool.{false≢true}
use cly_server.Base.{
  ℕ, ◌+◌, ◌≤◌, ◌<◌, ◌≡◌, ◌≢◌, refl, ap, ◌⊎◌, inl, inr, Bool, true, false, not, Option, none, some,
  List, ◌∷◌, ◌==◌, if◌then◌else◌, length, take, drop, length-append, length-drop, Result, ok, arith,
  Bool-cases, le→leb,
}
use cly_server.Buffer.{Buffer, contents, readable_bytes, retrieve_until}
use cly_server.Buffer.Invariant.{IsValid, length-contents}
use cly_server.Buffer.Contents.{retrieve-Holds}
use cly_server.Buffer.Search.{find_byte, find_crlf, find_crlf-FindsCrlf}
use cly_server.Http.Request.{
  Request, Method, add_header, set_receive_time, is_invalid, set_method, method_of,
}
use cly_server.Http.Context.{
  Context, State, expect_request_line, expect_headers, expect_body, got_all, Turn,
  process_request_line, process_rest, accept_line, request_line_turn, headers_turn, turn,
}

-- The states that a call of `parseRequest` may begin in: a request line with no method set yet, or
-- headers.
abbrev pub Ready : State → Request → Type 0
Ready expect_request_line r = is_invalid r.method ≡ true
Ready expect_headers r = Unit {0}
Ready expect_body r = ⊥
Ready got_all r = ⊥

-- What a turn from such a state gives: the loop goes on in such a state with fewer bytes, or ends.
pub record Goes (before : Buffer) (t : Turn) : Type 0 where
  pub valid : IsValid t.buffer
  pub shorter :
      t.has_more ≡ true
      → (Ready t.context.state t.context.request)
        × (length (contents t.buffer) < length (contents before))
  pub no_body : t.context.state ≢ expect_body
  pub rests :
      t.succeed ≡ true → Ready t.context.state t.context.request ⊎ (t.context.state ≡ got_all)

abbrev Turns : Buffer → Result Turn → Type 0
Turns b r = (t : Turn) × (r ≡ ok t) × Goes b t

find_crlf-fits : (b : Buffer) (i : ℕ) → find_crlf b ≡ some i → i + 2 ≤ length (contents b)
find_crlf-fits b i e = elim (find_crlf-FindsCrlf b) [
  | inl (n, _) ↦ absurd (clash n)
  | inr (pre, post, f, split, _) ↦
      omega (arith, ap length split, length-append pre (b'\r' ∷ b'\n' ∷ post), same pre f)
]
  where
    clash : find_crlf b ≡ none → ⊥
    clash n = cc

    same : (pre : List ℕ) → find_crlf b ≡ some (length pre) → i ≡ length pre
    same pre f = cc

-- The line and its "\r\n" are within the readable bytes, so `retrieveUntil` takes them away.
pub retrieve_line :
    (b : Buffer) (i : ℕ)
    → IsValid b
    → find_crlf b ≡ some i
    → (b' : Buffer) × (retrieve_until b (i + 2) ≡ ok b')
      × IsValid b'
      × (contents b' ≡ drop (i + 2) (contents b))
unfolding retrieve_until
retrieve_line b i v e =
    let fits : i + 2 ≤ readable_bytes b = omega (arith, find_crlf-fits b i e, length-contents v) in
    let (b', r, v', c) = retrieve-Holds b (i + 2) v fits in
    (b', rw (le→leb (i + 2) (readable_bytes b) fits, r), v', c)

stops :
    (b : Buffer) (t : Turn)
    → IsValid t.buffer
    → t.has_more ≡ false
    → t.context.state ≢ expect_body
    → (t.succeed ≡ true → Ready t.context.state t.context.request ⊎ (t.context.state ≡ got_all))
    → Goes b t
stops b t v h n k = record {
  valid = v;
  shorter = λ more. absurd (clash more);
  no_body = n;
  rests = k;
}
  where
    clash : t.has_more ≡ true → ⊥
    clash more = cc

headers_turn-Turns :
    (c : Context) (b : Buffer) (succeed : Bool) (o : Option ℕ)
    → c.state ≡ expect_headers
    → IsValid b
    → find_crlf b ≡ o
    → Turns b (headers_turn c b succeed o)
unfolding headers_turn
headers_turn-Turns c b succeed none s v e =
    let t : Turn = record { context = c; buffer = b; succeed = succeed; has_more = false } in
    (t, refl, stops b t v refl (λ h. cc) (λ _. inl (rw s tt)))
headers_turn-Turns c b succeed (some i) s v e =
    let (b', r, v', cs) = retrieve_line b i v e in
    let line : List ℕ = take i (contents b) in
    let last : Turn = record {
      context = record c { state = got_all };
      buffer = b';
      succeed = succeed;
      has_more = false;
    } in
    let more : Turn = record {
      context = record c { request = add_header c.request line (find_byte b':' line) };
      buffer = b';
      succeed = succeed;
      has_more = true;
    } in
    elim (Bool-cases (find_byte b':' line == length line)) [
      | inl h ↦ (last, rw (r, h), stops b last v' refl (λ k. cc) (λ _. inr refl))
      | inr h ↦ (
        more,
        rw (r, h),
        record {
          valid = v';
          shorter = λ _. (rw s tt, less b' cs);
          no_body = λ (k : c.state ≡ expect_body). cc;
          rests = λ _. inl (rw s tt);
        },
      )
    ]
  where
    less :
        (b' : Buffer)
        → contents b' ≡ drop (i + 2) (contents b)
        → length (contents b') < length (contents b)
    less b' cs = omega (arith, ap length cs, length-drop (i + 2) (contents b), find_crlf-fits b i e)

-- `setMethod` is called with no method set, so the line is read with no fault.
process_request_line-ok :
    (r : Request) (line : List ℕ)
    → is_invalid r.method ≡ true
    → (out : Request × Bool) × (process_request_line r line ≡ ok out)
unfolding process_request_line set_method
process_request_line-ok r line h = elim (Bool-cases (find_byte b' ' line == length line)) [
  | inl e ↦ ((r, false), rw e)
  | inr e ↦
      let m : Method = method_of (take (find_byte b' ' line) line) in
      let r' : Request = record r { method = m } in
      (
        (if not (is_invalid m)
            then process_rest r' (drop (find_byte b' ' line + 1) line)
            else (r', false)),
        rw (e, h),
      )
]

accept_line-Turns :
    (c : Context) (b : Buffer) (time i : ℕ) (out : Request × Bool)
    → c.state ≡ expect_request_line
    → IsValid b
    → find_crlf b ≡ some i
    → Turns b (accept_line c b time i out)
unfolding accept_line
accept_line-Turns c b time i (r, true) s v e =
    let (b', q, v', cs) = retrieve_line b i v e in
    let t : Turn = record {
      context = record { state = expect_headers; request = set_receive_time r time };
      buffer = b';
      succeed = true;
      has_more = true;
    } in
    (
      t,
      rw q,
      record {
        valid = v';
        shorter = λ _. (tt, less b' cs);
        no_body = λ (k : expect_headers ≡ expect_body). cc;
        rests = λ _. inl tt;
      },
    )
  where
    less :
        (b' : Buffer)
        → contents b' ≡ drop (i + 2) (contents b)
        → length (contents b') < length (contents b)
    less b' cs = omega (arith, ap length cs, length-drop (i + 2) (contents b), find_crlf-fits b i e)
accept_line-Turns c b time i (r, false) s v e =
    let t : Turn = record {
      context = record c { request = r };
      buffer = b;
      succeed = false;
      has_more = false;
    } in
    (t, refl, stops b t v refl (λ h. cc) (λ (h : false ≡ true). absurd (false≢true h)))

request_line_turn-Turns :
    (c : Context) (b : Buffer) (succeed : Bool) (time : ℕ) (o : Option ℕ)
    → c.state ≡ expect_request_line
    → is_invalid c.request.method ≡ true
    → IsValid b
    → find_crlf b ≡ o
    → Turns b (request_line_turn c b succeed time o)
unfolding request_line_turn
request_line_turn-Turns c b succeed time none s m v e =
    let t : Turn = record { context = c; buffer = b; succeed = succeed; has_more = false } in
    (t, refl, stops b t v refl (λ h. cc) (λ _. inl (rw s m)))
request_line_turn-Turns c b succeed time (some i) s m v e =
    let (out, q) = process_request_line-ok c.request (take i (contents b)) m in
    rw q (accept_line-Turns c b time i out s v e)

pub turn-Turns :
    (c : Context) (b : Buffer) (succeed : Bool) (time : ℕ) (s : State)
    → c.state ≡ s
    → Ready s c.request
    → IsValid b
    → Turns b (turn s c b succeed time)
unfolding turn
turn-Turns c b succeed time expect_request_line e m v =
    request_line_turn-Turns c b succeed time (find_crlf b) e m v refl
turn-Turns c b succeed time expect_headers e m v =
    headers_turn-Turns c b succeed (find_crlf b) e v refl
turn-Turns c b succeed time expect_body e m v = absurd m
turn-Turns c b succeed time got_all e m v = absurd m
