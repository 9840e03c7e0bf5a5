-- ===== src/Http/Parse.antt =====
-- What the parser makes of a well-formed request.
use mathlib.Core.List.{reverse-reverse}
use cly_server.Base.{
  ℕ, ◌+◌, ◌≡◌, ◌≢◌, refl, sym, ap, ◌∙◌, true, false, Option, none, some, List, [], ◌∷◌, ◌++◌,
  length, drop, append-nil, take-append_length, drop-append_length, drop-drop, ◌=s=◌, ok, arith,
  ==_iff,
}
use cly_server.Buffer.Search.{find_byte}
use cly_server.Http.Request.{
  Method, invalid, get, post, head, put, delete, Version, unknown, http10, http11, Request,
  is_invalid, method_of, set_method, set_version, set_path, set_query, add_header, skip_spaces,
  trim_end, is_space,
}
use cly_server.Http.Context.{process_version, process_target, process_rest, process_request_line}
use cly_server.Http.Line.{Free, Free-append, find_byte-hit, find_byte-miss, length-before}
use cly_server.Http.Render.{
  Wire, WellFormed, IsHeader, IsQuery, Trimmed, method_name, version_name, query_text, request_line,
  header_line, enter,
}

method_of-method_name : (m : Method) → m ≢ invalid → method_of (method_name m) ≡ m
unfolding method_of ◌=s=◌
method_of-method_name invalid h = absurd (h refl)
method_of-method_name get h = refl
method_of-method_name post h = refl
method_of-method_name head h = refl
method_of-method_name put h = refl
method_of-method_name delete h = refl

method_name-Free : (m : Method) → Free b' ' (method_name m) × Free b'\r' (method_name m)
method_name-Free invalid = (tt, tt)
method_name-Free get = omega arith
method_name-Free post = omega arith
method_name-Free head = omega arith
method_name-Free put = omega arith
method_name-Free delete = omega arith

version_name-Free : (v : Version) → Free b'\r' (version_name v)
version_name-Free unknown = tt
version_name-Free http10 = omega arith
version_name-Free http11 = omega arith

process_version_lem :
    (r : Request) (v : Version)
    → v ≢ unknown
    → process_version r (version_name v) ≡ (record r { version = v }, true)
unfolding process_version ◌=s=◌ set_version
process_version_lem r unknown h = absurd (h refl)
process_version_lem r http10 h = refl
process_version_lem r http11 h = refl

-- With no question mark the query of the request is left as it was.
abbrev pub query_or : Option (List ℕ) → List ℕ → List ℕ
query_or none old = old
query_or (some q) old = b'?' ∷ q

process_target_lem :
    (r : Request) (path : List ℕ) (query : Option (List ℕ))
    → Free b'?' path
    → process_target r (path ++ query_text query)
      ≡ record r { path = path; query = query_or query r.query }
unfolding process_target set_path set_query
process_target_lem r path none h =
    rw (append-nil path, find_byte-miss b'?' path h, (==_iff (length path) (length path)).1 refl)
process_target_lem r path (some q) h = rw (
  find_byte-hit b'?' path q h,
  length-before path q b'?',
  take-append_length path (b'?' ∷ q),
  drop-append_length path (b'?' ∷ q),
)

-- Behind the first byte that is found stands the rest.
drop-after : (xs ys : List ℕ) (c : ℕ) → drop (length xs + 1) (xs ++ c ∷ ys) ≡ ys
drop-after xs ys c =
    sym (drop-drop 1 (length xs) (xs ++ c ∷ ys)) ∙ ap (drop 1) (drop-append_length xs (c ∷ ys))

query_text-Free :
    (query : Option (List ℕ))
    → IsQuery query
    → Free b' ' (query_text query) × Free b'\r' (query_text query)
query_text-Free none h = (tt, tt)
query_text-Free (some q) h = ((omega arith, h.0), (omega arith, h.1))

process_rest_lem :
    (r : Request) (w : Wire)
    → WellFormed w
    → process_rest r ((w.path ++ query_text w.query) ++ b' ' ∷ version_name w.version)
      ≡ (record r { path = w.path; query = query_or w.query r.query; version = w.version }, true)
unfolding process_rest
process_rest_lem r w f =
    let target : List ℕ = w.path ++ query_text w.query in
    let free : Free b' ' target =
      Free-append b' ' w.path (query_text w.query) f.path_space
        (query_text-Free w.query f.query_clean).0 in
    rw
      (
        find_byte-hit b' ' target (version_name w.version) free,
        length-before target (version_name w.version) b' ',
        take-append_length target (b' ' ∷ version_name w.version),
        drop-after target (version_name w.version) b' ',
        process_target_lem r w.path w.query f.path_mark,
      )
      (process_version_lem (record r { path = w.path; query = query_or w.query r.query }) w.version
        f.known_version)

pub is_invalid-ne : (m : Method) → m ≢ invalid → is_invalid m ≡ false
unfolding is_invalid
is_invalid-ne invalid h = absurd (h refl)
is_invalid-ne get h = refl
is_invalid-ne post h = refl
is_invalid-ne head h = refl
is_invalid-ne put h = refl
is_invalid-ne delete h = refl

-- The request once its line has been read.
abbrev pub lined : Wire → Request → Request
lined w r = record r {
  method = w.method;
  path = w.path;
  query = query_or w.query r.query;
  version = w.version;
}

pub process_request_line_lem :
    (r : Request) (w : Wire)
    → is_invalid r.method ≡ true
    → WellFormed w
    → process_request_line r (request_line w) ≡ ok (lined w r, true)
unfolding process_request_line set_method
process_request_line_lem r w h f =
    let name : List ℕ = method_name w.method in
    let rest : List ℕ = (w.path ++ query_text w.query) ++ b' ' ∷ version_name w.version in
    rw
      (
        find_byte-hit b' ' name rest (method_name-Free w.method).0,
        length-before name rest b' ',
        take-append_length name (b' ' ∷ rest),
        drop-after name rest b' ',
        h,
        method_of-method_name w.method f.known_method,
        is_invalid-ne w.method f.known_method,
      )
      (ap ok (process_rest_lem (record r { method = w.method }) w f))

pub request_line-Free : (w : Wire) → WellFormed w → Free b'\r' (request_line w)
request_line-Free w f =
    Free-append b'\r' (method_name w.method)
      (b' ' ∷ ((w.path ++ query_text w.query) ++ b' ' ∷ version_name w.version))
      (method_name-Free w.method).1
      (
        omega arith,
        Free-append b'\r' (w.path ++ query_text w.query) (b' ' ∷ version_name w.version)
            (Free-append b'\r' w.path (query_text w.query) f.path_return
              (query_text-Free w.query f.query_clean).1)
            (omega arith, version_name-Free w.version),
      )

Trimmed-kept : (value : List ℕ) → Trimmed value → trim_end (skip_spaces (b' ' ∷ value)) ≡ value
unfolding trim_end
Trimmed-kept value (front, back) = rw (skip_one value, front, back) (reverse-reverse value)
  where
    skip_one : (xs : List ℕ) → skip_spaces (b' ' ∷ xs) ≡ skip_spaces xs
    skip_one xs = unfold skip_spaces is_space in refl

pub header_line-Free : (h : List ℕ × List ℕ) → IsHeader h → Free b'\r' (header_line h)
header_line-Free (field, value) f =
    Free-append b'\r' field (b':' ∷ b' ' ∷ value) f.1 (omega arith, (omega arith, f.2))

pub add_header_lem :
    (r : Request) (h : List ℕ × List ℕ)
    → IsHeader h
    → let line = header_line h in
      add_header r line (find_byte b':' line) ≡ record r { headers = enter r.headers (h ∷ []) }
unfolding add_header
add_header_lem r (field, value) f = rw (
  find_byte-hit b':' field (b' ' ∷ value) f.0,
  take-append_length field (b':' ∷ b' ' ∷ value),
  drop-after field (b' ' ∷ value) b':',
  Trimmed-kept value f.3,
)
