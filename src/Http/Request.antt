-- ===== src/Http/Request.antt =====
-- http/HttpRequest.h. A string is the list of its bytes; `std::map` is `Base.Map`.
use mathlib.Core.List.{reverse}
use cly_server.Base.{
  ℕ, ◌+◌, Bool, true, false, not, ◌&&◌, ◌||◌, Option, none, some, List, [], ◌∷◌, ◌==◌, ◌=s=◌, leb,
  if◌then◌else◌, take, drop, codes, Result, ok, ◌>>◌, assert,
}
use cly_server.Base.Map.{string_key, insert, lookup}

pub data Method : Type 0 where
  invalid get post head put delete : Method

pub data Version : Type 0 where
  unknown http10 http11 : Version

pub record Request : Type 0 where
  pub method : Method
  pub version : Version
  pub path : List ℕ
  pub query : List ℕ
  pub receive_time : ℕ
  pub headers : List (List ℕ × List ℕ)

abbrev pub empty : Request
empty = record {
  method = invalid;
  version = unknown;
  path = [];
  query = [];
  receive_time = 0;
  headers = [];
}

unfoldable pub is_invalid : Method → Bool
is_invalid invalid = true
is_invalid get = false
is_invalid post = false
is_invalid head = false
is_invalid put = false
is_invalid delete = false

-- The chain of comparisons in `setMethod`.
unfoldable pub method_of : List ℕ → Method
method_of m =
    if m =s= codes "GET"
    then get
    else if m =s= codes "POST"
    then post
    else if m =s= codes "HEAD"
    then head
    else if m =s= codes "PUT"
    then put
    else if m =s= codes "Delete"
    then delete
    else invalid

unfoldable pub set_method : Request → List ℕ → Result (Request × Bool)
set_method r m = do
  assert (is_invalid r.method)
  ok (record r { method = method_of m }, not (is_invalid (method_of m)))

unfoldable pub set_version : Request → Version → Request
set_version r v = record r { version = v }

unfoldable pub set_path : Request → List ℕ → Request
set_path r path = record r { path = path }

unfoldable pub set_query : Request → List ℕ → Request
set_query r query = record r { query = query }

unfoldable pub set_receive_time : Request → ℕ → Request
set_receive_time r time = record r { receive_time = time }

-- `isspace` in the C locale.
unfoldable pub is_space : ℕ → Bool
is_space c = c == b' ' || (leb 9 c && leb c 13)

-- `while(colon < end && isspace(*colon)) ++colon;`
unfoldable pub skip_spaces : List ℕ → List ℕ
skip_spaces [] = []
skip_spaces (c ∷ cs) = if is_space c then skip_spaces cs else c ∷ cs

-- The loop that shortens `value` while its last byte is a space.
unfoldable pub trim_end : List ℕ → List ℕ
trim_end value = reverse (skip_spaces (reverse value))

-- `addHeader(start, colon, end)`: the bytes from `start` to `end`, and the distance of `colon`.
unfoldable pub add_header : Request → List ℕ → ℕ → Request
add_header r line colon = record r {
  headers = insert (take colon line) (trim_end (skip_spaces (drop (colon + 1) line))) r.headers;
}

unfoldable pub or_empty : Option (List ℕ) → List ℕ
or_empty none = []
or_empty (some value) = value

-- `getHeader`: the empty string where there is none.
unfoldable pub get_header : Request → List ℕ → List ℕ
get_header r field = or_empty (lookup field r.headers)

-- `swap`: the path is exchanged with the other's query, and neither the query of this request nor
-- the path of the other takes part.
unfoldable pub swap : Request → Request → Request × Request
swap r that = (
  record that { path = that.query; query = r.query },
  record r { path = that.path; query = r.path },
)
