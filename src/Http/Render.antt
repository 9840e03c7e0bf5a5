-- ===== src/Http/Render.antt =====
-- How a client writes the requests that http/HttpContext.cpp is to read.
use mathlib.Core.List.{reverse}
use cly_server.Base.{ℕ, ◌≡◌, ◌≢◌, List, [], ◌∷◌, ◌++◌, All, codes, Option, none, some}
use cly_server.Base.Map.{string_key, insert}
use cly_server.Http.Request.{
  Method, invalid, get, post, head, put, delete, Version, unknown, http10, http11, skip_spaces,
}
use cly_server.Http.Line.{Free}

-- A request on the wire; the query holds its question mark.
pub record Wire : Type 0 where
  pub method : Method
  pub version : Version
  pub path : List ℕ
  pub query : Option (List ℕ)
  pub headers : List (List ℕ × List ℕ)

-- The names that `setMethod` knows.
abbrev pub method_name : Method → List ℕ
method_name invalid = []
method_name get = codes "GET"
method_name post = codes "POST"
method_name head = codes "HEAD"
method_name put = codes "PUT"
method_name delete = codes "Delete"

abbrev pub version_name : Version → List ℕ
version_name unknown = []
version_name http10 = codes "HTTP/1.0"
version_name http11 = codes "HTTP/1.1"

abbrev pub query_text : Option (List ℕ) → List ℕ
query_text none = []
query_text (some q) = b'?' ∷ q

abbrev pub request_line : Wire → List ℕ
request_line w =
    method_name w.method ++ b' ' ∷ ((w.path ++ query_text w.query) ++ b' ' ∷ version_name w.version)

abbrev pub header_line : List ℕ × List ℕ → List ℕ
header_line (field, value) = field ++ b':' ∷ b' ' ∷ value

-- The header lines and the empty line behind them.
abbrev pub header_lines : List (List ℕ × List ℕ) → List ℕ
header_lines [] = b'\r' ∷ b'\n' ∷ []
header_lines (h ∷ hs) = header_line h ++ b'\r' ∷ b'\n' ∷ header_lines hs

abbrev pub render : Wire → List ℕ
render w = request_line w ++ b'\r' ∷ b'\n' ∷ header_lines w.headers

-- A value with no space at either end.
abbrev pub Trimmed : List ℕ → Type 0
Trimmed value = (skip_spaces value ≡ value) × (skip_spaces (reverse value) ≡ reverse value)

abbrev pub IsHeader : List ℕ × List ℕ → Type 0
IsHeader (field, value) = Free b':' field × Free b'\r' field × Free b'\r' value × Trimmed value

abbrev pub IsQuery : Option (List ℕ) → Type 0
IsQuery none = Unit {0}
IsQuery (some q) = Free b' ' q × Free b'\r' q

-- What a client has to keep to.
pub record WellFormed (w : Wire) : Type 0 where
  pub known_method : w.method ≢ invalid
  pub known_version : w.version ≢ unknown
  pub path_space : Free b' ' w.path
  pub path_mark : Free b'?' w.path
  pub path_return : Free b'\r' w.path
  pub query_clean : IsQuery w.query
  pub headers_clean : All IsHeader w.headers

-- The headers as the map that the request holds: a later line of the same name wins.
abbrev pub enter : List (List ℕ × List ℕ) → List (List ℕ × List ℕ) → List (List ℕ × List ℕ)
enter map [] = map
enter map ((field, value) ∷ hs) = enter (insert field value map) hs
