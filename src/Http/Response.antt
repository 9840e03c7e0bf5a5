-- ===== src/Http/Response.antt =====
-- http/HttpResponse.h and http/HttpResponse.cpp.
use cly_server.Base.{
  ℕ, suc, Bool, List, [], ◌∷◌, ◌++◌, if◌then◌else◌, length, take, drop, codes, Result, ok, ◌>>=◌,
}
use cly_server.Base.Map.{string_key, insert}
use cly_server.Base.Decimal.{decimal}
use cly_server.Buffer.{Buffer, append}

pub data StatusCode : Type 0 where
  unknown ok_200 moved_permanently bad_request not_found : StatusCode

-- The values of the enumeration.
unfoldable pub status_number : StatusCode → ℕ
status_number unknown = 0
status_number ok_200 = 200
status_number moved_permanently = 301
status_number bad_request = 400
status_number not_found = 404

pub record Response : Type 0 where
  pub headers : List (List ℕ × List ℕ)
  pub status_code : StatusCode
  pub status_message : List ℕ
  pub close_connection : Bool
  pub body : List ℕ

unfoldable pub new : Bool → Response
new close = record {
  headers = [];
  status_code = unknown;
  status_message = [];
  close_connection = close;
  body = [];
}

unfoldable pub set_status_code : Response → StatusCode → Response
set_status_code r code = record r { status_code = code }

unfoldable pub set_status_message : Response → List ℕ → Response
set_status_message r message = record r { status_message = message }

unfoldable pub set_close_connection : Response → Bool → Response
set_close_connection r on = record r { close_connection = on }

unfoldable pub add_header : Response → List ℕ → List ℕ → Response
add_header r key value = record r { headers = insert key value r.headers }

unfoldable pub set_content_type : Response → List ℕ → Response
set_content_type r content_type = add_header r (codes "Content-Type") content_type

unfoldable pub set_body : Response → List ℕ → Response
set_body r body = record r { body = body }

abbrev pub crlf : List ℕ
crlf = b'\r' ∷ b'\n' ∷ []

-- `char buf[32]` after `snprintf`: at most 31 characters and a zero, and behind them what the stack
-- held before.
unfoldable pub printed : List ℕ → List ℕ → List ℕ
printed stack text = let shown = take 31 text in shown ++ 0 ∷ drop (suc (length shown)) stack

-- The first 32 bytes, the whole array: `append(buf, sizeof buf)`.
unfoldable pub status_line : List ℕ → Response → List ℕ
status_line stack r =
    printed stack (codes "HTTP/1.1 " ++ decimal (status_number r.status_code) ++ codes " ")

unfoldable pub length_line : Response → List ℕ
length_line r = take 31 (codes "Content-length: " ++ decimal (length r.body) ++ crlf)

-- The strings that `appendToBuffer` appends about the connection.
unfoldable pub connection_pieces : Response → List (List ℕ)
connection_pieces r =
    if r.close_connection
    then (codes "Connection: close" ++ crlf) ∷ []
    else length_line r ∷ (codes "Connection: keep-Alive" ++ crlf) ∷ []

unfoldable pub header_pieces : List (List ℕ × List ℕ) → List (List ℕ)
header_pieces [] = []
header_pieces ((key, value) ∷ hs) = key ∷ codes ": " ∷ value ∷ crlf ∷ header_pieces hs

-- All the strings that `appendToBuffer` appends, in order; `stack` is what `buf` held before.
unfoldable pub pieces : List ℕ → Response → List (List ℕ)
pieces stack r =
    (status_line stack r ∷ r.status_message ∷ crlf ∷ [])
    ++ connection_pieces r
    ++ header_pieces r.headers
    ++ (crlf ∷ r.body ∷ [])

unfoldable pub append_all : Buffer → List (List ℕ) → Result Buffer
append_all b [] = ok b
append_all b (s ∷ ss) = append b s >>= λ b'. append_all b' ss

unfoldable pub append_to_buffer : List ℕ → Response → Buffer → Result Buffer
append_to_buffer stack r output = append_all output (pieces stack r)
