-- ===== src/Response.antt =====
-- src/http/HttpResponse.cpp and include/http/HttpResponse.h: a response's headers, kept under one
-- spelling of their names, its body, and its text.
pub mod Headers
pub mod Status
mod Tests
use http_framework.Prelude.{
  ℕ, zero, suc, ◌+◌, ◌-◌, ◌/◌, ◌%◌, Bool, true, false, Option, none, some, List, [], ◌∷◌, ◌++◌,
  ◌==◌, ltb, if◌then◌else◌, is_empty, length,
}
use http_framework.Prelude.Bytes.{Bytes, codes, crlf}
use http_framework.Prelude.Maps.{Assoc, lookup, insert, bytes_eq}
use http_framework.Request.Text.{to_lower_case, to_upper, trim_left, trim_right}
use http_framework.Request.State.{or_empty}

pub record HttpResponse : Type 0 where
  pub status_code : ℕ
  pub reason_phrase : Bytes
  pub headers : Assoc Bytes Bytes
  pub body : Bytes
  -- Also isFinalized: the framework has decided the response.
  pub sent : Bool

-- The names whose spelling is given.
abbrev pub known_headers : Assoc Bytes Bytes
known_headers =
    (codes "content-length", codes "Content-Length")
    ∷ (codes "content-type", codes "Content-Type")
    ∷ (codes "set-cookie", codes "Set-Cookie")
    ∷ (codes "connection", codes "Connection")
    ∷ (codes "server", codes "Server")
    ∷ (codes "date", codes "Date")
    ∷ (codes "location", codes "Location")
    ∷ (codes "transfer-encoding", codes "Transfer-Encoding")
    ∷ (codes "cache-control", codes "Cache-Control")
    ∷ (codes "etag", codes "ETag")
    ∷ (codes "last-modified", codes "Last-Modified")
    ∷ (codes "content-encoding", codes "Content-Encoding")
    ∷ (codes "www-authenticate", codes "WWW-Authenticate")
    ∷ (codes "access-control-allow-origin", codes "Access-Control-Allow-Origin")
    ∷ (codes "access-control-allow-methods", codes "Access-Control-Allow-Methods")
    ∷ (codes "access-control-allow-headers", codes "Access-Control-Allow-Headers")
    ∷ []

-- The first letter of each part between dashes in upper case.
unfoldable pub capitalize : Bool → Bytes → Bytes
capitalize upper [] = []
capitalize upper (c ∷ name) =
    let dashed = capitalize true name in
    let rest = capitalize false name in
    if c == b'-' then c ∷ dashed else (if upper then to_upper c else c) ∷ rest

-- The spelling of a name in lower case, without the blanks around it.
unfoldable pub spelling_of : Bytes → Bytes
spelling_of lower =
    let trimmed = trim_right (trim_left lower) in
    if is_empty trimmed then lower else elim (lookup trimmed known_headers) [
      | none ↦ capitalize true trimmed
      | some spelling ↦ spelling
    ]

unfoldable pub canonical_header_name : Bytes → Bytes
canonical_header_name name = spelling_of (to_lower_case name)

unfoldable pub set_header : Bytes → Bytes → HttpResponse → HttpResponse
set_header name value r = record r { headers = insert (canonical_header_name name) value r.headers }

unfoldable pub get_header : Bytes → HttpResponse → Bytes
get_header name r = or_empty (lookup (canonical_header_name name) r.headers)

unfoldable pub set_content_type : Bytes → HttpResponse → HttpResponse
set_content_type content_type r = set_header (codes "Content-Type") content_type r

-- std::to_string; a number has no more digits than its value and one.
unfoldable pub digits : ℕ → ℕ → Bytes
digits zero n = []
digits (suc fuel) n =
    let front = digits fuel (n / 10) in
    if ltb n 10 then (48 + n) ∷ [] else front ++ (48 + n % 10) ∷ []

abbrev pub to_text : ℕ → Bytes
to_text n = digits (suc n) n

unfoldable pub set_content_length : ℕ → HttpResponse → HttpResponse
set_content_length n r = set_header (codes "Content-Length") (to_text n) r

unfoldable pub set_body : Bytes → HttpResponse → HttpResponse
set_body body r = set_content_length (length body) (record r { body = body })

unfoldable pub set_json : Bytes → HttpResponse → HttpResponse
set_json json r = set_body json (set_content_type (codes "application/json; charset=utf-8") r)

unfoldable pub set_html : Bytes → HttpResponse → HttpResponse
set_html html r = set_body html (set_content_type (codes "text/html; charset=utf-8") r)

unfoldable pub set_text : Bytes → HttpResponse → HttpResponse
set_text text r = set_body text (set_content_type (codes "text/plain; charset=utf-8") r)

unfoldable pub header_text : Assoc Bytes Bytes → Bytes
header_text [] = []
header_text ((name, value) ∷ headers) = name ++ codes ": " ++ value ++ crlf ++ header_text headers

unfoldable pub to_string : Bool → HttpResponse → Bytes
to_string suppress_body r =
    codes "HTTP/1.1 "
    ++ to_text r.status_code
    ++ codes " "
    ++ r.reason_phrase
    ++ crlf
    ++ header_text r.headers
    ++ crlf
    ++ (if suppress_body then [] else r.body)
