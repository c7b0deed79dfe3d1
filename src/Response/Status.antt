-- ===== src/Response/Status.antt =====
-- src/http/HttpResponse.cpp: the status line's phrase, a new response, redirect, clear and setFile. The
-- clock behind the Date header and the content of a file are arguments.
use http_framework.Prelude.{
  ℕ, true, false, Option, none, some, [], ◌∷◌, ◌||◌, if◌then◌else◌, is_empty,
}
use http_framework.Prelude.Bytes.{Bytes, codes, same}
use http_framework.Prelude.Maps.{Assoc, lookup, num_eq}
use http_framework.Response.{HttpResponse, set_header, set_body, set_content_type, set_text}

abbrev pub reason_phrases : Assoc ℕ Bytes
reason_phrases =
    (200, codes "OK")
    ∷ (201, codes "Created")
    ∷ (202, codes "Accepted")
    ∷ (203, codes "Non-Authoritative Information")
    ∷ (204, codes "No Content")
    ∷ (205, codes "Reset Content")
    ∷ (206, codes "Partial Content")
    ∷ (300, codes "Multiple Choices")
    ∷ (301, codes "Moved Permanently")
    ∷ (302, codes "Found")
    ∷ (303, codes "See Other")
    ∷ (304, codes "Not Modified")
    ∷ (307, codes "Temporary Redirect")
    ∷ (308, codes "Permanent Redirect")
    ∷ (400, codes "Bad Request")
    ∷ (401, codes "Unauthorized")
    ∷ (402, codes "Payment Required")
    ∷ (403, codes "Forbidden")
    ∷ (404, codes "Not Found")
    ∷ (405, codes "Method Not Allowed")
    ∷ (406, codes "Not Acceptable")
    ∷ (408, codes "Request Timeout")
    ∷ (409, codes "Conflict")
    ∷ (410, codes "Gone")
    ∷ (411, codes "Length Required")
    ∷ (412, codes "Precondition Failed")
    ∷ (413, codes "Content Too Large")
    ∷ (414, codes "URI Too Long")
    ∷ (415, codes "Unsupported Media Type")
    ∷ (416, codes "Range Not Satisfiable")
    ∷ (418, codes "I'm a teapot")
    ∷ (422, codes "Unprocessable Content")
    ∷ (426, codes "Upgrade Required")
    ∷ (428, codes "Precondition Required")
    ∷ (429, codes "Too Many Requests")
    ∷ (431, codes "Request Header Fields Too Large")
    ∷ (500, codes "Internal Server Error")
    ∷ (501, codes "Not Implemented")
    ∷ (502, codes "Bad Gateway")
    ∷ (503, codes "Service Unavailable")
    ∷ (504, codes "Gateway Timeout")
    ∷ (505, codes "HTTP Version Not Supported")
    ∷ []

-- An unknown code has an empty phrase.
unfoldable pub get_reason_phrase : ℕ → Bytes
get_reason_phrase status_code = elim (lookup status_code reason_phrases) [
  | none ↦ []
  | some phrase ↦ phrase
]

-- setStatus(HttpStatus).
unfoldable pub set_status : ℕ → HttpResponse → HttpResponse
set_status status r = record r { status_code = status; reason_phrase = get_reason_phrase status }

-- setStatus(int, phrase).
unfoldable pub set_status_phrase : ℕ → Bytes → HttpResponse → HttpResponse
set_status_phrase status phrase r = record r {
  status_code = status;
  reason_phrase = if is_empty phrase then get_reason_phrase status else phrase;
}

abbrev pub mark_finalized : HttpResponse → HttpResponse
mark_finalized r = record r { sent = true }

unfoldable pub default_headers : Bytes → HttpResponse → HttpResponse
default_headers date r =
    set_header (codes "Date") date (set_header (codes "Server") (codes "HttpFramework/1.0") r)

-- The constructor.
unfoldable pub new_response : Bytes → HttpResponse
unfolding default_headers
new_response date = default_headers date (record {
  status_code = 200;
  reason_phrase = codes "OK";
  headers = [];
  body = [];
  sent = false;
})

-- clear().
unfoldable pub clear_response : Bytes → HttpResponse → HttpResponse
unfolding default_headers
clear_response date r = default_headers date (record r {
  status_code = 200;
  reason_phrase = codes "OK";
  headers = [];
  body = [];
  sent = false;
})

unfoldable pub redirect : Bytes → ℕ → HttpResponse → HttpResponse
unfolding set_status
redirect url status r = set_body [] (set_header (codes "Location") url (set_status status r))

unfoldable pub file_type : Bytes → Bytes
file_type extension =
    if same extension (codes ".html") || same extension (codes ".htm")
    then codes "text/html; charset=utf-8"
    else if same extension (codes ".css")
    then codes "text/css"
    else if same extension (codes ".js")
    then codes "application/javascript"
    else if same extension (codes ".json")
    then codes "application/json"
    else if same extension (codes ".png")
    then codes "image/png"
    else if same extension (codes ".jpg") || same extension (codes ".jpeg")
    then codes "image/jpeg"
    else if same extension (codes ".gif")
    then codes "image/gif"
    else if same extension (codes ".svg")
    then codes "image/svg+xml"
    else codes "application/octet-stream"

-- setFile: the extension of the path, and the file's content, or `none` where it cannot be opened.
unfoldable pub set_file : Bytes → Option Bytes → HttpResponse → HttpResponse
unfolding set_status file_type
set_file extension none r = set_text (codes "File not found") (set_status 404 r)
set_file extension (some content) r = set_body content (set_content_type (file_type extension) r)
