-- ===== src/Request/Parse.antt =====
-- src/http/HttpRequest.cpp: parse, parseRequestLine and parseHeaders. `parse` fills the request in
-- place, so each step returns the request with the outcome; `out_of_fuel` stands for a chunk loop
-- that does not end.
pub mod Framing
pub mod Bounds
pub mod Head
pub mod Stability
pub mod Totality
use http_framework.Prelude.{
  ℕ, ◌+◌, ◌-◌, ◌%◌, ◌≡◌, Bool, true, false, ◌&&◌, not, Option, none, some, List, [], ◌∷◌, ◌==◌, ltb,
  if◌then◌else◌, length, is_empty, all, take, drop,
}
use http_framework.Prelude.Bytes.{Bytes, codes, find_byte, search_for, starts_with, crlf}
use http_framework.Prelude.Maps.{lookup, insert, bytes_eq}
use http_framework.Request.Text.{
  u64_mod, is_digit, getlines, strip_cr, words, trim_left, trim_right, to_lower_case, stoull,
}
use http_framework.Request.Chunked.{
  ChunkScanResult, complete, incomplete, malformed as malformed_chunk, too_large, Scan,
  scan_chunked_end, Decoded, decode_chunked_body,
}
use http_framework.Request.Url.{url_decode, parse_query_params}
use http_framework.Request.State.{HttpRequest, get_header, has_header, string_to_method}

pub data Parsed : Type 0 where
  accepted : HttpRequest → Parsed
  rejected : HttpRequest → Parsed
  out_of_fuel : Parsed

infixl 5 ◌>>=◌
abbrev pub ◌>>=◌ : Parsed → (HttpRequest → Parsed) → Parsed
accepted r >>= next = next r
rejected r >>= next = rejected r
out_of_fuel >>= next = out_of_fuel

-- `malformed_ = true; return false;`
abbrev pub reject_malformed : HttpRequest → Parsed
reject_malformed r = rejected (record r { malformed = true })

-- "HTTP/" DIGIT "." DIGIT.
abbrev pub version_digits : Bytes → Bool
version_digits (a ∷ b ∷ c ∷ []) = is_digit a && b == b'.' && is_digit c
version_digits _ = false

unfoldable pub version_ok : Bytes → Bool
unfolding starts_with
version_ok version = starts_with (codes "HTTP/") version && version_digits (drop 5 version)

-- The path is decoded with %2F kept and `+` taken literally; a query follows the first `?`.
unfoldable pub set_target : HttpRequest → Bytes → HttpRequest
unfolding url_decode parse_query_params
set_target r target = elim (find_byte b'?' target) [
  | none ↦ record r { path = url_decode true false target }
  | some query_pos ↦ record r {
    path = url_decode true false (take query_pos target);
    queries = parse_query_params r.queries (drop (query_pos + 1) target);
  }
]

unfoldable pub request_words : HttpRequest → List Bytes → Parsed
unfolding version_ok set_target string_to_method
request_words r (method ∷ target ∷ version ∷ more) =
    if version_ok version
    then accepted (
        set_target
          (record r { method = string_to_method method; method_string = method; version = version })
          target)
    else reject_malformed r
request_words r _ = reject_malformed r

unfoldable pub parse_request_line : HttpRequest → Bytes → Parsed
unfolding request_words words
parse_request_line r line = request_words r (words line)

unfoldable pub parse_header : HttpRequest → Bytes → Parsed
unfolding trim_left trim_right to_lower_case insert
parse_header r line = elim (find_byte b':' line) [
  | none ↦ reject_malformed r
  | some colon_pos ↦
      let name = trim_left (take colon_pos line) in
      let value = trim_right (trim_left (drop (colon_pos + 1) line)) in
      if is_empty name
      then reject_malformed r
      else accepted
          (record r { headers = insert (to_lower_case (trim_right name)) value r.headers })
]

unfoldable pub parse_headers : HttpRequest → List Bytes → Parsed
unfolding parse_header
parse_headers r [] = accepted r
parse_headers r (line ∷ lines) = parse_header r line >>= λ r'. parse_headers r' lines

-- The loop that collects the header lines: up to the first line that is empty without its '\r'.
unfoldable pub header_lines : List Bytes → List Bytes
unfolding strip_cr
header_lines [] = []
header_lines (line ∷ lines) =
    let rest = header_lines lines in if is_empty (strip_cr line) then [] else strip_cr line ∷ rest

abbrev pub crlf_crlf : Bytes
crlf_crlf = 13 ∷ 10 ∷ 13 ∷ 10 ∷ []

abbrev pub lf_lf : Bytes
lf_lf = 10 ∷ 10 ∷ []

abbrev pub set_body_start : HttpRequest → Bytes → ℕ → ℕ → HttpRequest
set_body_start r raw header_end sep_len = record r {
  header_end = header_end;
  header_end_sep_len = sep_len;
  body = drop (header_end + sep_len) raw;
  raw_body_size = length (drop (header_end + sep_len) raw);
  body_consumed = 0;
}

-- Where the body starts: behind the first CRLF CRLF of the buffer, else behind the first LF LF.
unfoldable pub split_body : HttpRequest → Bytes → Parsed
split_body r raw = elim (search_for crlf_crlf raw) [
  | some header_end ↦ accepted (set_body_start r raw header_end 4)
  | none ↦ elim (search_for lf_lf raw) [
    | some header_end ↦ accepted (set_body_start r raw header_end 2)
    | none ↦ rejected r
  ]
]

abbrev pub body_start : HttpRequest → ℕ
body_start r = r.header_end + r.header_end_sep_len

unfoldable pub after_decode : HttpRequest → Option Decoded → Parsed
after_decode r none = out_of_fuel
after_decode r (some none) = reject_malformed r
after_decode r (some (some decoded)) = accepted (record r { body = decoded })

unfoldable pub after_scan : HttpRequest → Option Scan → Parsed
unfolding after_decode
after_scan r none = out_of_fuel
after_scan r (some (malformed_chunk, end)) =
    rejected (record r { malformed = true; body = []; body_consumed = 0 })
after_scan r (some (too_large, end)) =
    rejected (record r { body_too_large = true; body = []; body_consumed = 0 })
after_scan r (some (incomplete, end)) = rejected r
after_scan r (some (complete, end)) =
    after_decode (record r { body_consumed = (end + u64_mod - body_start r) % u64_mod })
      (decode_chunked_body r.max_body_size r.body)

unfoldable pub frame_chunked : HttpRequest → Bytes → Parsed
unfolding after_scan
frame_chunked r raw = after_scan r (scan_chunked_end r.max_body_size raw (body_start r))

-- The header's value: decimal digits between blanks, below 2^64.
unfoldable pub content_length_value : Bytes → Option ℕ
unfolding trim_left trim_right stoull
content_length_value value =
    let digits = trim_right (trim_left value) in
    if is_empty (trim_left value)
    then none
    else if not (is_empty digits) && all is_digit digits
    then stoull digits
    else none

-- The body is cut at Content-Length; what follows is the next request's.
unfoldable pub cut_body : HttpRequest → Parsed
cut_body r =
    if r.content_length == 0
    then accepted (record r { body = []; body_consumed = 0 })
    else if ltb (length r.body) r.content_length
    then rejected r
    else accepted
        (record r { body = take r.content_length r.body; body_consumed = r.content_length })

unfoldable pub frame_content_length : HttpRequest → Parsed
unfolding content_length_value cut_body
frame_content_length r0 =
    let r = record r0 { content_length = 0; content_length_valid = true } in
    elim (lookup (codes "content-length") r0.headers) [
      | none ↦ cut_body r
      | some value ↦ elim (content_length_value value) [
        | none ↦ rejected (record r { content_length_valid = false; body = []; body_consumed = 0 })
        | some n ↦
            if ltb r0.max_body_size n
            then rejected (record r {
              content_length = n;
              body_too_large = true;
              body = [];
              body_consumed = 0;
            })
            else cut_body (record r { content_length = n })
      ]
    ]

unfoldable pub contains_text : Bytes → Bytes → Bool
contains_text needle s = elim (search_for needle s) [ none ↦ false | some k ↦ true ]

unfoldable pub is_chunked : HttpRequest → Bool
unfolding contains_text get_header
is_chunked r = contains_text (codes "chunked") (get_header r (codes "transfer-encoding"))

unfoldable pub frame_body : HttpRequest → Bytes → Parsed
unfolding is_chunked has_header frame_chunked frame_content_length
frame_body r raw =
    if is_chunked r
    then (if has_header r (codes "content-length")
        then rejected (record r { conflicting_framing = true; body = []; body_consumed = 0 })
        else frame_chunked r raw)
    else frame_content_length r

-- The members that `parse` resets before it reads; the others keep what they held.
unfoldable pub reset_flags : HttpRequest → Bytes → HttpRequest
reset_flags r raw = record r {
  raw_request = raw;
  content_length_valid = true;
  content_length = 0;
  body_consumed = 0;
  raw_body_size = 0;
  conflicting_framing = false;
  body_too_large = false;
  malformed = false;
}

unfoldable pub parse_lines : HttpRequest → List Bytes → Parsed
unfolding parse_request_line parse_headers header_lines strip_cr
parse_lines r [] = rejected r
parse_lines r (line ∷ lines) =
    parse_request_line r (strip_cr line) >>= λ r'. parse_headers r' (header_lines lines)

unfoldable pub parse : HttpRequest → Bytes → Parsed
unfolding reset_flags parse_lines getlines split_body frame_body
parse r raw = do
  read ← parse_lines (reset_flags r raw) (getlines 10 raw)
  split ← split_body read raw
  frame_body split raw
