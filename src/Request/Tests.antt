-- ===== src/Request/Tests.antt =====
-- Runs of the parser, and its theorems at requests that meet their hypotheses.
use http_framework.Prelude.{
  ◌+◌, ◌≤◌, ◌<◌, ◌≡◌, ◌≢◌, refl, true, false, some, [], ◌∷◌, ◌++◌, length, arith,
}
use http_framework.Prelude.Bytes.{
  Bytes, codes, crlf, same, search_for, find, find_byte, starts_with,
}
use http_framework.Prelude.Maps.{lookup, insert}
use http_framework.Request.Text.{hex_number}
use http_framework.Request.Chunked.{
  Scan, chunk_size, scan_chunked_end, decode_chunked_body, complete,
}
use http_framework.Request.Chunked.Termination.{scan_chunked_end-total}
use http_framework.Request.Chunked.Render.{Chunk, IsChunk, payloads, render, render_trailer}
use http_framework.Request.Chunked.RoundTrip.{scan_chunked_end-render, decode_chunked_body-render}
use http_framework.Request.Url.{url_decode}
use http_framework.Request.Url.Laws.{
  slashes, slashes-url_decode, percent_encode, url_decode-percent_encode,
}
use http_framework.Request.State.{HttpRequest, new_request, get_query}
use http_framework.Request.Parse.{Parsed, accepted, rejected, out_of_fuel, parse, body_start}
use http_framework.Request.Parse.Bounds.{parse_bounds}
use http_framework.Request.Parse.Totality.{parse-ends}
use http_framework.Request.Parse.Stability.{extended, parse-append}

run : Unit {0}
unfolding parse new_request same search_for find find_byte starts_with lookup insert
    scan_chunked_end chunk_size hex_number decode_chunked_body
run = tt

post_bytes : Bytes
post_bytes =
    codes "POST /a%20b?x=1 HTTP/1.1"
    ++ crlf
    ++ codes "Content-Length: 3"
    ++ crlf
    ++ crlf
    ++ codes "abc"

abbrev chunked_bytes : Bytes
chunked_bytes =
    codes "POST /c HTTP/1.1"
    ++ crlf
    ++ codes "Transfer-Encoding: chunked"
    ++ crlf
    ++ crlf
    ++ codes "2;ext"
    ++ crlf
    ++ codes "hi"
    ++ crlf
    ++ codes "0"
    ++ crlf
    ++ crlf

abbrev get_bytes : Bytes
get_bytes = codes "GET / HTTP/1.1" ++ crlf ++ crlf

abbrev request_of : Parsed → HttpRequest
request_of (accepted q) = q
request_of (rejected q) = q
request_of out_of_fuel = new_request

abbrev post_request : HttpRequest
post_request = request_of (parse new_request post_bytes)

post_accepted : parse new_request post_bytes ≡ accepted post_request
unfolding run post_bytes get_query
post_accepted = refl

post_path :
    (post_request.path ≡ codes "/a b")
    × (post_request.body ≡ codes "abc")
    × (get_query post_request (codes "x") ≡ codes "1")
unfolding run post_bytes get_query
post_path = (refl, refl, refl)

parse-append_example :
    parse new_request (post_bytes ++ get_bytes)
    ≡ accepted (extended post_request (post_bytes ++ get_bytes) get_bytes)
unfolding run post_bytes get_query
parse-append_example =
    parse-append new_request post_request post_bytes get_bytes (omega arith) refl post_accepted

parse_bounds_example :
    (0 < body_start post_request + post_request.body_consumed)
    × (body_start post_request + post_request.body_consumed ≤ length post_bytes)
unfolding run post_bytes
parse_bounds_example = parse_bounds new_request post_request post_bytes (omega arith) post_accepted

abbrev chunked_request : HttpRequest
chunked_request = request_of (parse new_request chunked_bytes)

chunked_body : chunked_request.body ≡ codes "hi"
unfolding run
chunked_body = refl

parse-ends_example : parse new_request get_bytes ≢ out_of_fuel
unfolding run
parse-ends_example = parse-ends new_request get_bytes (omega arith)

scan_chunked_end-total_example : (r : Scan) × (scan_chunked_end 100 chunked_bytes 0 ≡ some r)
scan_chunked_end-total_example = scan_chunked_end-total 100 chunked_bytes 0 (omega arith)

abbrev hi_chunk : Chunk
hi_chunk = record { line = codes "2;ext"; payload = codes "hi" }

hi_chunk-IsChunk : IsChunk hi_chunk
unfolding chunk_size find_byte hex_number
hi_chunk-IsChunk = record { no_cr = omega arith; sized = refl; pos_size = omega arith }

last_chunk : chunk_size (codes "0") ≡ some 0
unfolding chunk_size find_byte hex_number
last_chunk = refl

scan_chunked_end-render_example :
    scan_chunked_end 100
      (get_bytes ++ render (hi_chunk ∷ []) (codes "0" ++ 13 ∷ 10 ∷ render_trailer [] get_bytes))
      (length get_bytes)
    ≡ some (complete, 34)
unfolding render render_trailer payloads
scan_chunked_end-render_example =
    scan_chunked_end-render 100 (codes "0") (omega arith) last_chunk (hi_chunk ∷ []) [] get_bytes
      get_bytes (hi_chunk-IsChunk, tt) tt (omega arith) (omega arith) (omega arith)

decode_chunked_body-render_example :
    decode_chunked_body 100
      (render (hi_chunk ∷ []) (codes "0" ++ 13 ∷ 10 ∷ render_trailer [] get_bytes))
    ≡ some (some (payloads (hi_chunk ∷ [])))
unfolding render render_trailer payloads
decode_chunked_body-render_example =
    decode_chunked_body-render 100 (codes "0") (omega arith) last_chunk (hi_chunk ∷ []) [] get_bytes
      (hi_chunk-IsChunk, tt) (omega arith) (omega arith)

slashes-url_decode_example :
    slashes (url_decode true false (codes "/a%2Fb/%41")) ≡ slashes (codes "/a%2Fb/%41")
slashes-url_decode_example = slashes-url_decode false (codes "/a%2Fb/%41")

url_decode-percent_encode_example :
    url_decode false true (percent_encode (codes "a+b/")) ≡ codes "a+b/"
url_decode-percent_encode_example = url_decode-percent_encode true (codes "a+b/") (omega arith)

-- A size of 2^64 - 1 behind one byte of data: the sum of the sizes wraps to 0, below the limit.
abbrev wrapping_bytes : Bytes
wrapping_bytes =
    codes "1"
    ++ crlf
    ++ codes "X"
    ++ crlf
    ++ codes "ffffffffffffffff"
    ++ crlf
    ++ codes "A0"
    ++ crlf
    ++ crlf

wrapping_size : scan_chunked_end 100 wrapping_bytes 0 ≡ some (complete, 30)
unfolding run
wrapping_size = refl

-- Two NUL bytes behind `%` pass for hexadecimal digits.
nul_escape : url_decode true false (37 ∷ 0 ∷ 0 ∷ []) ≡ 255 ∷ []
unfolding url_decode
nul_escape = refl

-- A head that ends in LF LF, with CRLF CRLF further on: the second request is taken into the first.
lf_bytes : Bytes
lf_bytes = codes "GET / HTTP/1.1" ++ 10 ∷ 10 ∷ get_bytes

lf_head_alone :
    (request_of (parse new_request (codes "GET / HTTP/1.1" ++ 10 ∷ 10 ∷ []))).header_end ≡ 14
unfolding run
lf_head_alone = refl

lf_head_swallows : (request_of (parse new_request lf_bytes)).header_end ≡ 30
unfolding run lf_bytes
lf_head_swallows = refl
