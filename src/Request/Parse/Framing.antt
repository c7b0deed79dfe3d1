-- ===== src/Request/Parse/Framing.antt =====
-- Which bytes of the buffer a request takes for itself.
use http_framework.Prelude.{
  ℕ, ◌+◌, ◌-◌, ◌%◌, ◌≤◌, ◌<◌, ◌≡◌, ◌≢◌, refl, ◌⊎◌, inl, inr, true, false, Option, none, some, List,
  [], ◌∷◌, ◌==◌, ltb, length, take, arith, Bool-cases, ltb-false→le, Option-cases,
}
use http_framework.Prelude.Bytes.{Bytes, codes, find_byte, search_for, search_for-length}
use http_framework.Prelude.Maps.{lookup, bytes_eq}
use http_framework.Request.Text.{u64_mod, getlines, words, strip_cr}
use http_framework.Request.Chunked.{
  complete, incomplete, malformed as malformed_chunk, too_large, Scan, scan_chunked_end, Decoded,
  decode_chunked_body,
}
use http_framework.Request.State.{HttpRequest, has_header}
use http_framework.Request.Parse.{
  Parsed, accepted, rejected, out_of_fuel, ◌>>=◌, set_target, request_words, parse_request_line,
  parse_header, parse_headers, header_lines, crlf_crlf, lf_lf, set_body_start, split_body,
  body_start, after_decode, after_scan, frame_chunked, content_length_value, cut_body,
  frame_content_length, is_chunked, frame_body, reset_flags, parse_lines, parse,
}

pub >>=-eq-accepted :
    (m : Parsed) (f : HttpRequest → Parsed) {r : HttpRequest}
    → (m >>= f) ≡ accepted r
    → (q : HttpRequest) × (m ≡ accepted q) × (f q ≡ accepted r)
>>=-eq-accepted (accepted q) f h = (q, refl, h)
>>=-eq-accepted (rejected q) f h = cc
>>=-eq-accepted out_of_fuel f h = cc

pub rejected-ne-accepted : {r q : HttpRequest} → rejected r ≢ accepted q
rejected-ne-accepted h = cc

-- Reading the head changes none of what the framing reads but the headers.
pub record SameFrame (q r : HttpRequest) : Type 0 where
  pub max_body_size : q.max_body_size ≡ r.max_body_size
  pub raw_request : q.raw_request ≡ r.raw_request

abbrev pub Keeps : HttpRequest → Parsed → Type 0
Keeps r (accepted q) = SameFrame q r
Keeps r (rejected q) = Unit
Keeps r out_of_fuel = ⊥

set_target-SameFrame : (r : HttpRequest) (target : Bytes) → SameFrame (set_target r target) r
unfolding set_target
set_target-SameFrame r target = ground arith

request_words-Keeps : (r : HttpRequest) (ws : List Bytes) → Keeps r (request_words r ws)
unfolding request_words
request_words-Keeps r (m ∷ t ∷ v ∷ more) = ground (arith, set_target-SameFrame _ t)
request_words-Keeps r (m ∷ t ∷ []) = tt
request_words-Keeps r (m ∷ []) = tt
request_words-Keeps r [] = tt

parse_header-Keeps : (r : HttpRequest) (line : Bytes) → Keeps r (parse_header r line)
unfolding parse_header
parse_header-Keeps r line = elim (Option-cases (find_byte b':' line)) [
  | inl missing ↦ rw (missing, parse_header) tt
  | inr (colon, found) ↦ rw (found, parse_header) (ground arith)
]

Keeps-trans : (r q : HttpRequest) (m : Parsed) → SameFrame q r → Keeps q m → Keeps r m
Keeps-trans r q (accepted p) h k = ground arith
Keeps-trans r q (rejected p) h k = tt
Keeps-trans r q out_of_fuel h k = k

Keeps-bind :
    (r : HttpRequest) (m : Parsed) (f : HttpRequest → Parsed)
    → Keeps r m
    → ((q : HttpRequest) → Keeps q (f q))
    → Keeps r (m >>= f)
Keeps-bind r (accepted q) f h k = Keeps-trans r q (f q) h (k q)
Keeps-bind r (rejected q) f h k = tt
Keeps-bind r out_of_fuel f h k = h

parse_headers-Keeps : (r : HttpRequest) (lines : List Bytes) → Keeps r (parse_headers r lines)
unfolding parse_headers
parse_headers-Keeps r [] = record { max_body_size = refl; raw_request = refl }
parse_headers-Keeps r (line ∷ lines) =
    Keeps-bind r (parse_header r line) _ (parse_header-Keeps r line)
      (λ q. parse_headers-Keeps q lines)

parse_request_line-Keeps : (r : HttpRequest) (line : Bytes) → Keeps r (parse_request_line r line)
unfolding parse_request_line
parse_request_line-Keeps r line = request_words-Keeps r (words line)

pub parse_lines-Keeps : (r : HttpRequest) (lines : List Bytes) → Keeps r (parse_lines r lines)
unfolding parse_lines
parse_lines-Keeps r [] = tt
parse_lines-Keeps r (line ∷ lines) =
    Keeps-bind r (parse_request_line r (strip_cr line)) _
      (parse_request_line-Keeps r (strip_cr line)) (λ q. parse_headers-Keeps q (header_lines lines))

-- Where the head ends: at the first CRLF CRLF, or at the first LF LF if there is no CRLF CRLF.
abbrev pub HeadEnd : Bytes → ℕ → ℕ → Type 0
HeadEnd raw k sep =
    ((search_for crlf_crlf raw ≡ some k) × (sep ≡ 4))
    ⊎ ((search_for crlf_crlf raw ≡ none) × (search_for lf_lf raw ≡ some k) × (sep ≡ 2))

pub split_body-accepted :
    (r q : HttpRequest) (raw : Bytes)
    → split_body r raw ≡ accepted q
    → (k : ℕ) × (sep : ℕ) × (q ≡ set_body_start r raw k sep) × HeadEnd raw k sep
unfolding split_body
split_body-accepted r q raw h = elim (Option-cases (search_for crlf_crlf raw)) [
  | inl no_crlf ↦ elim (Option-cases (search_for lf_lf raw)) [
    | inl no_lf ↦ absurd (ground arith)
    | inr (k, found) ↦ (k, 2, ground arith, inr (no_crlf, found, refl))
  ]
  | inr (k, found) ↦ (k, 4, ground arith, inl (found, refl))
]

pub HeadEnd-inside :
    (raw : Bytes) (k sep : ℕ) → HeadEnd raw k sep → (0 < sep) × (k + sep ≤ length raw)
HeadEnd-inside raw k sep (inl (found, e)) =
    let n = search_for-length crlf_crlf raw k found in (omega arith, omega arith)
HeadEnd-inside raw k sep (inr (_, found, e)) =
    let n = search_for-length lf_lf raw k found in (omega arith, omega arith)

-- The body cut at `n` bytes.
abbrev pub cut_at : HttpRequest → ℕ → HttpRequest
cut_at r n = record r { content_length = n; body = take n r.body; body_consumed = n }

cut_body-accepted :
    (r q : HttpRequest)
    → cut_body r ≡ accepted q
    → (q ≡ cut_at r r.content_length) × (r.content_length ≤ length r.body)
unfolding cut_body
cut_body-accepted r q h = elim (Bool-cases (r.content_length == 0)) [
  | inl none_sent ↦
      let z : r.content_length ≡ 0 = ground arith in
      let e : [] ≡ take r.content_length r.body = rw z refl in (ground (arith, e), omega arith)
  | inr some_sent ↦ ground arith
]

-- A length header, where there is one, gives the length; without one it is 0.
abbrev pub LengthHeader : HttpRequest → ℕ → Type 0
LengthHeader r n =
    ((lookup (codes "content-length") r.headers ≡ none) × (n ≡ 0))
    ⊎ ((value : Bytes) × (lookup (codes "content-length") r.headers ≡ some value)
        × (content_length_value value ≡ some n)
        × (n ≤ r.max_body_size))

pub frame_content_length-accepted :
    (r q : HttpRequest)
    → frame_content_length r ≡ accepted q
    → (n : ℕ) × (q ≡ cut_at (record r { content_length_valid = true }) n)
      × (n ≤ length r.body)
      × LengthHeader r n
unfolding frame_content_length
frame_content_length-accepted r q h =
    elim (Option-cases (lookup (codes "content-length") r.headers)) [
      | inl absent ↦
          let c =
            cut_body-accepted (record r { content_length = 0; content_length_valid = true }) q
              (rw (absent, frame_content_length) at h) in
          (0, c.0, c.1, inl (absent, refl))
      | inr (value, present) ↦ elim (Option-cases (content_length_value value)) [
        | inl bad ↦ absurd (ground arith)
        | inr (n, good) ↦ elim (Bool-cases (ltb r.max_body_size n)) [
          | inl over ↦ absurd (ground arith)
          | inr within ↦
              let c =
                cut_body-accepted (record r { content_length = n; content_length_valid = true }) q
                  (ground arith) in
              (n, c.0, c.1, inr (value, present, good, ltb-false→le r.max_body_size n within))
        ]
      ]
    ]

-- An accepted chunked request: the message has arrived, and its body is decoded.
pub record ByChunks (r q : HttpRequest) (raw : Bytes) : Type 0 where
  pub end : ℕ
  pub decoded : Bytes
  pub scanned : scan_chunked_end r.max_body_size raw (body_start r) ≡ some (complete, end)
  pub decodes : decode_chunked_body r.max_body_size r.body ≡ some (some decoded)
  pub result :
      q ≡ record r { body_consumed = (end + u64_mod - body_start r) % u64_mod; body = decoded }

after_decode-accepted :
    (r q : HttpRequest) (d : Option Decoded)
    → after_decode r d ≡ accepted q
    → (decoded : Bytes) × (d ≡ some (some decoded)) × (q ≡ record r { body = decoded })
unfolding after_decode
after_decode-accepted r q none h = absurd (ground arith)
after_decode-accepted r q (some none) h = absurd (ground arith)
after_decode-accepted r q (some (some decoded)) h = (decoded, refl, ground arith)

pub frame_chunked-accepted :
    (r q : HttpRequest) (raw : Bytes) → frame_chunked r raw ≡ accepted q → ByChunks r q raw
unfolding frame_chunked after_scan
frame_chunked-accepted r q raw h = go (scan_chunked_end r.max_body_size raw (body_start r)) refl
  where
    go :
        (o : Option Scan)
        → scan_chunked_end r.max_body_size raw (body_start r) ≡ o
        → ByChunks r q raw
    go none e = absurd (ground arith)
    go (some (malformed_chunk, end)) e = absurd (ground arith)
    go (some (too_large, end)) e = absurd (ground arith)
    go (some (incomplete, end)) e = absurd (ground arith)
    go (some (complete, end)) e =
        let (decoded, decodes, result) =
          after_decode-accepted
            (record r { body_consumed = (end + u64_mod - body_start r) % u64_mod }) q
            (decode_chunked_body r.max_body_size r.body) (rw (e, frame_chunked) at h) in
        record { end = end; decoded = decoded; scanned = e; decodes = decodes; result = result }

-- What an accepted request went through: the head, the split, and one of the two framings.
pub record IsParse (r0 q : HttpRequest) (raw : Bytes) : Type 0 where
  pub read : HttpRequest
  pub split : HttpRequest
  pub head : parse_lines (reset_flags r0 raw) (getlines 10 raw) ≡ accepted read
  pub end : ℕ
  pub sep_len : ℕ
  pub split_eq : split ≡ set_body_start read raw end sep_len
  pub head_end : HeadEnd raw end sep_len
  pub framed :
      ((is_chunked split ≡ true)
        × (has_header split (codes "content-length") ≡ false)
        × ByChunks split q raw)
      ⊎ ((is_chunked split ≡ false) × (frame_content_length split ≡ accepted q))

frame_body-accepted :
    (r q : HttpRequest) (raw : Bytes)
    → frame_body r raw ≡ accepted q
    → ((is_chunked r ≡ true) × (has_header r (codes "content-length") ≡ false) × ByChunks r q raw)
      ⊎ ((is_chunked r ≡ false) × (frame_content_length r ≡ accepted q))
unfolding frame_body
frame_body-accepted r q raw h = elim (Bool-cases (is_chunked r)) [
  | inl chunked ↦ elim (Bool-cases (has_header r (codes "content-length"))) [
    | inl both ↦ absurd (rejected-ne-accepted (rw (chunked, both) at h))
    | inr alone ↦ inl (chunked, alone, frame_chunked-accepted r q raw (rw (chunked, alone) at h))
  ]
  | inr plain ↦ inr (plain, (rw plain at h))
]

pub parse-IsParse :
    (r0 q : HttpRequest) (raw : Bytes) → parse r0 raw ≡ accepted q → IsParse r0 q raw
unfolding parse
parse-IsParse r0 q raw h =
    let (read, reads, rest) =
      >>=-eq-accepted (parse_lines (reset_flags r0 raw) (getlines 10 raw))
        (λ r. split_body r raw >>= λ s. frame_body s raw) h in
    let (split, splits, framed) =
      >>=-eq-accepted (split_body read raw) (λ s. frame_body s raw) rest in
    let (k, sep, e, at) = split_body-accepted read split raw splits in
    record {
      read = read;
      split = split;
      head = reads;
      end = k;
      sep_len = sep;
      split_eq = e;
      head_end = at;
      framed = frame_body-accepted split q raw framed;
    }
