-- ===== src/Request/Parse/Stability.antt =====
-- A request that has arrived whole is parsed the same way when the next one is already behind it.
use http_framework.Prelude.{
  ℕ, ◌+◌, ◌<◌, ◌≡◌, refl, sym, ◌∙◌, ap, ◌⊎◌, inl, inr, true, false, some, ◌++◌, ltb, length, drop,
  arith, length-append, take-append_of_le, drop-append_of_le, Bool-cases, Option-cases,
}
use http_framework.Prelude.Bytes.{Bytes, codes, search_for, search_for-append, search_for-length}
use http_framework.Prelude.Maps.{lookup, bytes_eq}
use http_framework.Request.Text.{u64_mod, getlines}
use http_framework.Request.Chunked.{decode_chunked_body}
use http_framework.Request.Chunked.Stability.{scan_chunked_end-append, decode_chunked_body-append}
use http_framework.Request.State.{HttpRequest, has_header}
use http_framework.Request.Parse.{
  accepted, ◌>>=◌, body_start, set_body_start, split_body, cut_body, content_length_value,
  frame_content_length, frame_chunked, is_chunked, frame_body, crlf_crlf, reset_flags, parse_lines,
  parse,
}
use http_framework.Request.Parse.Framing.{
  IsParse, parse-IsParse, ByChunks, frame_content_length-accepted,
}
use http_framework.Request.Parse.Bounds.{split_start, split_body_eq, split_limit}
use http_framework.Request.Parse.Head.{parse_lines-append, parse_lines-raw, with_raw, map_raw}

-- The same state over a longer buffer.
abbrev longer : HttpRequest → Bytes → Bytes → HttpRequest
longer s big more = record s {
  raw_request = big;
  body = s.body ++ more;
  raw_body_size = s.raw_body_size + length more;
}

-- The same request, but for the copy of the buffer and the size of what followed the head.
abbrev pub extended : HttpRequest → Bytes → Bytes → HttpRequest
extended q big more = record q { raw_request = big; raw_body_size = q.raw_body_size + length more }

cut_body-longer :
    (s q : HttpRequest) (big more : Bytes)
    → cut_body s ≡ accepted q
    → cut_body (longer s big more) ≡ accepted (extended q big more)
unfolding cut_body
cut_body-longer s q big more h =
    ground (arith, length-append s.body more, take-append_of_le s.content_length s.body more)

frame_content_length-longer :
    (s q : HttpRequest) (big more : Bytes)
    → frame_content_length s ≡ accepted q
    → frame_content_length (longer s big more) ≡ accepted (extended q big more)
unfolding frame_content_length
frame_content_length-longer s q big more h =
    elim (Option-cases (lookup (codes "content-length") s.headers)) [
      | inl absent ↦
          rw (absent, frame_content_length)
            (cut_body-longer (record s { content_length = 0; content_length_valid = true }) q big
              more (rw (absent, frame_content_length) at h))
      | inr (value, present) ↦ elim (Option-cases (content_length_value value)) [
        | inl bad ↦ absurd (ground arith)
        | inr (n, good) ↦ elim (Bool-cases (ltb s.max_body_size n)) [
          | inl over ↦ absurd (ground arith)
          | inr within ↦
              let c =
                cut_body-longer (record s { content_length = n; content_length_valid = true }) q big
                  more (ground arith) in
              rw (present, frame_content_length) (rw good (rw within c))
        ]
      ]
    ]

frame_chunked-longer :
    (s q : HttpRequest) (raw more : Bytes)
    → length (raw ++ more) + s.max_body_size + 4 < u64_mod
    → s.body ≡ drop (body_start s) raw
    → ByChunks s q raw
    → frame_chunked (longer s (raw ++ more) more) (raw ++ more)
      ≡ accepted (extended q (raw ++ more) more)
unfolding frame_chunked
frame_chunked-longer s q raw more w body c =
    let scanned = scan_chunked_end-append s.max_body_size raw more (body_start s) c.end c.scanned in
    let decodes : decode_chunked_body s.max_body_size (s.body ++ more) ≡ some (some c.decoded) =
      rw body (
        decode_chunked_body-append s.max_body_size raw more (body_start s) w c.end c.decoded
          c.scanned (rw body at c.decodes)) in
    rw (scanned, frame_chunked) (rw decodes (ground (arith, c.result)))

has_header-longer :
    (s : HttpRequest) (big more : Bytes)
    → (is_chunked (longer s big more) ≡ is_chunked s)
      × (has_header (longer s big more) (codes "content-length")
          ≡ has_header s (codes "content-length"))
unfolding is_chunked has_header
has_header-longer s big more = (refl, refl)

frame_body-longer :
    (s q : HttpRequest) (raw more : Bytes)
    → length (raw ++ more) + s.max_body_size + 4 < u64_mod
    → s.body ≡ drop (body_start s) raw
    → ((is_chunked s ≡ true) × (has_header s (codes "content-length") ≡ false) × ByChunks s q raw)
      ⊎ ((is_chunked s ≡ false) × (frame_content_length s ≡ accepted q))
    → frame_body (longer s (raw ++ more) more) (raw ++ more)
      ≡ accepted (extended q (raw ++ more) more)
unfolding frame_body
frame_body-longer s q raw more w body (inl (chunked, alone, c)) =
    let (a, b) = has_header-longer s (raw ++ more) more in
    rw (a, chunked, b, alone) (frame_chunked-longer s q raw more w body c)
frame_body-longer s q raw more w body (inr (plain, f)) =
    let (a, _) = has_header-longer s (raw ++ more) more in
    rw (a, plain) (frame_content_length-longer s q (raw ++ more) more f)

read-longer :
    (r read : HttpRequest) (raw more : Bytes) (k : ℕ)
    → search_for crlf_crlf raw ≡ some k
    → parse_lines (reset_flags r raw) (getlines 10 raw) ≡ accepted read
    → parse_lines (reset_flags r (raw ++ more)) (getlines 10 (raw ++ more))
      ≡ accepted (with_raw read (raw ++ more))
unfolding reset_flags
read-longer r read raw more k found h =
    parse_lines-raw (reset_flags r raw) (getlines 10 (raw ++ more)) (raw ++ more)
    ∙ ap (λ m. map_raw m (raw ++ more))
        (parse_lines-append (reset_flags r raw) raw more k found ∙ h)

split_body-longer :
    (read : HttpRequest) (raw more : Bytes) (k : ℕ)
    → search_for crlf_crlf raw ≡ some k
    → split_body (with_raw read (raw ++ more)) (raw ++ more)
      ≡ accepted (longer (set_body_start read raw k 4) (raw ++ more) more)
unfolding split_body
split_body-longer read raw more k found =
    let inside = search_for-length crlf_crlf raw k found in
    let body = drop-append_of_le (k + 4) raw more (omega arith) in
    rw (search_for-append crlf_crlf raw more k found, split_body)
      (ground (arith, body, length-append (drop (k + 4) raw) more))

sep_len_eq :
    (r q : HttpRequest) (raw : Bytes) (p : IsParse r q raw) → q.header_end_sep_len ≡ p.sep_len
sep_len_eq r q raw p =
    let split : p.split.header_end_sep_len ≡ p.sep_len =
      ap (λ s. s.header_end_sep_len) p.split_eq in
    elim p.framed [
      | inl (_, _, c) ↦ ap (λ s. s.header_end_sep_len) c.result ∙ split
      | inr (_, f) ↦
          let (n, e, _, _) = frame_content_length-accepted p.split q f in
          ap (λ s. s.header_end_sep_len) e ∙ split
    ]

crlf_end :
    (r q : HttpRequest) (raw : Bytes) (p : IsParse r q raw)
    → q.header_end_sep_len ≡ 4
    → (search_for crlf_crlf raw ≡ some p.end) × (p.sep_len ≡ 4)
crlf_end r q raw p h =
    let e = sep_len_eq r q raw p in
    elim p.head_end [ inl (found, four) ↦ (found, four) | inr (_, _, two) ↦ absurd (omega arith) ]

by_parts :
    (r read split q : HttpRequest) (raw : Bytes)
    → parse_lines (reset_flags r raw) (getlines 10 raw) ≡ accepted read
    → split_body read raw ≡ accepted split
    → frame_body split raw ≡ accepted q
    → parse r raw ≡ accepted q
unfolding parse
by_parts r read split q raw a b c =
    ap (λ m. m >>= λ x. split_body x raw >>= λ s. frame_body s raw) a
    ∙ ap (λ m. m >>= λ s. frame_body s raw) b
    ∙ c

-- While the longer buffer and the limit stay four bytes below 2^64, a request whose head ends in
-- CRLF CRLF and that was accepted is accepted from the longer buffer as well, with the same method,
-- path, headers, body and length: the bytes behind it change nothing but the copy of the buffer and
-- the recorded size of what follows the head.
pub parse-append :
    (r q : HttpRequest) (raw more : Bytes)
    → length (raw ++ more) + r.max_body_size + 4 < u64_mod
    → q.header_end_sep_len ≡ 4
    → parse r raw ≡ accepted q
    → parse r (raw ++ more) ≡ accepted (extended q (raw ++ more) more)
parse-append r q raw more w four h =
    let p = parse-IsParse r q raw h in
    let (found, sep) = crlf_end r q raw p four in
    let same_split : p.split ≡ set_body_start p.read raw p.end 4 =
      p.split_eq ∙ ap (λ n. set_body_start p.read raw p.end n) sep in
    let splits : split_body (with_raw p.read (raw ++ more)) (raw ++ more)
        ≡ accepted (longer p.split (raw ++ more) more) =
      split_body-longer p.read raw more p.end found
      ∙ ap (λ s. accepted (longer s (raw ++ more) more)) (sym same_split) in
    let start = split_start r q raw p in
    by_parts r (with_raw p.read (raw ++ more)) (longer p.split (raw ++ more) more)
      (extended q (raw ++ more) more) (raw ++ more)
      (read-longer r p.read raw more p.end found p.head) splits
      (frame_body-longer p.split q raw more (omega (arith, split_limit r q raw p))
        (split_body_eq r q raw p ∙ ap (λ k. drop k raw) (sym start)) p.framed)
