-- ===== src/Request/Parse/Totality.antt =====
-- The parser always comes to an end with a verdict.
use http_framework.Prelude.{
  ◌+◌, ◌≤◌, ◌<◌, ◌≡◌, ◌≢◌, refl, ap, inl, inr, none, some, length, drop, arith, length-drop,
  Option-cases,
}
use http_framework.Prelude.Bytes.{Bytes, codes}
use http_framework.Prelude.Maps.{lookup, bytes_eq}
use http_framework.Request.Text.{u64_mod, getlines}
use http_framework.Request.Chunked.{
  Scan, Decoded, malformed as malformed_chunk, complete, incomplete, too_large,
}
use http_framework.Request.Chunked.Termination.{scan_chunked_end-total}
use http_framework.Request.Chunked.Decoding.{decode_chunked_body-total}
use http_framework.Request.State.{HttpRequest}
use http_framework.Request.Parse.{
  Parsed, accepted, rejected, out_of_fuel, ◌>>=◌, body_start, after_decode, after_scan, parse,
  parse_lines, reset_flags, split_body, frame_body, frame_content_length, content_length_value,
}
use http_framework.Request.Parse.Framing.{Keeps, SameFrame, parse_lines-Keeps, split_body-accepted}

after_decode-ends : (r : HttpRequest) (d : Decoded) → after_decode r (some d) ≢ out_of_fuel
unfolding after_decode
after_decode-ends r none = cc
after_decode-ends r (some decoded) = cc

after_scan-ends :
    (r : HttpRequest) (s : Scan)
    → length r.body + r.max_body_size + 4 < u64_mod
    → after_scan r (some s) ≢ out_of_fuel
unfolding after_scan
after_scan-ends r (malformed_chunk, end) w = cc
after_scan-ends r (too_large, end) w = cc
after_scan-ends r (incomplete, end) w = cc
after_scan-ends r (complete, end) w =
    let (d, e) = decode_chunked_body-total r.max_body_size r.body w in rw e (after_decode-ends _ d)

frame_content_length-ends : (r : HttpRequest) → frame_content_length r ≢ out_of_fuel
unfolding frame_content_length
frame_content_length-ends r h = elim (Option-cases (lookup (codes "content-length") r.headers)) [
  | inl absent ↦ ground arith
  | inr (value, present) ↦ elim (Option-cases (content_length_value value)) [
    | inl bad ↦ ground arith
    | inr (n, good) ↦ ground arith
  ]
]

frame_body-ends :
    (r : HttpRequest) (raw : Bytes)
    → length raw + r.max_body_size + 4 < u64_mod
    → length r.body ≤ length raw
    → frame_body r raw ≢ out_of_fuel
unfolding frame_body
frame_body-ends r raw w le h =
    let (s, e) = scan_chunked_end-total r.max_body_size raw (body_start r) w in
    let a = after_scan-ends r s (omega arith) in ground (arith, frame_content_length-ends r, e, a)

split_body-ends : (r : HttpRequest) (raw : Bytes) → split_body r raw ≢ out_of_fuel
unfolding split_body
split_body-ends r raw h = ground arith

split_then_frame-ends :
    (r : HttpRequest) (raw : Bytes)
    → length raw + r.max_body_size + 4 < u64_mod
    → (split_body r raw >>= λ s. frame_body s raw) ≢ out_of_fuel
split_then_frame-ends r raw w = go (split_body r raw) refl
  where
    go : (m : Parsed) → split_body r raw ≡ m → (m >>= λ s. frame_body s raw) ≢ out_of_fuel
    go (accepted s) e =
        let (k, sep, same_split, at) = split_body-accepted r s raw e in
        let limit : s.max_body_size ≡ r.max_body_size = ap (λ t. t.max_body_size) same_split in
        let body : s.body ≡ drop (k + sep) raw = ap (λ t. t.body) same_split in
        frame_body-ends s raw (omega arith)
          (omega (arith, ap length body, length-drop (k + sep) raw))
    go (rejected s) e = cc
    go out_of_fuel e = λ _. split_body-ends r raw e

bind-ends :
    (r : HttpRequest) (m : Parsed) (f : HttpRequest → Parsed)
    → Keeps r m
    → ((q : HttpRequest) → SameFrame q r → f q ≢ out_of_fuel)
    → (m >>= f) ≢ out_of_fuel
bind-ends r (accepted q) f keeps h = h q keeps
bind-ends r (rejected q) f keeps h = cc
bind-ends r out_of_fuel f keeps h = absurd keeps

-- While buffer and limit stay four bytes below 2^64, the parser ends: it accepts or rejects the
-- buffer, and its chunk loops do not run out of fuel.
pub parse-ends :
    (r : HttpRequest) (raw : Bytes)
    → length raw + r.max_body_size + 4 < u64_mod
    → parse r raw ≢ out_of_fuel
unfolding parse
parse-ends r raw w =
    bind-ends (reset_flags r raw) (parse_lines (reset_flags r raw) (getlines 10 raw)) _
      (parse_lines-Keeps (reset_flags r raw) (getlines 10 raw))
      (λ q same_frame. split_then_frame-ends q raw (limit q same_frame))
  where
    limit :
        (q : HttpRequest)
        → SameFrame q (reset_flags r raw)
        → length raw + q.max_body_size + 4 < u64_mod
    limit q same_frame = omega (arith, same_frame.max_body_size)
