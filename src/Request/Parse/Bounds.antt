-- ===== src/Request/Parse/Bounds.antt =====
-- What HttpServer relies on when it advances the connection's buffer behind a parsed request.
use http_framework.Prelude.{
  ◌+◌, ◌-◌, ◌%◌, ◌≤◌, ◌<◌, ◌≡◌, refl, ◌∙◌, ap, inl, inr, length, take, drop, arith, length-drop,
  subst,
}
use http_framework.Prelude.Bytes.{Bytes, substr}
use http_framework.Request.Text.{u64_mod, getlines}
use http_framework.Request.Chunked.Bounds.{scan_chunked_end-bounds, scan_chunked_end-after}
use http_framework.Request.State.{HttpRequest}
use http_framework.Request.Parse.{accepted, body_start, parse, frame_content_length, reset_flags}
use http_framework.Request.Parse.Framing.{
  Keeps, parse_lines-Keeps, HeadEnd-inside, IsParse, parse-IsParse, frame_content_length-accepted,
  ByChunks,
}

-- The request's limit is the one that the caller set.
read_limit :
    (r0 q : HttpRequest) (raw : Bytes) (p : IsParse r0 q raw)
    → p.read.max_body_size ≡ r0.max_body_size
unfolding reset_flags
read_limit r0 q raw p =
    (subst (Keeps (reset_flags r0 raw)) p.head
      (parse_lines-Keeps (reset_flags r0 raw) (getlines 10 raw))).max_body_size

module _ (r0 q : HttpRequest) (raw : Bytes) (p : IsParse r0 q raw) where
  pub split_start : body_start p.split ≡ p.end + p.sep_len
  split_start = ap (λ s. body_start s) p.split_eq

  pub split_body_eq : p.split.body ≡ drop (p.end + p.sep_len) raw
  split_body_eq = ap (λ s. s.body) p.split_eq

  pub split_limit : p.split.max_body_size ≡ r0.max_body_size
  split_limit = ap (λ s. s.max_body_size) p.split_eq ∙ read_limit r0 q raw p

  pub split_inside : (0 < p.sep_len) × (p.end + p.sep_len ≤ length raw)
  split_inside = HeadEnd-inside raw p.end p.sep_len p.head_end

  -- The bytes that a chunked request takes end where the scan ended.
  chunked_end :
      (c : ByChunks p.split q raw)
      → length raw + r0.max_body_size + 4 < u64_mod
      → (body_start q ≡ p.end + p.sep_len)
        × (body_start q + q.body_consumed ≡ c.end)
        × (body_start q < c.end)
        × (c.end ≤ length raw)
  chunked_end c w =
      let start = split_start in
      let limit = split_limit in
      let same_start : body_start q ≡ body_start p.split = ap (λ s. body_start s) c.result in
      let after =
        scan_chunked_end-after p.split.max_body_size raw (omega arith) (body_start p.split) c.end
          c.scanned in
      let inside =
        scan_chunked_end-bounds p.split.max_body_size raw (body_start p.split) c.end c.scanned in
      let taken : q.body_consumed ≡ (c.end + u64_mod - body_start p.split) % u64_mod =
        ap (λ s. s.body_consumed) c.result in
      (omega arith, omega arith, omega arith, omega arith)

  length_end :
      frame_content_length p.split ≡ accepted q
      → (body_start q ≡ p.end + p.sep_len)
        × (q.body ≡ substr raw (body_start q) q.body_consumed)
        × (q.body_consumed ≡ q.content_length)
        × (body_start q + q.body_consumed ≤ length raw)
  length_end f =
      let (n, e, le, _) = frame_content_length-accepted p.split q f in
      let start = split_start in
      let same_start : body_start q ≡ body_start p.split = ap (λ s. body_start s) e in
      let taken : q.body_consumed ≡ n = ap (λ s. s.body_consumed) e in
      let size : q.content_length ≡ n = ap (λ s. s.content_length) e in
      let cut : q.body ≡ take n p.split.body = ap (λ s. s.body) e in
      let at : body_start q ≡ p.end + p.sep_len = omega arith in
      (
        at,
        rw (at, taken, cut, split_body_eq) refl,
        omega arith,
        omega (arith, split_inside, length-drop (p.end + p.sep_len) raw, ap length split_body_eq),
      )

-- While buffer and limit stay four bytes below 2^64, an accepted request takes at least one byte of
-- the buffer and none beyond its end.
pub parse_bounds :
    (r q : HttpRequest) (raw : Bytes)
    → length raw + r.max_body_size + 4 < u64_mod
    → parse r raw ≡ accepted q
    → (0 < body_start q + q.body_consumed) × (body_start q + q.body_consumed ≤ length raw)
parse_bounds r q raw w h =
    let p = parse-IsParse r q raw h in
    let (sep, inside) = split_inside r q raw p in
    elim p.framed [
      | inl (chunked, alone, c) ↦
          let (_, at, after, within) = chunked_end r q raw p c w in (omega arith, omega arith)
      | inr (plain, f) ↦ let (at, _, _, within) = length_end r q raw p f in (omega arith, within)
    ]
