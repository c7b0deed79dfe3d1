-- ===== src/Request/Chunked/Decoding.antt =====
-- src/http/HttpRequest.cpp: the loop of decodeChunkedBody ends.
use http_framework.Prelude.{
  ℕ, zero, suc, ◌+◌, ◌-◌, ◌≤◌, ◌<◌, ◌≡◌, refl, ◌⊎◌, inl, inr, none, some, [], ◌++◌, ap, drop,
  length-take, length-drop, length, arith, Option-cases,
}
use http_framework.Prelude.Bytes.{Bytes, crlf, find, find-bounds, substr}
use http_framework.Request.Text.{u64_mod}
use http_framework.Request.Chunked.{
  chunk_size, chunk_end, Decoded, decode_loop, DecodeRound, fails, ends, takes, decode_round,
  decode_chunked_body,
}

-- What a round of the decoder did that goes on.
pub record Takes (max_body_size : ℕ) (body : Bytes) (pos next : ℕ) (chunk : Bytes) : Type 0 where
  pub line_end : ℕ
  pub size : ℕ
  pub found : find body crlf pos ≡ some line_end
  pub sized : chunk_size (substr body pos (line_end - pos)) ≡ some size
  pub pos_size : 0 < size
  pub allowed : size ≤ max_body_size
  pub inside : chunk_end (line_end + 2) size ≤ length body
  pub next_eq : next ≡ chunk_end (line_end + 2) size
  pub chunk_eq : chunk ≡ substr body (line_end + 2) size

pub decode_round-takes :
    (max_body_size : ℕ) (body : Bytes) (pos next : ℕ) (chunk : Bytes)
    → decode_round max_body_size body pos ≡ takes next chunk
    → Takes max_body_size body pos next chunk
unfolding decode_round
decode_round-takes max_body_size body pos next chunk h = elim (Option-cases (find body crlf pos)) [
  | inl missing ↦ absurd (ground arith)
  | inr (line_end, found) ↦ elim (Option-cases (chunk_size (substr body pos (line_end - pos)))) [
    | inl bad ↦ absurd (ground arith)
    | inr (size, sized) ↦ record {
      line_end = line_end;
      size = size;
      found = found;
      sized = sized;
      pos_size = ground arith;
      allowed = ground arith;
      inside = ground arith;
      next_eq = ground arith;
      chunk_eq = ground arith;
    }
  ]
]

pub DecodeRound-cases :
    (r : DecodeRound)
    → (r ≡ fails) ⊎ (r ≡ ends) ⊎ ((next : ℕ) × (chunk : Bytes) × (r ≡ takes next chunk))
DecodeRound-cases fails = inl refl
DecodeRound-cases ends = inr (inl refl)
DecodeRound-cases (takes next chunk) = inr (inr (next, chunk, refl))

module _ (max_body_size : ℕ) (body : Bytes) (w : length body + max_body_size + 4 < u64_mod) where
  -- The decoder refuses a size above the limit, so that its sums do not wrap.
  pub Takes-exact :
      {pos next : ℕ} {chunk : Bytes} (t : Takes max_body_size body pos next chunk)
      → (next ≡ t.line_end + 2 + t.size + 2)
        × (pos < next)
        × (next ≤ length body)
        × (length chunk ≡ t.size)
  Takes-exact {pos} {next} {chunk} t =
      let (p, q) = find-bounds body crlf pos t.line_end t.found (omega arith) in
      let e : next ≡ t.line_end + 2 + t.size + 2 = omega (arith, t.next_eq, t.allowed) in
      let n : next ≤ length body = omega (arith, t.next_eq, t.inside) in
      (
        e,
        omega arith,
        n,
        omega (
          arith,
          ap length t.chunk_eq,
          length-take t.size (drop (t.line_end + 2) body),
          length-drop (t.line_end + 2) body,
        ),
      )

  pub decode_loop-total :
      (fuel pos : ℕ) (decoded : Bytes)
      → length body < fuel + pos
      → 0 < fuel
      → (r : Decoded) × (decode_loop max_body_size body fuel pos decoded ≡ some r)
  unfolding decode_loop
  decode_loop-total zero pos decoded b p = absurd (omega arith)
  decode_loop-total (suc fuel) pos decoded b p =
      elim (DecodeRound-cases (decode_round max_body_size body pos)) [
        | inl e ↦ (none, rw (e, decode_loop))
        | inr (inl e) ↦ (some decoded, rw (e, decode_loop))
        | inr (inr (next, chunk, e)) ↦
            let t = Takes-exact (decode_round-takes max_body_size body pos next chunk e) in
            rw (e, decode_loop)
              (decode_loop-total fuel next (decoded ++ chunk) (omega arith) (omega arith))
      ]

pub decode_chunked_body-total :
    (max_body_size : ℕ) (body : Bytes)
    → length body + max_body_size + 4 < u64_mod
    → (r : Decoded) × (decode_chunked_body max_body_size body ≡ some r)
unfolding decode_chunked_body
decode_chunked_body-total max_body_size body w =
    decode_loop-total max_body_size body w (suc (length body)) 0 [] (omega arith) (omega arith)
