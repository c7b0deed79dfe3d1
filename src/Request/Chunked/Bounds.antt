-- ===== src/Request/Chunked/Bounds.antt =====
-- src/http/HttpRequest.cpp: the end that scanChunkedEnd reports lies in the buffer.
use http_framework.Prelude.{
  ℕ, zero, suc, ◌+◌, ◌≤◌, ◌<◌, ◌≡◌, ◌≢◌, inl, inr, some, ◌==◌, length, arith, Bool-cases,
  Option-cases,
}
use http_framework.Prelude.Bytes.{Bytes, crlf, find, find-bounds}
use http_framework.Request.Text.{u64_mod}
use http_framework.Request.Chunked.{
  complete, scan_trailer, returns, scan_round, scan_loop, scan_chunked_end,
}
use http_framework.Request.Chunked.Rounds.{scan_round-to_next, scan_round-to_trailer, Round-cases}
use http_framework.Request.Chunked.Termination.{Moves-measure}

pub scan_trailer-bounds :
    (fuel : ℕ) (raw : Bytes) (pos end : ℕ)
    → scan_trailer fuel raw pos ≡ some (complete, end)
    → (pos < end) × (end ≤ length raw)
unfolding scan_trailer
scan_trailer-bounds zero raw pos end h = absurd (ground arith)
scan_trailer-bounds (suc fuel) raw pos end h = elim (Option-cases (find raw crlf pos)) [
  | inl missing ↦ absurd (ground arith)
  | inr (t_end, found) ↦ elim (Bool-cases (t_end == pos)) [
    | inl blank ↦ ground (arith, find-bounds raw crlf pos t_end found)
    | inr more ↦
        ground (
          arith,
          find-bounds raw crlf pos t_end found,
          scan_trailer-bounds fuel raw (t_end + 2) end,
        )
  ]
]

-- Only the trailer's loop reports that all has arrived.
pub scan_round-ne-complete :
    (max_body_size : ℕ) (raw : Bytes) (pos total : ℕ)
    → scan_round max_body_size raw pos total ≢ returns complete
unfolding scan_round
scan_round-ne-complete max_body_size raw pos total h = elim (Option-cases (find raw crlf pos)) [
  | inl missing ↦ ground arith
  | inr (line_end, found) ↦ ground arith
]

pub scan_loop-bounds :
    (max_body_size : ℕ) (raw : Bytes) (fuel pos total end : ℕ)
    → scan_loop max_body_size raw fuel pos total ≡ some (complete, end)
    → end ≤ length raw
unfolding scan_loop
scan_loop-bounds max_body_size raw zero pos total end h = absurd (ground arith)
scan_loop-bounds max_body_size raw (suc fuel) pos total end h =
    elim (Round-cases (scan_round max_body_size raw pos total)) [
      | inl (result, e) ↦ absurd (scan_round-ne-complete max_body_size raw pos total (ground arith))
      | inr (inl (next, e)) ↦ (scan_trailer-bounds _ raw next end (rw (e, scan_loop) at h)).1
      | inr (inr (next, sum, e)) ↦
          scan_loop-bounds max_body_size raw fuel next sum end (rw (e, scan_loop) at h)
    ]

pub scan_chunked_end-bounds :
    (max_body_size : ℕ) (raw : Bytes) (body_start end : ℕ)
    → scan_chunked_end max_body_size raw body_start ≡ some (complete, end)
    → end ≤ length raw
unfolding scan_chunked_end
scan_chunked_end-bounds max_body_size raw body_start end h =
    scan_loop-bounds max_body_size raw (suc (length raw)) body_start 0 end h

-- The reported end does not lie before the body.
module _ (max_body_size : ℕ) (raw : Bytes) (w : length raw + max_body_size + 4 < u64_mod) where
  scan_loop-after :
      (start fuel pos total end : ℕ)
      → start + total ≤ pos
      → scan_loop max_body_size raw fuel pos total ≡ some (complete, end)
      → start < end
  unfolding scan_loop
  scan_loop-after start zero pos total end a h = absurd (ground arith)
  scan_loop-after start (suc fuel) pos total end a h =
      elim (Round-cases (scan_round max_body_size raw pos total)) [
        | inl (result, e) ↦
            absurd (scan_round-ne-complete max_body_size raw pos total (ground arith))
        | inr (inl (next, e)) ↦
            let t = scan_round-to_trailer max_body_size raw pos total next e in
            omega (
              arith,
              t.next_eq,
              find-bounds raw crlf pos t.line_end t.found (omega arith),
              scan_trailer-bounds (suc (length raw)) raw next end (rw (e, scan_loop) at h),
            )
        | inr (inr (next, sum, e)) ↦
            let m = scan_round-to_next max_body_size raw pos total next sum e in
            let (p, q) = find-bounds raw crlf pos m.line_end m.found (omega arith) in
            let (b, c, d) = Moves-measure max_body_size raw w {pos = pos} (omega arith) m in
            scan_loop-after start fuel next sum end (omega arith) (rw (e, scan_loop) at h)
      ]

  pub scan_chunked_end-after :
      (body_start end : ℕ)
      → scan_chunked_end max_body_size raw body_start ≡ some (complete, end)
      → body_start < end
  unfolding scan_chunked_end
  scan_chunked_end-after body_start end h =
      scan_loop-after body_start (suc (length raw)) body_start 0 end (omega arith) h
