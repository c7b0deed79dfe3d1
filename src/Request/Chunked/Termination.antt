-- ===== src/Request/Chunked/Termination.antt =====
-- src/http/HttpRequest.cpp: the loop of scanChunkedEnd ends.
use http_framework.Prelude.{
  ℕ, zero, suc, ◌+◌, ◌-◌, ◌%◌, ◌≤◌, ◌<◌, ◌≡◌, inl, inr, some, ◌==◌, length, arith, Bool-cases,
  Option-cases,
}
use http_framework.Prelude.Bytes.{Bytes, crlf, find, find-bounds}
use http_framework.Request.Text.{u64_mod}
use http_framework.Request.Chunked.{
  Scan, complete, incomplete, scan_trailer, chunk_end, scan_round, scan_loop, scan_chunked_end,
}
use http_framework.Request.Chunked.Rounds.{chunk_size-lt, Moves, scan_round-to_next, Round-cases}

-- A trailer is read to its end or to the end of the buffer.
pub scan_trailer-total :
    (fuel : ℕ) (raw : Bytes) (pos : ℕ)
    → length raw < fuel + pos
    → 0 < fuel
    → (r : Scan) × (scan_trailer fuel raw pos ≡ some r)
unfolding scan_trailer
scan_trailer-total zero raw pos h p = absurd (omega arith)
scan_trailer-total (suc fuel) raw pos h p = elim (Option-cases (find raw crlf pos)) [
  | inl missing ↦ ((incomplete, 0), rw (missing, scan_trailer))
  | inr (t_end, found) ↦ elim (Bool-cases (t_end == pos)) [
    | inl blank ↦ ((complete, pos + 2), rw (found, scan_trailer) (rw blank))
    | inr more ↦
        rw (found, scan_trailer)
          (rw more (
            scan_trailer-total fuel raw (t_end + 2)
              (omega (arith, find-bounds raw crlf pos t_end found))
              (omega (arith, find-bounds raw crlf pos t_end found))))
  ]
]

-- How far `pos` can move, whether or not the two sums wrap at 64 bits.
step_measure :
    (len max pos line_end size total : ℕ)
    → len + max + 4 < u64_mod
    → total ≤ pos
    → pos ≤ line_end
    → line_end + 2 ≤ len
    → size < u64_mod
    → (total + size) % u64_mod ≤ max
    → chunk_end (line_end + 2) size ≤ len
    → ((total + size) % u64_mod ≤ chunk_end (line_end + 2) size)
      × (len + (total + size) % u64_mod - chunk_end (line_end + 2) size < len + total - pos)
step_measure len max pos line_end size total w a b c d e f = omega arith

module _ (max_body_size : ℕ) (raw : Bytes) (w : length raw + max_body_size + 4 < u64_mod) where
  pub Moves-measure :
      {pos total next sum : ℕ}
      → total ≤ pos
      → Moves max_body_size raw pos total next sum
      → (sum ≤ next) × (length raw + sum - next < length raw + total - pos) × (next ≤ length raw)
  Moves-measure {pos} {total} h m =
      let (p, q) = find-bounds raw crlf pos m.line_end m.found (omega arith) in
      let (a, b) =
        step_measure (length raw) max_body_size pos m.line_end m.size total w h p q
          (chunk_size-lt _ m.size m.sized) m.allowed m.inside in
      rw (m.next_eq, m.sum_eq) (a, b, m.inside)

  pub scan_loop-total :
      (fuel pos total : ℕ)
      → total ≤ pos
      → length raw + total < fuel + pos
      → 0 < fuel
      → (r : Scan) × (scan_loop max_body_size raw fuel pos total ≡ some r)
  unfolding scan_loop
  scan_loop-total zero pos total a b p = absurd (omega arith)
  scan_loop-total (suc fuel) pos total a b p =
      elim (Round-cases (scan_round max_body_size raw pos total)) [
        | inl (result, e) ↦ ((result, 0), rw (e, scan_loop))
        | inr (inl (next, e)) ↦
            rw (e, scan_loop) (scan_trailer-total _ raw next (omega arith) (omega arith))
        | inr (inr (next, sum, e)) ↦
            let m = Moves-measure a (scan_round-to_next max_body_size raw pos total next sum e) in
            rw (e, scan_loop) (scan_loop-total fuel next sum m.0 (omega arith) (omega arith))
      ]

-- While buffer and limit stay four bytes below 2^64, scanChunkedEnd returns with one round of fuel
-- for each byte of the buffer and one more.
pub scan_chunked_end-total :
    (max_body_size : ℕ) (raw : Bytes) (body_start : ℕ)
    → length raw + max_body_size + 4 < u64_mod
    → (r : Scan) × (scan_chunked_end max_body_size raw body_start ≡ some r)
unfolding scan_chunked_end
scan_chunked_end-total max_body_size raw body_start w =
    scan_loop-total max_body_size raw w (suc (length raw)) body_start 0 (omega arith) (omega arith)
      (omega arith)
