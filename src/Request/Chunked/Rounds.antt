-- ===== src/Request/Chunked/Rounds.antt =====
-- src/http/HttpRequest.cpp: what one round of the loop of scanChunkedEnd does.
use http_framework.Prelude.{
  ℕ, ◌+◌, ◌-◌, ◌%◌, ◌≤◌, ◌<◌, ◌≡◌, refl, ◌⊎◌, inl, inr, some, length, arith, Option-cases,
}
use http_framework.Prelude.Bytes.{Bytes, crlf, find, substr}
use http_framework.Request.Text.{u64_mod, hex_number-lt}
use http_framework.Request.Chunked.{
  before_semicolon, chunk_size, ChunkScanResult, chunk_end, Round, returns, to_trailer, to_next,
  scan_round,
}

-- A chunk's size fits into 64 bits.
pub chunk_size-lt : (line : Bytes) (n : ℕ) → chunk_size line ≡ some n → n < u64_mod
unfolding chunk_size
chunk_size-lt line n h = ground (arith, hex_number-lt 16 0 (before_semicolon line))

-- What a round did that leads to a next one.
pub record Moves (max_body_size : ℕ) (raw : Bytes) (pos total next sum : ℕ) : Type 0 where
  pub line_end : ℕ
  pub size : ℕ
  pub found : find raw crlf pos ≡ some line_end
  pub sized : chunk_size (substr raw pos (line_end - pos)) ≡ some size
  pub pos_size : 0 < size
  pub allowed : (total + size) % u64_mod ≤ max_body_size
  pub inside : chunk_end (line_end + 2) size ≤ length raw
  pub next_eq : next ≡ chunk_end (line_end + 2) size
  pub sum_eq : sum ≡ (total + size) % u64_mod

pub record Ends (raw : Bytes) (pos next : ℕ) : Type 0 where
  pub line_end : ℕ
  pub found : find raw crlf pos ≡ some line_end
  pub sized : chunk_size (substr raw pos (line_end - pos)) ≡ some 0
  pub next_eq : next ≡ line_end + 2

module _ (max_body_size : ℕ) (raw : Bytes) (pos total : ℕ) where
  pub scan_round-to_next :
      (next sum : ℕ)
      → scan_round max_body_size raw pos total ≡ to_next next sum
      → Moves max_body_size raw pos total next sum
  unfolding scan_round
  scan_round-to_next next sum h = elim (Option-cases (find raw crlf pos)) [
    | inl missing ↦ absurd (cc (rw (missing, scan_round) at h))
    | inr (line_end, found) ↦ elim (Option-cases (chunk_size (substr raw pos (line_end - pos)))) [
      | inl bad ↦ absurd (ground arith)
      | inr (size, sized) ↦ record {
        line_end = line_end;
        size = size;
        found = found;
        sized = sized;
        pos_size = ground arith;
        allowed = ground arith;
        inside = ground arith;
        next_eq = ground arith;
        sum_eq = ground arith;
      }
    ]
  ]

  pub scan_round-to_trailer :
      (next : ℕ) → scan_round max_body_size raw pos total ≡ to_trailer next → Ends raw pos next
  unfolding scan_round
  scan_round-to_trailer next h = elim (Option-cases (find raw crlf pos)) [
    | inl missing ↦ absurd (ground arith)
    | inr (line_end, found) ↦ elim (Option-cases (chunk_size (substr raw pos (line_end - pos)))) [
      | inl bad ↦ absurd (ground arith)
      | inr (size, sized) ↦ record {
        line_end = line_end;
        found = found;
        sized = ground arith;
        next_eq = ground arith;
      }
    ]
  ]

pub Round-cases :
    (r : Round)
    → ((result : ChunkScanResult) × (r ≡ returns result))
      ⊎ ((next : ℕ) × (r ≡ to_trailer next))
      ⊎ ((next : ℕ) × (sum : ℕ) × (r ≡ to_next next sum))
Round-cases (returns result) = inl (result, refl)
Round-cases (to_trailer next) = inr (inl (next, refl))
Round-cases (to_next next sum) = inr (inr (next, sum, refl))
