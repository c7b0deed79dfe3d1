-- ===== src/Request/Chunked/Render.antt =====
-- Chunked messages as a sender writes them, and where their parts stand in a buffer.
use http_framework.Prelude.{
  ℕ, ◌+◌, ◌-◌, ◌≤◌, ◌<◌, ◌≡◌, ◌≢◌, refl, sym, ap, ◌∙◌, some, List, [], ◌∷◌, ◌++◌, length, drop,
  arith, length-append, drop-append_length, take-append_length, append_assoc,
}
use http_framework.Prelude.Bytes.{Bytes, crlf, find, search_for, substr}
use http_framework.Request.Text.{u64_mod}
use http_framework.Request.Chunked.{chunk_size, to_next, scan_round, takes, decode_round}
use http_framework.Request.Chunked.Stability.{decode_round-data, decode_data-takes}

abbrev pub NoCr : Bytes → Type 0
NoCr [] = Unit
NoCr (c ∷ cs) = (c ≢ 13) × NoCr cs

-- A chunk: the line before its first CRLF (the size and an extension), and its data.
pub record Chunk : Type 0 where
  pub line : Bytes
  pub payload : Bytes

pub record IsChunk (c : Chunk) : Type 0 where
  pub no_cr : NoCr c.line
  pub sized : chunk_size c.line ≡ some (length c.payload)
  pub pos_size : 0 < length c.payload

abbrev pub AreChunks : List Chunk → Type 0
AreChunks [] = Unit
AreChunks (c ∷ cs) = IsChunk c × AreChunks cs

-- The chunks, and then `tail`.
unfoldable pub render : List Chunk → Bytes → Bytes
render [] tail = tail
render (c ∷ cs) tail = c.line ++ 13 ∷ 10 ∷ (c.payload ++ 13 ∷ 10 ∷ render cs tail)

unfoldable pub payloads : List Chunk → Bytes
payloads [] = []
payloads (c ∷ cs) = c.payload ++ payloads cs

-- Trailer lines, the empty line, and then `tail`.
unfoldable pub render_trailer : List Bytes → Bytes → Bytes
render_trailer [] tail = 13 ∷ 10 ∷ tail
render_trailer (t ∷ ts) tail = t ++ 13 ∷ 10 ∷ render_trailer ts tail

abbrev pub AreTrailers : List Bytes → Type 0
AreTrailers [] = Unit
AreTrailers (t ∷ ts) = NoCr t × (0 < length t) × AreTrailers ts

pub search_for-line :
    (line tail : Bytes) → NoCr line → search_for crlf (line ++ 13 ∷ 10 ∷ tail) ≡ some (length line)
unfolding search_for
search_for-line [] tail h = refl
search_for-line (c ∷ cs) tail (h, hs) = ground (arith, search_for-line cs tail hs)

-- What stands at the position behind `pre`.
pub drop_at : (s pre rest : Bytes) → s ≡ pre ++ rest → drop (length pre) s ≡ rest
drop_at s pre rest e = rw e (drop-append_length pre rest)

pub find_at :
    (s pre line tail : Bytes)
    → s ≡ pre ++ (line ++ 13 ∷ 10 ∷ tail)
    → NoCr line
    → find s crlf (length pre) ≡ some (length pre + length line)
unfolding find
find_at s pre line tail e h =
    rw (drop_at s pre (line ++ 13 ∷ 10 ∷ tail) e, search_for-line line tail h)

pub substr_at :
    (s pre part tail : Bytes) (n : ℕ)
    → s ≡ pre ++ (part ++ tail)
    → n ≡ length part
    → substr s (length pre) n ≡ part
substr_at s pre part tail n e h =
    rw (drop_at s pre (part ++ tail) e, h) (take-append_length part tail)

-- What has been read behind a chunk's size line, and behind the whole chunk.
abbrev pub head_of : Bytes → Chunk → Bytes
head_of pre c = pre ++ (c.line ++ crlf)

abbrev pub chunk_of : Bytes → Chunk → Bytes
chunk_of pre c = pre ++ (c.line ++ 13 ∷ 10 ∷ (c.payload ++ crlf))

-- One chunk read at the position behind `pre`.
module _ (s pre tail : Bytes) (c : Chunk) (ok : IsChunk c)
    (at : s ≡ pre ++ (c.line ++ 13 ∷ 10 ∷ (c.payload ++ 13 ∷ 10 ∷ tail))) where
  pub at_payload : s ≡ head_of pre c ++ (c.payload ++ 13 ∷ 10 ∷ tail)
  at_payload = at ∙ simp append_assoc

  pub at_tail : s ≡ chunk_of pre c ++ tail
  at_tail = at ∙ simp append_assoc

  pub length-head_of : length (head_of pre c) ≡ length pre + length c.line + 2
  length-head_of = omega (arith, length-append pre (c.line ++ crlf), length-append c.line crlf)

  pub length-chunk_of : length (chunk_of pre c) ≡ length (head_of pre c) + length c.payload + 2
  length-chunk_of = omega (
    arith,
    length-head_of,
    length-append pre (c.line ++ 13 ∷ 10 ∷ (c.payload ++ crlf)),
    length-append c.line (13 ∷ 10 ∷ (c.payload ++ crlf)),
    length-append c.payload crlf,
  )

  pub length-whole : length s ≡ length (chunk_of pre c) + length tail
  length-whole = ap length at_tail ∙ length-append (chunk_of pre c) tail

  pub line_at : substr s (length pre) (length pre + length c.line - length pre) ≡ c.line
  line_at = substr_at s pre c.line _ _ at (omega arith)

  pub payload_at : substr s (length pre + length c.line + 2) (length c.payload) ≡ c.payload
  payload_at = rw (← length-head_of) (substr_at s (head_of pre c) c.payload _ _ at_payload refl)

  pub decode_round-chunk :
      (max_body_size : ℕ)
      → length s < u64_mod
      → length c.payload ≤ max_body_size
      → decode_round max_body_size s (length pre) ≡ takes (length (chunk_of pre c)) c.payload
  decode_round-chunk max_body_size w le =
      decode_round-data max_body_size s (length pre) (length pre + length c.line) (length c.payload)
        (omega (arith, length-whole, length-chunk_of, length-head_of))
        (find_at s pre c.line _ at ok.no_cr) (rw line_at ok.sized)
      ∙ decode_data-takes max_body_size s (length pre + length c.line + 2) (length c.payload)
          (length (chunk_of pre c)) c.payload le ok.pos_size
          (omega (arith, length-whole, length-chunk_of, length-head_of))
          (omega (arith, length-whole, length-chunk_of, length-head_of)) (sym payload_at)

  pub scan_round-chunk :
      (max_body_size total : ℕ)
      → length s < u64_mod
      → total + length c.payload < u64_mod
      → total + length c.payload ≤ max_body_size
      → scan_round max_body_size s (length pre) total
        ≡ to_next (length (chunk_of pre c)) (total + length c.payload)
  unfolding scan_round
  scan_round-chunk max_body_size total w v le =
      rw (find_at s pre c.line _ at ok.no_cr, scan_round)
        (rw (line_at, ok.sized)
          (ground (arith, ok.pos_size, length-whole, length-chunk_of, length-head_of)))
