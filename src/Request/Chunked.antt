-- ===== src/Request/Chunked.antt =====
-- src/http/HttpRequest.cpp: scanChunkedEnd, which finds the end of a chunked message in the
-- connection's buffer, and decodeChunkedBody, which takes the data out. A position is a number of
-- bytes from the start; sums of positions and sizes wrap at 64 bits as in the source. Both loops
-- take fuel, and `none` means that it ran out.
pub mod Rounds
pub mod Termination
pub mod Bounds
pub mod Decoding
pub mod Stability
pub mod Render
pub mod RoundTrip
use http_framework.Prelude.{
  ℕ, zero, suc, ◌+◌, ◌-◌, ◌%◌, ◌≡◌, Bool, true, false, not, ◌||◌, Option, none, some, List, [], ◌∷◌,
  ◌++◌, ltb, leb, ◌==◌, if◌then◌else◌, length, is_empty, all, take, drop, get_elem?,
}
use http_framework.Prelude.Bytes.{Bytes, crlf, find, find_byte, substr}
use http_framework.Request.Text.{u64_mod, is_xdigit, hex_number}

pub data ChunkScanResult : Type 0 where
  complete incomplete malformed too_large : ChunkScanResult

-- `sizeLine = sizeLine.substr(0, semi)` where there is a semicolon.
unfoldable pub before_semicolon : Bytes → Bytes
before_semicolon line = elim (find_byte b';' line) [ none ↦ line | some semi ↦ take semi line ]

-- The size on a chunk's first line: 1 to 16 hexadecimal digits; `none` where the source rejects it.
unfoldable pub chunk_size : Bytes → Option ℕ
unfolding before_semicolon
chunk_size line =
    let digits = before_semicolon line in
    if is_empty digits || ltb 16 (length digits) || not (all is_xdigit digits)
    then none
    else some (hex_number 0 digits)

-- What the scan reports, and the value left in *endOff (0 where it is not written).
abbrev pub Scan : Type 0
Scan = ChunkScanResult × ℕ

-- The inner loop, over the trailer's lines.
unfoldable pub scan_trailer : ℕ → Bytes → ℕ → Option Scan
scan_trailer zero raw pos = none
scan_trailer (suc fuel) raw pos = elim (find raw crlf pos) [
  | none ↦ some (incomplete, 0)
  | some t_end ↦ elim (t_end == pos) [
    | true ↦ some (complete, pos + 2)
    | false ↦ scan_trailer fuel raw (t_end + 2)
  ]
]

-- The position behind a chunk of `size` bytes that start at `pos`.
abbrev pub chunk_end : ℕ → ℕ → ℕ
chunk_end pos size = (pos + size + 2) % u64_mod

-- How one round of scanChunkedEnd's outer loop ends: by `return`, in the trailer's loop (the last
-- chunk was read), or at the next position with the next total.
pub data Round : Type 0 where
  returns : ChunkScanResult → Round
  to_trailer : ℕ → Round
  to_next : ℕ → ℕ → Round

module _ (max_body_size : ℕ) (raw : Bytes) where
  -- The round behind the size line that ends at `pos`.
  unfoldable pub scan_data : ℕ → ℕ → ℕ → Round
  scan_data pos total size =
      if size == 0
      then to_trailer pos
      else if ltb max_body_size ((total + size) % u64_mod)
      then returns too_large
      else if ltb (length raw) (chunk_end pos size)
      then returns incomplete
      else to_next (chunk_end pos size) ((total + size) % u64_mod)

  unfoldable pub scan_round : ℕ → ℕ → Round
  unfolding scan_data
  scan_round pos total = elim (find raw crlf pos) [
    | none ↦ returns incomplete
    | some line_end ↦ elim (chunk_size (substr raw pos (line_end - pos))) [
      | none ↦ returns malformed
      | some size ↦ scan_data (line_end + 2) total size
    ]
  ]

  unfoldable pub scan_loop : ℕ → ℕ → ℕ → Option Scan
  scan_loop zero pos total = none
  scan_loop (suc fuel) pos total = elim (scan_round pos total) [
    | returns result ↦ some (result, 0)
    | to_trailer next ↦ scan_trailer (suc (length raw)) raw next
    | to_next next sum ↦ scan_loop fuel next sum
  ]

-- One round of fuel for each byte of the buffer, and one more.
unfoldable pub scan_chunked_end : ℕ → Bytes → ℕ → Option Scan
unfolding scan_loop scan_round scan_trailer
scan_chunked_end max_body_size raw body_start =
    scan_loop max_body_size raw (suc (length raw)) body_start 0

-- The result of the decoding loop: `return false`, or the decoded text.
abbrev pub Decoded : Type 0
Decoded = Option Bytes

-- How one round of decodeChunkedBody's loop ends: by `return false`, at the loop's end, or at the
-- next position with the bytes to append.
pub data DecodeRound : Type 0 where
  fails ends : DecodeRound
  takes : ℕ → Bytes → DecodeRound

module _ (max_body_size : ℕ) (body : Bytes) where
  unfoldable pub decode_data : ℕ → ℕ → DecodeRound
  decode_data pos size =
      if ltb max_body_size size
      then fails
      else if size == 0
      then ends
      else if ltb (length body) (chunk_end pos size)
      then fails
      else takes (chunk_end pos size) (substr body pos size)

  unfoldable pub decode_round : ℕ → DecodeRound
  unfolding decode_data
  decode_round pos =
      if ltb pos (length body)
      then elim (find body crlf pos) [
        | none ↦ fails
        | some line_end ↦ elim (chunk_size (substr body pos (line_end - pos))) [
          | none ↦ fails
          | some size ↦ decode_data (line_end + 2) size
        ]
      ]
      else ends

  unfoldable pub decode_loop : ℕ → ℕ → Bytes → Option Decoded
  decode_loop zero pos decoded = none
  decode_loop (suc fuel) pos decoded = elim (decode_round pos) [
    | fails ↦ some none
    | ends ↦ some (some decoded)
    | takes next chunk ↦ decode_loop fuel next (decoded ++ chunk)
  ]

unfoldable pub decode_chunked_body : ℕ → Bytes → Option Decoded
unfolding decode_loop decode_round
decode_chunked_body max_body_size body = decode_loop max_body_size body (suc (length body)) 0 []
