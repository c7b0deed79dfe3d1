-- ===== src/Request/Chunked/RoundTrip.antt =====
-- A chunked message as a sender writes it is found whole and decoded to the chunks' data.
use http_framework.Prelude.{
  ℕ, zero, suc, ◌+◌, ◌-◌, ◌≤◌, ◌<◌, ◌≡◌, refl, ap, ◌∙◌, false, some, List, [], ◌∷◌, ◌++◌, ◌==◌,
  length, arith, length-append, append_assoc, append-nil,
}
use http_framework.Prelude.Bytes.{Bytes, crlf, find, substr}
use http_framework.Request.Text.{u64_mod}
use http_framework.Request.Chunked.{
  chunk_size, complete, to_trailer, scan_trailer, scan_round, scan_loop, scan_chunked_end, ends,
  decode_data, decode_loop, decode_chunked_body,
}
use http_framework.Request.Chunked.Stability.{decode_round-data}
use http_framework.Request.Chunked.Render.{
  NoCr, Chunk, AreChunks, render, payloads, render_trailer, AreTrailers, find_at, substr_at,
  chunk_of, at_tail, length-head_of, length-chunk_of, length-whole, decode_round-chunk,
  scan_round-chunk,
}

scan_trailer-render :
    (ts : List Bytes) (s pre rest : Bytes) (fuel : ℕ)
    → AreTrailers ts
    → s ≡ pre ++ render_trailer ts rest
    → length s < fuel + length pre
    → scan_trailer fuel s (length pre) ≡ some (complete, length s - length rest)
unfolding scan_trailer render_trailer
scan_trailer-render [] s pre rest zero ok at f =
    absurd (omega (arith, ap length at, length-append pre (13 ∷ 10 ∷ rest)))
scan_trailer-render [] s pre rest (suc fuel) ok at f =
    let n = ap length at ∙ length-append pre (13 ∷ 10 ∷ rest) in
    rw (find_at s pre [] rest at tt, scan_trailer) (ground arith)
scan_trailer-render (t ∷ ts) s pre rest zero ok at f =
    absurd (omega (arith, ap length at, length-append pre (render_trailer (t ∷ ts) rest)))
scan_trailer-render (t ∷ ts) s pre rest (suc fuel) (no_cr, pos, oks) at f =
    let moved : length (pre ++ (t ++ crlf)) ≡ length pre + length t + 2 =
      omega (arith, length-append pre (t ++ crlf), length-append t crlf) in
    let other : (length pre + length t == length pre) ≡ false = ground arith in
    rw (find_at s pre t (render_trailer ts rest) at no_cr, scan_trailer)
      (rw (other, ← moved)
        (scan_trailer-render ts s (pre ++ (t ++ crlf)) rest fuel oks (at ∙ simp append_assoc)
          (omega arith)))

decode_data-ends :
    (max_body_size : ℕ) (s : Bytes) (pos : ℕ) → decode_data max_body_size s pos 0 ≡ ends
unfolding decode_data
decode_data-ends max_body_size s pos = ground arith

module _ (max_body_size : ℕ) (last : Bytes) (no_cr : NoCr last)
    (zero_size : chunk_size last ≡ some 0) where
  last_found :
      (s pre rest : Bytes)
      → s ≡ pre ++ (last ++ 13 ∷ 10 ∷ rest)
      → (find s crlf (length pre) ≡ some (length pre + length last))
        × (chunk_size (substr s (length pre) (length pre + length last - length pre)) ≡ some 0)
        × (length pre + length last + 2 ≤ length s)
  last_found s pre rest at = (
    find_at s pre last rest at no_cr,
    rw
        (substr_at s pre last (13 ∷ 10 ∷ rest) (length pre + length last - length pre) at
          (omega arith))
        zero_size,
    omega (
      arith,
      ap length at,
      length-append pre (last ++ 13 ∷ 10 ∷ rest),
      length-append last (13 ∷ 10 ∷ rest),
    ),
  )

  last_round :
      (s pre rest : Bytes) (total : ℕ)
      → s ≡ pre ++ (last ++ 13 ∷ 10 ∷ rest)
      → scan_round max_body_size s (length pre) total ≡ to_trailer (length pre + length last + 2)
  unfolding scan_round
  last_round s pre rest total at =
      let (found, sized, inside) = last_found s pre rest at in
      rw (found, scan_round) (rw sized (ground arith))

  decode_loop-render :
      (cs : List Chunk) (s pre rest decoded : Bytes) (fuel : ℕ)
      → AreChunks cs
      → s ≡ pre ++ render cs (last ++ 13 ∷ 10 ∷ rest)
      → length s < u64_mod
      → length (payloads cs) ≤ max_body_size
      → length s < fuel + length pre
      → decode_loop max_body_size s fuel (length pre) decoded ≡ some (some (decoded ++ payloads cs))
  unfolding decode_loop render payloads
  decode_loop-render [] s pre rest decoded zero ok at w le f =
      absurd (omega (arith, last_found s pre rest at))
  decode_loop-render [] s pre rest decoded (suc fuel) ok at w le f =
      let (found, sized, inside) = last_found s pre rest at in
      rw
        (
          decode_round-data max_body_size s (length pre) (length pre + length last) 0 (omega arith)
              found sized,
          decode_loop,
        )
        (rw (decode_data-ends max_body_size s (length pre + length last + 2)) (rw append-nil))
  decode_loop-render (c ∷ cs) s pre rest decoded zero (ok, oks) at w le f =
      absurd
        (omega (arith, ap length at, length-append pre (render (c ∷ cs) (last ++ 13 ∷ 10 ∷ rest))))
  decode_loop-render (c ∷ cs) s pre rest decoded (suc fuel) (ok, oks) at w le f =
      let tail = render cs (last ++ 13 ∷ 10 ∷ rest) in
      let whole = length-whole s pre tail c ok at in
      let moved = length-chunk_of s pre tail c ok at in
      let header = length-head_of s pre tail c ok at in
      let sizes = length-append c.payload (payloads cs) in
      rw (decode_round-chunk s pre tail c ok at max_body_size w (omega arith), decode_loop)
        (rw (← append_assoc decoded c.payload (payloads cs)) (
          decode_loop-render cs s (chunk_of pre c) rest (decoded ++ c.payload) fuel oks
            (at_tail s pre tail c ok at) w (omega arith) (omega arith)))

  -- The bytes of a whole message: its chunks, the last chunk's line, and the trailer.
  abbrev pub message : List Chunk → List Bytes → Bytes → Bytes
  message cs ts rest = render cs (last ++ 13 ∷ 10 ∷ render_trailer ts rest)

  scan_loop-render :
      (cs : List Chunk) (ts : List Bytes) (s pre rest : Bytes) (fuel total : ℕ)
      → AreChunks cs
      → AreTrailers ts
      → s ≡ pre ++ message cs ts rest
      → length s < u64_mod
      → max_body_size < u64_mod
      → total + length (payloads cs) ≤ max_body_size
      → length s < fuel + length pre
      → scan_loop max_body_size s fuel (length pre) total ≡ some (complete, length s - length rest)
  unfolding scan_loop render payloads
  scan_loop-render [] ts s pre rest zero total ok oks at w v le f =
      absurd (omega (arith, last_found s pre (render_trailer ts rest) at))
  scan_loop-render [] ts s pre rest (suc fuel) total ok oks at w v le f =
      let moved : length (pre ++ (last ++ crlf)) ≡ length pre + length last + 2 =
        omega (arith, length-append pre (last ++ crlf), length-append last crlf) in
      rw (last_round s pre (render_trailer ts rest) total at, scan_loop)
        (rw (← moved) (
          scan_trailer-render ts s (pre ++ (last ++ crlf)) rest (suc (length s)) oks
            (at ∙ simp append_assoc) (omega arith)))
  scan_loop-render (c ∷ cs) ts s pre rest zero total (ok, oks) trailers at w v le f =
      absurd (omega (arith, ap length at, length-append pre (message (c ∷ cs) ts rest)))
  scan_loop-render (c ∷ cs) ts s pre rest (suc fuel) total (ok, oks) trailers at w v le f =
      let tail = message cs ts rest in
      let whole = length-whole s pre tail c ok at in
      let moved = length-chunk_of s pre tail c ok at in
      let header = length-head_of s pre tail c ok at in
      let sizes = length-append c.payload (payloads cs) in
      rw
        (
          scan_round-chunk s pre tail c ok at max_body_size total w (omega arith) (omega arith),
          scan_loop,
        )
        (scan_loop-render cs ts s (chunk_of pre c) rest fuel (total + length c.payload) oks trailers
          (at_tail s pre tail c ok at) w v (omega arith) (omega arith))

  -- A chunked message that stands behind `pre` and before `rest` is found whole, whatever `rest`
  -- holds: its chunks have data and a size line that says how much, its trailer lines are not
  -- empty, no such line holds a CR, its data are within the limit, and buffer and limit are below
  -- 2^64.
  pub scan_chunked_end-render :
      (cs : List Chunk) (ts : List Bytes) (pre rest : Bytes)
      → AreChunks cs
      → AreTrailers ts
      → length (pre ++ message cs ts rest) < u64_mod
      → max_body_size < u64_mod
      → length (payloads cs) ≤ max_body_size
      → scan_chunked_end max_body_size (pre ++ message cs ts rest) (length pre)
        ≡ some (complete, length (pre ++ message cs ts rest) - length rest)
  unfolding scan_chunked_end
  scan_chunked_end-render cs ts pre rest ok oks w v le =
      scan_loop-render cs ts (pre ++ message cs ts rest) pre rest
        (suc (length (pre ++ message cs ts rest))) 0 ok oks refl w v (omega arith) (omega arith)

  -- A chunked message decodes to its chunks' data, one after the other, whatever follows it: its
  -- chunks have data and a size line without CR that says how much, its data are within the limit, and
  -- the buffer is below 2^64.
  pub decode_chunked_body-render :
      (cs : List Chunk) (ts : List Bytes) (rest : Bytes)
      → AreChunks cs
      → length (message cs ts rest) < u64_mod
      → length (payloads cs) ≤ max_body_size
      → decode_chunked_body max_body_size (message cs ts rest) ≡ some (some (payloads cs))
  unfolding decode_chunked_body
  decode_chunked_body-render cs ts rest ok w le =
      decode_loop-render cs (message cs ts rest) [] (render_trailer ts rest) []
        (suc (length (message cs ts rest))) ok refl w le (omega arith)
