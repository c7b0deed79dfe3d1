-- ===== src/Request/Chunked/Stability.antt =====
-- A chunked message that has arrived whole is read the same way when more bytes follow it.
use http_framework.Prelude.{
  ℕ, zero, suc, ◌+◌, ◌-◌, ◌≤◌, ◌<◌, ◌≡◌, ◌≢◌, refl, sym, ap, ◌∙◌, inl, inr, Option, none, some, [],
  ◌++◌, ◌==◌, length, drop, arith, Bool-cases, Option-cases, lt→ltb, length-append, length-drop,
  take-append_of_le, drop-append_of_le, drop-drop,
}
use http_framework.Prelude.Bytes.{
  Bytes, crlf, find, find-bounds, find-append, search_for, shift, substr,
}
use http_framework.Request.Text.{u64_mod}
use http_framework.Request.Chunked.{
  chunk_size, complete, to_trailer, to_next, scan_trailer, chunk_end, scan_round, scan_loop,
  scan_chunked_end, ends, takes, decode_data, decode_round, decode_loop, decode_chunked_body,
}
use http_framework.Request.Chunked.Rounds.{
  Moves, Ends, scan_round-to_next, scan_round-to_trailer, Round-cases,
}
use http_framework.Request.Chunked.Decoding.{
  Takes, decode_round-takes, DecodeRound-cases, Takes-exact,
}
use http_framework.Request.Chunked.Bounds.{scan_round-ne-complete}

pub substr-append :
    (s t : Bytes) (pos len : ℕ) → pos + len ≤ length s → substr (s ++ t) pos len ≡ substr s pos len
substr-append s t pos len h =
    rw (drop-append_of_le pos s t (omega arith))
      (take-append_of_le len (drop pos s) t (omega (arith, length-drop pos s)))

scan_trailer-append :
    (fuel more_fuel : ℕ) (raw more : Bytes) (pos end : ℕ)
    → fuel ≤ more_fuel
    → scan_trailer fuel raw pos ≡ some (complete, end)
    → scan_trailer more_fuel (raw ++ more) pos ≡ some (complete, end)
unfolding scan_trailer
scan_trailer-append zero more_fuel raw more pos end le h = absurd (ground arith)
scan_trailer-append (suc fuel) zero raw more pos end le h = absurd (omega arith)
scan_trailer-append (suc fuel) (suc more_fuel) raw more pos end le h =
    elim (Option-cases (find raw crlf pos)) [
      | inl missing ↦ absurd (ground arith)
      | inr (t_end, found) ↦
          rw (find-append raw more crlf pos t_end found (omega arith), scan_trailer)
            (elim (Bool-cases (t_end == pos)) [
              | inl blank ↦ ground arith
              | inr later ↦ rw later (
                  scan_trailer-append fuel more_fuel raw more (t_end + 2) end (omega arith)
                    (ground arith))
            ])
    ]

module _ (max_body_size : ℕ) (raw more : Bytes) where
  scan_round-append_to_next :
      (pos total next sum : ℕ)
      → Moves max_body_size raw pos total next sum
      → scan_round max_body_size (raw ++ more) pos total ≡ to_next next sum
  unfolding scan_round
  scan_round-append_to_next pos total next sum m =
      let (p, q) = find-bounds raw crlf pos m.line_end m.found (omega arith) in
      rw (find-append raw more crlf pos m.line_end m.found (omega arith), scan_round)
        (rw (substr-append raw more pos (m.line_end - pos) (omega arith), m.sized)
          (ground
            (arith, m.pos_size, m.allowed, m.inside, m.next_eq, m.sum_eq, length-append raw more)))

  scan_round-append_to_trailer :
      (pos total next : ℕ)
      → Ends raw pos next
      → scan_round max_body_size (raw ++ more) pos total ≡ to_trailer next
  unfolding scan_round
  scan_round-append_to_trailer pos total next m =
      let (p, q) = find-bounds raw crlf pos m.line_end m.found (omega arith) in
      rw (find-append raw more crlf pos m.line_end m.found (omega arith), scan_round)
        (rw (substr-append raw more pos (m.line_end - pos) (omega arith), m.sized)
          (ground (arith, m.next_eq)))

  scan_loop-append :
      (fuel more_fuel pos total end : ℕ)
      → fuel ≤ more_fuel
      → scan_loop max_body_size raw fuel pos total ≡ some (complete, end)
      → scan_loop max_body_size (raw ++ more) more_fuel pos total ≡ some (complete, end)
  unfolding scan_loop
  scan_loop-append zero more_fuel pos total end le h = absurd (ground arith)
  scan_loop-append (suc fuel) zero pos total end le h = absurd (omega arith)
  scan_loop-append (suc fuel) (suc more_fuel) pos total end le h =
      elim (Round-cases (scan_round max_body_size raw pos total)) [
        | inl (result, e) ↦
            absurd (scan_round-ne-complete max_body_size raw pos total (ground arith))
        | inr (inl (next, e)) ↦
            rw
              (
                scan_round-append_to_trailer pos total next
                    (scan_round-to_trailer max_body_size raw pos total next e),
                scan_loop,
              )
              (scan_trailer-append (suc (length raw)) (suc (length (raw ++ more))) raw more next end
                (omega (arith, length-append raw more)) (rw (e, scan_loop) at h))
        | inr (inr (next, sum, e)) ↦
            rw
              (
                scan_round-append_to_next pos total next sum
                    (scan_round-to_next max_body_size raw pos total next sum e),
                scan_loop,
              )
              (scan_loop-append fuel more_fuel next sum end (omega arith) (rw (e, scan_loop) at h))
      ]

  -- The end of a message that has arrived does not depend on what follows it.
  pub scan_chunked_end-append :
      (body_start end : ℕ)
      → scan_chunked_end max_body_size raw body_start ≡ some (complete, end)
      → scan_chunked_end max_body_size (raw ++ more) body_start ≡ some (complete, end)
  unfolding scan_chunked_end
  scan_chunked_end-append body_start end h =
      scan_loop-append (suc (length raw)) (suc (length (raw ++ more))) body_start 0 end
        (omega (arith, length-append raw more)) h

-- A search in the body is a search in the buffer.
find-drop :
    (s needle : Bytes) (m p : ℕ) → find s needle (m + p) ≡ shift m (find (drop m s) needle p)
unfolding find
find-drop s needle m p = rw (drop-drop m p s) (go (search_for needle (drop (m + p) s)))
  where
    go : (o : Option ℕ) → shift (m + p) o ≡ shift m (shift p o)
    go none = refl
    go (some k) = ap some (omega arith)

pub decode_round-data :
    (max_body_size : ℕ) (s : Bytes) (p line_end size : ℕ)
    → p < length s
    → find s crlf p ≡ some line_end
    → chunk_size (substr s p (line_end - p)) ≡ some size
    → decode_round max_body_size s p ≡ decode_data max_body_size s (line_end + 2) size
unfolding decode_round
decode_round-data max_body_size s p line_end size h found sized =
    rw (lt→ltb p (length s) h, found, decode_round) (rw sized)

pub decode_data-takes :
    (max_body_size : ℕ) (s : Bytes) (p size next : ℕ) (chunk : Bytes)
    → size ≤ max_body_size
    → 0 < size
    → chunk_end p size ≤ length s
    → next ≡ chunk_end p size
    → chunk ≡ substr s p size
    → decode_data max_body_size s p size ≡ takes next chunk
unfolding decode_data
decode_data-takes max_body_size s p size next chunk a b c d e = ground arith

-- The two loops walk over the same chunks: `p` is a position in the body, `start + p` the same
-- place in the buffer.
module _ (max_body_size : ℕ) (raw more : Bytes) (start : ℕ)
    (w : length (raw ++ more) + max_body_size + 4 < u64_mod) where
  body_bound : length (drop start raw ++ more) + max_body_size + 4 < u64_mod
  body_bound =
      omega
        (arith, length-append (drop start raw) more, length-append raw more, length-drop start raw)

  decode_round-append_takes :
      (p next : ℕ) (chunk : Bytes)
      → Takes max_body_size (drop start raw) p next chunk
      → decode_round max_body_size (drop start raw ++ more) p ≡ takes next chunk
  decode_round-append_takes p next chunk t =
      let body = drop start raw in
      let (a, b) = find-bounds body crlf p t.line_end t.found (omega arith) in
      let (e, _, inside, _) =
        Takes-exact max_body_size body (omega (arith, body_bound, length-append body more)) t in
      decode_round-data max_body_size (body ++ more) p t.line_end t.size
        (omega (arith, length-append body more))
        (find-append body more crlf p t.line_end t.found (omega arith))
        (rw (substr-append body more p (t.line_end - p) (omega arith)) t.sized)
      ∙ decode_data-takes max_body_size (body ++ more) (t.line_end + 2) t.size next chunk t.allowed
          t.pos_size (omega (arith, t.inside, length-append body more)) t.next_eq
          (t.chunk_eq ∙ sym (substr-append body more (t.line_end + 2) t.size (omega arith)))

  body_line :
      (p k : ℕ)
      → find raw crlf (start + p) ≡ some k
      → (j : ℕ) × (find (drop start raw) crlf p ≡ some j) × (k ≡ start + j)
  body_line p k h = elim (Option-cases (find (drop start raw) crlf p)) [
    | inl missing ↦ absurd (ground (arith, find-drop raw crlf start p))
    | inr (j, found) ↦ (j, found, ground (arith, find-drop raw crlf start p))
  ]

  body_size :
      (p k j : ℕ) {size : Option ℕ}
      → k ≡ start + j
      → chunk_size (substr raw (start + p) (k - (start + p))) ≡ size
      → chunk_size (substr (drop start raw) p (j - p)) ≡ size
  body_size p k j e h =
      let d : k - (start + p) ≡ j - p = omega arith in rw (drop-drop start p raw, ← d) h

  decode_ends :
      (s : Bytes) (p j : ℕ)
      → find s crlf p ≡ some j
      → chunk_size (substr s p (j - p)) ≡ some 0
      → decode_round max_body_size s p ≡ ends
  unfolding decode_data
  decode_ends s p j found sized =
      let (a, b) = find-bounds s crlf p j found (omega arith) in
      decode_round-data max_body_size s p j 0 (omega arith) found sized ∙ ground arith

  -- The decoder takes the chunk that the scan stepped over, and both go on at the same place.
  same_step :
      (p total next sum body_next : ℕ) (chunk : Bytes)
      → Moves max_body_size raw (start + p) total next sum
      → Takes max_body_size (drop start raw) p body_next chunk
      → next ≡ start + body_next
  same_step p total next sum body_next chunk m t =
      let body = drop start raw in
      let (j, found, e) = body_line p m.line_end m.found in
      let same_end : j ≡ t.line_end = ground (arith, t.found) in
      let same_size : m.size ≡ t.size =
        ground (arith, t.sized, body_size p m.line_end j e m.sized) in
      let (exact, _, inside, _) =
        Takes-exact max_body_size body (omega (arith, body_bound, length-append body more)) t in
      omega (arith, m.next_eq, length-drop start raw, length-append raw more)

  not_ended :
      (p total next sum : ℕ)
      → Moves max_body_size raw (start + p) total next sum
      → decode_round max_body_size (drop start raw) p ≢ ends
  unfolding decode_data
  not_ended p total next sum m ended =
      let body = drop start raw in
      let (j, found, e) = body_line p m.line_end m.found in
      let (a, b) = find-bounds body crlf p j found (omega arith) in
      let step =
        decode_round-data max_body_size body p j m.size (omega arith) found
          (body_size p m.line_end j e m.sized) in
      ground (arith, step, m.pos_size)

  decode_loop-append :
      (fuel more_fuel p scan_fuel total end : ℕ) (decoded result : Bytes)
      → fuel ≤ more_fuel
      → scan_loop max_body_size raw scan_fuel (start + p) total ≡ some (complete, end)
      → decode_loop max_body_size (drop start raw) fuel p decoded ≡ some (some result)
      → decode_loop max_body_size (drop start raw ++ more) more_fuel p decoded ≡ some (some result)
  unfolding decode_loop scan_loop
  decode_loop-append fuel more_fuel p zero total end decoded result le hs hd = absurd (ground arith)
  decode_loop-append zero more_fuel p (suc scan_fuel) total end decoded result le hs hd =
      absurd (ground arith)
  decode_loop-append (suc fuel) zero p (suc scan_fuel) total end decoded result le hs hd =
      absurd (omega arith)
  decode_loop-append (suc fuel) (suc more_fuel) p (suc scan_fuel) total end decoded result le hs
        hd =
      elim (Round-cases (scan_round max_body_size raw (start + p) total)) [
        | inl (outcome, e) ↦
            absurd (scan_round-ne-complete max_body_size raw (start + p) total (ground arith))
        | inr (inl (next, e)) ↦
            let m = scan_round-to_trailer max_body_size raw (start + p) total next e in
            let (j, found, at) = body_line p m.line_end m.found in
            let sized = body_size p m.line_end j at m.sized in
            let (a, b) = find-bounds (drop start raw) crlf p j found (omega arith) in
            let here = decode_ends (drop start raw) p j found sized in
            let there =
              decode_ends (drop start raw ++ more) p j
                (find-append (drop start raw) more crlf p j found (omega arith))
                (rw (substr-append (drop start raw) more p (j - p) (omega arith)) sized) in
            rw (there, decode_loop) (rw (here, decode_loop) at hd)
        | inr (inr (next, sum, e)) ↦
            let m = scan_round-to_next max_body_size raw (start + p) total next sum e in
            elim (DecodeRound-cases (decode_round max_body_size (drop start raw) p)) [
              | inl failed ↦ absurd (ground arith)
              | inr (inl ended) ↦ absurd (not_ended p total next sum m ended)
              | inr (inr (body_next, chunk, taken)) ↦
                  let t =
                    decode_round-takes max_body_size (drop start raw) p body_next chunk taken in
                  let step = same_step p total next sum body_next chunk m t in
                  rw (decode_round-append_takes p body_next chunk t, decode_loop)
                    (decode_loop-append fuel more_fuel body_next scan_fuel sum end
                      (decoded ++ chunk) result (omega arith) (rw step at (rw (e, scan_loop) at hs))
                      (rw (taken, decode_loop) at hd))
            ]
      ]

  -- So does the decoded text, where the message has arrived and decodes.
  pub decode_chunked_body-append :
      (end : ℕ) (result : Bytes)
      → scan_chunked_end max_body_size raw start ≡ some (complete, end)
      → decode_chunked_body max_body_size (drop start raw) ≡ some (some result)
      → decode_chunked_body max_body_size (drop start raw ++ more) ≡ some (some result)
  unfolding scan_chunked_end decode_chunked_body
  decode_chunked_body-append end result hs hd =
      let z : start + 0 ≡ start = omega arith in
      decode_loop-append (suc (length (drop start raw))) (suc (length (drop start raw ++ more))) 0
        (suc (length raw)) 0 end [] result (omega (arith, length-append (drop start raw) more))
        (rw z hs) hd
