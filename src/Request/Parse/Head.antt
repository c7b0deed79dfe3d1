-- ===== src/Request/Parse/Head.antt =====
-- The head of a buffer that holds an empty line: it does not depend on what follows that line, nor
-- on the copy of the buffer that the request keeps.
use http_framework.Prelude.{
  ℕ, ◌≡◌, refl, sym, ◌∙◌, ap, inl, inr, true, some, List, [], ◌∷◌, ◌++◌, ◌==◌, length, drop, arith,
  Bool-cases, Option-cases, append_assoc,
}
use http_framework.Prelude.Bytes.{Bytes, starts_with, search_for}
use http_framework.Request.Text.{getlines, extend_first, strip_cr, words}
use http_framework.Request.Parse.{
  Parsed, accepted, rejected, out_of_fuel, set_target, request_words, parse_header, header_lines,
  parse_lines, crlf_crlf, ◌>>=◌, parse_request_line, parse_headers,
}
use http_framework.Request.State.{HttpRequest, string_to_method}

-- A match splits the text.
starts_with-split :
    (needle s : Bytes) → starts_with needle s ≡ true → s ≡ needle ++ drop (length needle) s
unfolding starts_with
starts_with-split [] s h = refl
starts_with-split (x ∷ xs) [] h = cc
starts_with-split (x ∷ xs) (y ∷ ys) h = ground (arith, starts_with-split xs ys)

search_for-split :
    (needle s : Bytes) (k : ℕ)
    → search_for needle s ≡ some k
    → (a : Bytes) × (b : Bytes) × (s ≡ a ++ (needle ++ b))
unfolding search_for
search_for-split needle [] k h =
    ([], drop (length needle) [], starts_with-split needle [] (ground arith))
search_for-split needle (x ∷ xs) k h = elim (Bool-cases (starts_with needle (x ∷ xs))) [
  | inl here ↦ ([], drop (length needle) (x ∷ xs), starts_with-split needle (x ∷ xs) here)
  | inr later ↦ elim (Option-cases (search_for needle xs)) [
    | inl missing ↦ absurd (ground arith)
    | inr (j, found) ↦
        let (a, b, e) = search_for-split needle xs j found in (x ∷ a, b, ap (◌∷◌ x) e)
  ]
]

extend_first-nonempty :
    (x : ℕ) (ls : List Bytes) → (l : Bytes) × (m : List Bytes) × (extend_first x ls ≡ l ∷ m)
extend_first-nonempty x [] = (x ∷ [], [], refl)
extend_first-nonempty x (l ∷ ls) = (x ∷ l, ls, refl)

getlines-nonempty :
    (delim : ℕ) (xs ys : Bytes)
    → (l : Bytes) × (ls : List Bytes) × (getlines delim (xs ++ delim ∷ ys) ≡ l ∷ ls)
unfolding getlines
getlines-nonempty delim [] ys = ([], getlines delim ys, ground arith)
getlines-nonempty delim (x ∷ xs) ys = elim (Bool-cases (x == delim)) [
  | inl ends ↦ ([], getlines delim (xs ++ delim ∷ ys), ground arith)
  | inr inside ↦ rw (inside, getlines) (extend_first-nonempty x (getlines delim (xs ++ delim ∷ ys)))
]

getlines-append :
    (delim : ℕ) (xs ys : Bytes)
    → getlines delim (xs ++ delim ∷ ys) ≡ getlines delim (xs ++ delim ∷ []) ++ getlines delim ys
unfolding getlines
getlines-append delim [] ys = ground arith
getlines-append delim (x ∷ xs) ys =
    let (l, ls, e) = getlines-nonempty delim xs [] in ground (arith, e, getlines-append delim xs ys)

-- The header lines end at an empty line, whatever follows.
header_lines-blank :
    (ls ms : List Bytes) → header_lines (ls ++ (13 ∷ []) ∷ ms) ≡ header_lines (ls ++ (13 ∷ []) ∷ [])
unfolding header_lines
header_lines-blank [] ms = refl
header_lines-blank (l ∷ ls) ms = ground (arith, header_lines-blank ls ms)

parse_lines-blank :
    (r : HttpRequest) (l : Bytes) (ls ms : List Bytes)
    → parse_lines r (l ∷ ls ++ (13 ∷ []) ∷ ms) ≡ parse_lines r (l ∷ ls ++ (13 ∷ []) ∷ [])
unfolding parse_lines
parse_lines-blank r l ls ms =
    ap (λ hs. parse_request_line r (strip_cr l) >>= λ q. parse_headers q hs)
      (header_lines-blank ls ms)

getlines-blank : (b : Bytes) → getlines 10 (13 ∷ 10 ∷ b) ≡ (13 ∷ []) ∷ getlines 10 b
unfolding getlines
getlines-blank b = refl

getlines-head :
    (a b : Bytes)
    → getlines 10 (a ++ (crlf_crlf ++ b))
      ≡ getlines 10 ((a ++ 13 ∷ []) ++ 10 ∷ []) ++ (13 ∷ []) ∷ getlines 10 b
getlines-head a b =
    let e : a ++ (crlf_crlf ++ b) ≡ (a ++ 13 ∷ []) ++ 10 ∷ 13 ∷ 10 ∷ b = simp append_assoc in
    rw (e, getlines-append 10 (a ++ 13 ∷ []) (13 ∷ 10 ∷ b), getlines-blank b) refl

-- The head of a buffer that holds an empty line does not depend on what follows that line.
parse_lines-head :
    (r : HttpRequest) (a b : Bytes)
    → parse_lines r (getlines 10 (a ++ (crlf_crlf ++ b)))
      ≡ parse_lines r (getlines 10 ((a ++ 13 ∷ []) ++ 10 ∷ []) ++ (13 ∷ []) ∷ [])
parse_lines-head r a b =
    let (l, ls, e) = getlines-nonempty 10 (a ++ 13 ∷ []) [] in
    rw (getlines-head a b, e) (parse_lines-blank r l ls (getlines 10 b))

pub parse_lines-append :
    (r : HttpRequest) (raw more : Bytes) (k : ℕ)
    → search_for crlf_crlf raw ≡ some k
    → parse_lines r (getlines 10 (raw ++ more)) ≡ parse_lines r (getlines 10 raw)
parse_lines-append r raw more k h =
    let (a, b, e) = search_for-split crlf_crlf raw k h in
    let e' : raw ++ more ≡ a ++ (crlf_crlf ++ (b ++ more)) =
      ap (λ s. s ++ more) e ∙ simp append_assoc in
    rw (e', e) (parse_lines-head r a (b ++ more) ∙ sym (parse_lines-head r a b))

-- Reading the head does not look at the copy of the buffer.
abbrev pub with_raw : HttpRequest → Bytes → HttpRequest
with_raw r raw = record r { raw_request = raw }

abbrev pub map_raw : Parsed → Bytes → Parsed
map_raw (accepted r) raw = accepted (with_raw r raw)
map_raw (rejected r) raw = rejected (with_raw r raw)
map_raw out_of_fuel raw = out_of_fuel

map_raw-bind :
    (m : Parsed) (f : HttpRequest → Parsed) (raw : Bytes)
    → ((q : HttpRequest) → f (with_raw q raw) ≡ map_raw (f q) raw)
    → (map_raw m raw >>= f) ≡ map_raw (m >>= f) raw
map_raw-bind (accepted q) f raw h = h q
map_raw-bind (rejected q) f raw h = refl
map_raw-bind out_of_fuel f raw h = refl

set_target-raw :
    (r : HttpRequest) (target raw : Bytes)
    → set_target (with_raw r raw) target ≡ with_raw (set_target r target) raw
unfolding set_target
set_target-raw r target raw = ground arith

request_words-raw :
    (r : HttpRequest) (ws : List Bytes) (raw : Bytes)
    → request_words (with_raw r raw) ws ≡ map_raw (request_words r ws) raw
unfolding request_words
request_words-raw r (m ∷ t ∷ v ∷ more) raw = ground (
  arith,
  set_target-raw (record r { method = string_to_method m; method_string = m; version = v }) t raw,
)
request_words-raw r (m ∷ t ∷ []) raw = refl
request_words-raw r (m ∷ []) raw = refl
request_words-raw r [] raw = refl

parse_header-raw :
    (r : HttpRequest) (line raw : Bytes)
    → parse_header (with_raw r raw) line ≡ map_raw (parse_header r line) raw
unfolding parse_header
parse_header-raw r line raw = ground arith

parse_headers-raw :
    (r : HttpRequest) (lines : List Bytes) (raw : Bytes)
    → parse_headers (with_raw r raw) lines ≡ map_raw (parse_headers r lines) raw
unfolding parse_headers
parse_headers-raw r [] raw = refl
parse_headers-raw r (line ∷ lines) raw =
    ap (λ m. m >>= λ q. parse_headers q lines) (parse_header-raw r line raw)
    ∙ map_raw-bind (parse_header r line) _ raw (λ q. parse_headers-raw q lines raw)

pub parse_lines-raw :
    (r : HttpRequest) (lines : List Bytes) (raw : Bytes)
    → parse_lines (with_raw r raw) lines ≡ map_raw (parse_lines r lines) raw
unfolding parse_lines parse_request_line
parse_lines-raw r [] raw = refl
parse_lines-raw r (line ∷ lines) raw =
    ap (λ m. m >>= λ q. parse_headers q (header_lines lines))
      (request_words-raw r (words (strip_cr line)) raw)
    ∙ map_raw-bind (request_words r (words (strip_cr line))) _ raw
        (λ q. parse_headers-raw q (header_lines lines) raw)
