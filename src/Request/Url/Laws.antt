-- ===== src/Request/Url/Laws.antt =====
-- What urlDecode keeps, and its inverse.
use http_framework.Prelude.{
  ℕ, suc, ◌+◌, ◌/◌, ◌%◌, ◌<◌, ◌≡◌, ◌≢◌, refl, Bool, true, false, ◌&&◌, [], ◌∷◌, ◌==◌, if◌then◌else◌,
  ltb, arith, inl, inr, Bool-cases, &&-eq-true,
}
use http_framework.Prelude.Bytes.{Bytes}
use http_framework.Request.Url.{in_hex_table, escape_value, plain, url_decode}

-- The number of slashes, which is one less than the number of a path's segments.
unfoldable pub slashes : Bytes → ℕ
slashes [] = 0
slashes (c ∷ cs) = if c == b'/' then suc (slashes cs) else slashes cs

slashes_digits :
    (a b : ℕ) (rest : Bytes)
    → in_hex_table a ≡ true
    → in_hex_table b ≡ true
    → slashes (a ∷ b ∷ rest) ≡ slashes rest
unfolding slashes
slashes_digits a b rest da db =
    let p : a ≢ b'/' = ground arith in let q : b ≢ b'/' = ground arith in ground arith

slashes-plain :
    (plus : Bool) (c : ℕ) (s t : Bytes)
    → slashes s ≡ slashes t
    → slashes (plain plus c ∷ s) ≡ slashes (c ∷ t)
unfolding slashes
slashes-plain plus c s t e = ground arith

-- Decoding with skipEncodedSlash leaves the number of slashes as it was.
pub slashes-url_decode : (plus : Bool) (s : Bytes) → slashes (url_decode true plus s) ≡ slashes s
unfolding slashes url_decode
slashes-url_decode plus [] = refl
slashes-url_decode plus (c ∷ []) = ground arith
slashes-url_decode plus (c ∷ a ∷ []) = ground (arith, slashes-url_decode plus (a ∷ []))
slashes-url_decode plus (c ∷ a ∷ b ∷ rest) =
    elim (Bool-cases (c == b'%' && (in_hex_table a && in_hex_table b))) [
      | inl escape ↦
          let (percent, digits) =
            &&-eq-true (c == b'%') (in_hex_table a && in_hex_table b) escape in
          let (da, db) = &&-eq-true (in_hex_table a) (in_hex_table b) digits in
          let ih = slashes-url_decode plus rest in
          let skipped = slashes_digits a b rest da db in
          rw (escape, url_decode)
            (elim (Bool-cases (escape_value a b == b'/')) [
              | inl slash ↦ rw slash (ground arith)
              | inr other ↦ rw other (ground arith)
            ])
      | inr other ↦
          rw (other, url_decode)
            (slashes-plain plus c (url_decode true plus (a ∷ b ∷ rest)) (a ∷ b ∷ rest)
              (slashes-url_decode plus (a ∷ b ∷ rest)))
    ]

-- %HH for every byte.
abbrev pub hex_digit : ℕ → ℕ
hex_digit n = if ltb n 10 then 48 + n else 55 + n

unfoldable pub percent_encode : Bytes → Bytes
percent_encode [] = []
percent_encode (c ∷ cs) = b'%' ∷ hex_digit (c / 16) ∷ hex_digit (c % 16) ∷ percent_encode cs

abbrev pub AreBytes : Bytes → Type 0
AreBytes [] = Unit
AreBytes (c ∷ cs) = (c < 256) × AreBytes cs

escape_value-hex_digit :
    (c : ℕ) → c < 256 → escape_value (hex_digit (c / 16)) (hex_digit (c % 16)) ≡ c
unfolding escape_value
escape_value-hex_digit c h = ground arith

in_hex_table-hex_digit : (n : ℕ) → n < 16 → in_hex_table (hex_digit n) ≡ true
in_hex_table-hex_digit n h = ground arith

-- A text of bytes that is percent-encoded byte by byte decodes to itself, where encoded slashes
-- are decoded too.
pub url_decode-percent_encode :
    (plus : Bool) (s : Bytes) → AreBytes s → url_decode false plus (percent_encode s) ≡ s
unfolding url_decode percent_encode
url_decode-percent_encode plus [] h = refl
url_decode-percent_encode plus (c ∷ cs) (h, hs) = rw (
  in_hex_table-hex_digit (c / 16) (omega arith),
  in_hex_table-hex_digit (c % 16) (omega arith),
  escape_value-hex_digit c h,
  url_decode-percent_encode plus cs hs,
)
