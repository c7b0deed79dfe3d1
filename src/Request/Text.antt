-- ===== src/Request/Text.antt =====
-- The standard-library calls on text that src/http/HttpRequest.cpp makes: std::getline, extraction
-- by >>, the trims by find_first_not_of and find_last_not_of, the <cctype> tests in the C locale,
-- and the conversions std::stoull and strtoull (include/http/HttpRequest.h declares toLowerCase).
use http_framework.Prelude.{
  ℕ, zero, suc, ◌+◌, ◌-◌, ◌*◌, ◌^◌, ◌≤◌, ◌<◌, ◌≡◌, Bool, true, ◌&&◌, ◌||◌, Option, none, some, List,
  [], ◌∷◌, ◌++◌, map, ltb, leb, ◌==◌, if◌then◌else◌, length, is_empty, all, arith,
}
use native.Mathlib.Nat.{one-le-pow, pow-suc, mul-le-mul_left, mul-le-mul_right}
use http_framework.Prelude.Bytes.{Bytes}

-- size_t and unsigned long long have 64 bits.
abbrev pub u64_mod : ℕ
u64_mod = 2 ^ 64

abbrev pub is_digit : ℕ → Bool
is_digit c = leb b'0' c && leb c b'9'

abbrev pub is_lower : ℕ → Bool
is_lower c = leb b'a' c && leb c b'z'

abbrev pub is_upper : ℕ → Bool
is_upper c = leb b'A' c && leb c b'Z'

abbrev pub is_alpha : ℕ → Bool
is_alpha c = is_lower c || is_upper c

abbrev pub is_xdigit : ℕ → Bool
is_xdigit c = is_digit c || (leb b'a' c && leb c b'f') || (leb b'A' c && leb c b'F')

-- isspace: space, tab, newline, vertical tab, form feed, carriage return.
abbrev pub is_space : ℕ → Bool
is_space c = c == 32 || (leb 9 c && leb c 13)

-- The set " \t" of the trims.
abbrev pub is_blank : ℕ → Bool
is_blank c = c == 32 || c == 9

abbrev pub to_lower : ℕ → ℕ
to_lower c = if is_upper c then c + 32 else c

abbrev pub to_upper : ℕ → ℕ
to_upper c = if is_lower c then c - 32 else c

unfoldable pub to_lower_case : Bytes → Bytes
to_lower_case s = map to_lower s

unfoldable pub to_upper_case : Bytes → Bytes
to_upper_case s = map to_upper s

abbrev pub extend_first : ℕ → List Bytes → List Bytes
extend_first c [] = (c ∷ []) ∷ []
extend_first c (l ∷ ls) = (c ∷ l) ∷ ls

-- The texts that std::getline delivers one after the other until it fails: the delimiter ends a
-- line, and no line follows a delimiter that ends the input.
unfoldable pub getlines : ℕ → Bytes → List Bytes
getlines delim [] = []
getlines delim (c ∷ cs) =
    let rest = getlines delim cs in if c == delim then [] ∷ rest else extend_first c rest

-- `if (!line.empty() && line.back() == '\r') line.pop_back();`
unfoldable pub strip_cr : Bytes → Bytes
strip_cr [] = []
strip_cr (c ∷ []) = if c == 13 then [] else c ∷ []
strip_cr (c ∷ d ∷ cs) = c ∷ strip_cr (d ∷ cs)

close_word : Bytes → List Bytes → List Bytes
close_word [] ws = ws
close_word (c ∷ cs) ws = (c ∷ cs) ∷ ws

words_from : Bytes → Bytes → List Bytes
unfolding close_word
words_from word [] = close_word word []
words_from word (c ∷ cs) =
    let next = words_from [] cs in
    let same_word = words_from (word ++ c ∷ []) cs in
    if is_space c then close_word word next else same_word

-- The words that `stream >> word` extracts.
unfoldable pub words : Bytes → List Bytes
unfolding words_from
words s = words_from [] s

-- s.erase(0, s.find_first_not_of(" \t")): all of s if every byte is blank.
unfoldable pub trim_left : Bytes → Bytes
trim_left [] = []
trim_left (c ∷ cs) = let rest = trim_left cs in if is_blank c then rest else c ∷ cs

-- s.erase(s.find_last_not_of(" \t") + 1).
unfoldable pub trim_right : Bytes → Bytes
trim_right [] = []
trim_right (c ∷ cs) =
    let rest = trim_right cs in if is_blank c && is_empty rest then [] else c ∷ rest

-- The value of a digit in base 16; other bytes are not asked for.
abbrev pub hex_val : ℕ → ℕ
hex_val c = if is_digit c then c - 48 else if is_lower c then c - 87 else c - 55

-- strtoull(s, nullptr, 16) on hexadecimal digits; sixteen digits do not overflow.
unfoldable pub hex_number : ℕ → Bytes → ℕ
hex_number acc [] = acc
hex_number acc (c ∷ cs) = hex_number (acc * 16 + hex_val c) cs

-- The digits' value in base 10, and std::stoull on digits: `none` where it throws out_of_range.
unfoldable pub decimal : ℕ → Bytes → ℕ
decimal acc [] = acc
decimal acc (c ∷ cs) = decimal (acc * 10 + (c - 48)) cs

unfoldable pub stoull : Bytes → Option ℕ
unfolding decimal
stoull s = if ltb (decimal 0 s) u64_mod then some (decimal 0 s) else none

-- Sixteen hexadecimal digits fit into 64 bits.
pub hex_val_lt : (c : ℕ) → is_xdigit c ≡ true → hex_val c < 16
hex_val_lt c h = ground arith

-- A number of at most k digits stays below 16 ^ k.
pub hex_number-lt :
    (k acc : ℕ) (s : Bytes)
    → length s ≤ k
    → all is_xdigit s ≡ true
    → hex_number acc s < (acc + 1) * 16 ^ k
unfolding hex_number
hex_number-lt k acc [] h d =
    let p : 1 ≤ 16 ^ k = one-le-pow k 16 (omega arith) in
    let q : (acc + 1) * 1 ≤ (acc + 1) * 16 ^ k = mul-le-mul_left (acc + 1) p in omega arith
hex_number-lt zero acc (c ∷ cs) h d = absurd (omega arith)
hex_number-lt (suc k) acc (c ∷ cs) h d =
    let ih = hex_number-lt k (acc * 16 + hex_val c) cs (omega arith) (ground arith) in
    let p : acc * 16 + hex_val c + 1 ≤ (acc + 1) * 16 = ground (arith, hex_val_lt c) in
    let q : (acc * 16 + hex_val c + 1) * 16 ^ k ≤ (acc + 1) * 16 * 16 ^ k =
      mul-le-mul_right (16 ^ k) p in
    rw (pow-suc 16 k) (omega arith)
