-- ===== src/Request/Url.antt =====
-- src/http/HttpRequest.cpp: urlDecode and parseQueryParams, and the map of a query's parameters.
pub mod Laws
use http_framework.Prelude.{
  ℕ, ◌+◌, ◌*◌, Bool, true, false, ◌&&◌, ◌||◌, Option, none, some, List, [], ◌∷◌, ◌==◌,
  if◌then◌else◌, take, drop,
}
use http_framework.Prelude.Bytes.{Bytes, find_byte}
use http_framework.Prelude.Maps.{Assoc, insert, bytes_eq}
use http_framework.Request.Text.{is_xdigit, hex_val, getlines}

-- strchr(kHex, c) finds the terminating NUL as well as the digits.
abbrev pub in_hex_table : ℕ → Bool
in_hex_table c = is_xdigit c || c == 0

-- (hexVal(a) << 4) | hexVal(b) as a char; hexVal is -1 at NUL, whose sign fills the upper bits.
unfoldable pub escape_value : ℕ → ℕ → ℕ
escape_value a b =
    if b == 0 then 255 else if a == 0 then 240 + hex_val b else 16 * hex_val a + hex_val b

abbrev pub plain : Bool → ℕ → ℕ
plain plus_as_space c = if c == b'+' && plus_as_space then 32 else c

unfoldable pub url_decode : Bool → Bool → Bytes → Bytes
unfolding escape_value
url_decode skip plus [] = []
url_decode skip plus (c ∷ []) = plain plus c ∷ []
url_decode skip plus (c ∷ a ∷ []) = plain plus c ∷ url_decode skip plus (a ∷ [])
url_decode skip plus (c ∷ a ∷ b ∷ rest) =
    let behind = url_decode skip plus rest in
    let next = url_decode skip plus (a ∷ b ∷ rest) in
    let kept = c ∷ a ∷ b ∷ behind in
    let decoded = escape_value a b ∷ behind in
    if c == b'%' && (in_hex_table a && in_hex_table b)
    then (if skip && escape_value a b == b'/' then kept else decoded)
    else plain plus c ∷ next

-- urlDecode's default arguments.
abbrev pub decode_component : Bytes → Bytes
decode_component = url_decode false true

-- One parameter: `queries_[urlDecode(name)] = urlDecode(value)`, or "" without `=`.
unfoldable pub add_query_param : Assoc Bytes Bytes → Bytes → Assoc Bytes Bytes
unfolding url_decode
add_query_param queries param = elim (find_byte b'=' param) [
  | none ↦ insert (decode_component param) [] queries
  | some equal_pos ↦
      insert (decode_component (take equal_pos param))
        (decode_component (drop (equal_pos + 1) param)) queries
]

unfoldable pub add_query_params : Assoc Bytes Bytes → List Bytes → Assoc Bytes Bytes
unfolding add_query_param
add_query_params queries [] = queries
add_query_params queries (param ∷ params) = add_query_params (add_query_param queries param) params

unfoldable pub parse_query_params : Assoc Bytes Bytes → Bytes → Assoc Bytes Bytes
unfolding add_query_params getlines
parse_query_params queries query_string = add_query_params queries (getlines b'&' query_string)
