-- ===== src/Router/Pattern.antt =====
-- src/router/RouterHandler.cpp: route patterns. pathToRegex writes a std::regex whose only operators
-- are `([^/]+)` for a parameter and `(.*)` for a wildcard; it is modelled by the list of its atoms,
-- which std::regex_match reads greedily, with backtracking. The other half is the plan of a route:
-- the segments, and which patterns are matched by segments instead of the expression.
pub mod Equivalence
use http_framework.Prelude.{
  ℕ, zero, suc, ◌+◌, ◌≡◌, Bool, true, false, ◌&&◌, ◌||◌, not, Option, none, some, List, [], ◌∷◌,
  ◌++◌, ◌==◌, ltb, if◌then◌else◌, length, is_empty, all, map,
}
use http_framework.Prelude.Bytes.{Bytes, codes, same}
use http_framework.Prelude.Maps.{Assoc, insert, bytes_eq}
use http_framework.Request.Text.{is_alpha, is_digit, extend_first}

abbrev pub is_name_start : ℕ → Bool
is_name_start c = is_alpha c || c == b'_'

abbrev pub is_name_char : ℕ → Bool
is_name_char c = is_alpha c || is_digit c || c == b'_'

abbrev pub has_char : ℕ → Bytes → Bool
has_char c [] = false
has_char c (d ∷ s) = (d == c) || has_char c s

abbrev pub is_meta : ℕ → Bool
is_meta c = has_char c (codes ".*+?^${}()|[]\\")

abbrev pub has_regex_meta : Bytes → Bool
has_regex_meta [] = false
has_regex_meta (c ∷ seg) = is_meta c || has_regex_meta seg

abbrev pub segment_has_colon : Bytes → Bool
segment_has_colon seg = has_char b':' seg

abbrev pub is_pure_param_seg : Bytes → Bool
is_pure_param_seg (c ∷ d ∷ name) = c == b':' && is_name_start d && all is_name_char name
is_pure_param_seg _ = false

-- Cut at every slash, empty segments kept.
unfoldable pub split_path : Bytes → List Bytes
split_path [] = [] ∷ []
split_path (c ∷ path) =
    let rest = split_path path in if c == b'/' then [] ∷ rest else extend_first c rest

pub data Atom : Type 0 where
  lit : ℕ → Atom
  param star : Atom

abbrev pub starts_name : Bytes → Bool
starts_name [] = false
starts_name (c ∷ path) = is_name_start c

-- The expression that pathToRegex writes, without its anchors. `in_name` is set behind a colon that
-- starts a placeholder: the name's characters belong to the placeholder.
unfoldable pub path_to_atoms : Bool → Bytes → List Atom
path_to_atoms in_name [] = []
path_to_atoms in_name (c ∷ path) =
    let inside = path_to_atoms true path in
    let behind = path_to_atoms false path in
    if in_name && is_name_char c
    then inside
    else if c == b':' && starts_name path
    then param ∷ inside
    else if c == b'*'
    then star ∷ behind
    else lit c ∷ behind

-- The names of the placeholders in order. Where `in_name` is set, the first name is the one being read.
unfoldable pub path_param_names : Bool → Bytes → List Bytes
path_param_names in_name [] = if in_name then [] ∷ [] else []
path_param_names in_name (c ∷ path) =
    let inside = path_param_names true path in
    let behind = path_param_names false path in
    let others = if c == b':' && starts_name path then inside else behind in
    if in_name then (if is_name_char c then extend_first c inside else [] ∷ others) else others

abbrev pub group : Bytes → Option (List Bytes) → Option (List Bytes)
group text none = none
group text (some groups) = some (text ∷ groups)

-- As many characters as possible first: `(x*)` before what `next` reads.
unfoldable pub match_many : (ℕ → Bool) → (Bytes → Option (List Bytes)) → Bytes → Option (List Bytes)
match_many ok next [] = group [] (next [])
match_many ok next (c ∷ s) =
    let further = match_many ok next s in
    if ok c
    then elim further [
      | none ↦ group [] (next (c ∷ s))
      | some groups ↦ some (extend_first c groups)
    ]
    else group [] (next (c ∷ s))

abbrev pub not_slash : ℕ → Bool
not_slash c = not (c == b'/')

-- What `.` matches: no line terminator.
abbrev pub not_newline : ℕ → Bool
not_newline c = not (c == 10 || c == 13)

-- `(x+)`.
unfoldable pub match_some : (ℕ → Bool) → (Bytes → Option (List Bytes)) → Bytes → Option (List Bytes)
unfolding match_many
match_some ok next [] = none
match_some ok next (c ∷ s) =
    if ok c
    then elim (match_many ok next s) [ none ↦ none | some groups ↦ some (extend_first c groups) ]
    else none

-- std::regex_match: the whole path; the result is the text of the groups.
unfoldable pub match_atoms : List Atom → Bytes → Option (List Bytes)
unfolding match_some match_many
match_atoms [] [] = some []
match_atoms [] (c ∷ s) = none
match_atoms (lit c ∷ atoms) [] = none
match_atoms (lit c ∷ atoms) (d ∷ s) = if c == d then match_atoms atoms s else none
match_atoms (param ∷ atoms) s = match_some not_slash (match_atoms atoms) s
match_atoms (star ∷ atoms) s = match_many not_newline (match_atoms atoms) s

-- `params[paramNames[i]] = values[i]`, as far as both go.
unfoldable pub assign : List Bytes → List Bytes → Assoc Bytes Bytes → Assoc Bytes Bytes
assign [] values params = params
assign (name ∷ names) [] params = params
assign (name ∷ names) (value ∷ values) params = assign names values (insert name value params)

-- matchPath, with its parameters in an empty map.
unfoldable pub match_path : List Atom → List Bytes → Bytes → Option (Assoc Bytes Bytes)
unfolding match_atoms assign
match_path path_regex names path = elim (match_atoms path_regex path) [
  | none ↦ none
  | some groups ↦ some (assign names groups [])
]

-- matchSegments: the texts of the parameter segments, `none` where the path is no hit.
unfoldable pub match_segments : List Bytes → List Bytes → Option (List Bytes)
match_segments [] [] = some []
match_segments [] (t ∷ path_segs) = none
match_segments (p ∷ pattern_segs) [] = none
match_segments (p ∷ pattern_segs) (t ∷ path_segs) =
    let rest = match_segments pattern_segs path_segs in
    if is_pure_param_seg p
    then (if is_empty t then none else group t rest)
    else if same p t
    then rest
    else none

abbrev pub any_seg : (Bytes → Bool) → List Bytes → Bool
any_seg test [] = false
any_seg test (seg ∷ segs) = test seg || any_seg test segs

abbrev pub is_mixed_seg : Bytes → Bool
is_mixed_seg seg = not (is_pure_param_seg seg) && segment_has_colon seg

-- `isStatic` in Route's constructor: the pattern is compared as a whole.
unfoldable pub is_static_pattern : List Bytes → Bool
is_static_pattern segs = not (any_seg segment_has_colon segs) && not (any_seg has_regex_meta segs)

-- `needsRegex` in Route's constructor: neither the whole text nor the segments will do.
unfoldable pub needs_regex_pattern : List Bytes → Bool
unfolding is_static_pattern
needs_regex_pattern segs =
    if is_static_pattern segs
    then false
    else if any_seg has_regex_meta segs
    then true
    else not (not (any_seg is_mixed_seg segs) && any_seg is_pure_param_seg segs)
