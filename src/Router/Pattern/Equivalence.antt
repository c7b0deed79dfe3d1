-- ===== src/Router/Pattern/Equivalence.antt =====
-- src/router/RouterHandler.cpp: the segment matcher and the comparison of whole texts against the
-- expression that pathToRegex writes.
use http_framework.Prelude.{
  ℕ, ◌≡◌, refl, ap, subst, ◌∙◌, Bool, true, false, ◌||◌, Option, none, some, List, [], ◌∷◌, ◌++◌,
  ◌==◌, if◌then◌else◌, is_empty, all, Bool-cases, Option-cases, inl, inr, arith,
}
use http_framework.Prelude.Bytes.{Bytes, same}
use http_framework.Request.Text.{extend_first}
use http_framework.Router.Pattern.{
  is_name_char, is_meta, has_regex_meta, segment_has_colon, is_pure_param_seg, split_path, lit,
  param, path_to_atoms, group, match_many, match_some, match_atoms, not_slash, assign, match_path,
  match_segments, any_seg, is_mixed_seg, is_static_pattern, needs_regex_pattern,
}

-- The segments behind the first, each with its slash.
unfoldable pub tail_text : List Bytes → Bytes
tail_text [] = []
tail_text (s ∷ ss) = b'/' ∷ (s ++ tail_text ss)

abbrev pub AreSegments : List Bytes → Type 0
AreSegments [] = Unit
AreSegments (s ∷ ss) = (all not_slash s ≡ true) × AreSegments ss

pub record IsCut (text first : Bytes) (others : List Bytes) : Type 0 where
  pub segments : split_path text ≡ first ∷ others
  pub joined : text ≡ first ++ tail_text others
  pub no_slash : AreSegments (first ∷ others)

pub split_path-IsCut :
    (text : Bytes) → (first : Bytes) × (others : List Bytes) × IsCut text first others
unfolding split_path tail_text
split_path-IsCut [] = ([], [], record { segments = refl; joined = refl; no_slash = (refl, tt) })
split_path-IsCut (c ∷ text) =
    let (first, others, split) = split_path-IsCut text in
    elim (Bool-cases (c == b'/')) [
      | inl slash ↦ (
        [],
        first ∷ others,
        record {
          segments = rw (slash, split.segments) refl;
          joined = let at : c ≡ 47 = ground arith in rw at (ap (◌∷◌ 47) split.joined);
          no_slash = (refl, split.no_slash);
        },
      )
      | inr other ↦ (
        c ∷ first,
        others,
        record {
          segments = rw (other, split.segments) refl;
          joined = ap (◌∷◌ c) split.joined;
          no_slash = (rw other (split.no_slash.0), split.no_slash.1);
        },
      )
    ]

-- A pattern whose matching by segments can be compared: no operator, no stray colon.
abbrev pub IsSimpleSeg : Bytes → Type 0
IsSimpleSeg seg = (has_regex_meta seg ≡ false) × (is_mixed_seg seg ≡ false)

abbrev pub AreSimpleSegs : List Bytes → Type 0
AreSimpleSegs [] = Unit
AreSimpleSegs (s ∷ ss) = IsSimpleSeg s × AreSimpleSegs ss

-- No match starts with a character that is no slash.
at_boundary :
    (ps : List Bytes) (c : ℕ) (s : Bytes)
    → not_slash c ≡ true
    → match_atoms (path_to_atoms false (tail_text ps)) (c ∷ s) ≡ none
unfolding tail_text path_to_atoms match_atoms
at_boundary [] c s h = refl
at_boundary (p ∷ ps) c s h = ground arith

end_of_name :
    (ps : List Bytes) → path_to_atoms true (tail_text ps) ≡ path_to_atoms false (tail_text ps)
unfolding tail_text path_to_atoms
end_of_name [] = refl
end_of_name (p ∷ ps) = refl

path_to_atoms-name :
    (name : Bytes) (ps : List Bytes)
    → all is_name_char name ≡ true
    → path_to_atoms true (name ++ tail_text ps) ≡ path_to_atoms false (tail_text ps)
unfolding path_to_atoms
path_to_atoms-name [] ps h = end_of_name ps
path_to_atoms-name (c ∷ name) ps h = ground (arith, path_to_atoms-name name ps)

path_to_atoms-lit :
    (c : ℕ) (s : Bytes)
    → is_meta c ≡ false
    → (c == b':') ≡ false
    → path_to_atoms false (c ∷ s) ≡ lit c ∷ path_to_atoms false s
unfolding path_to_atoms
path_to_atoms-lit c s h k = ground arith

match_atoms-text :
    (p t : Bytes) (ps ts : List Bytes)
    → has_regex_meta p ≡ false
    → segment_has_colon p ≡ false
    → all not_slash p ≡ true
    → all not_slash t ≡ true
    → match_atoms (path_to_atoms false (p ++ tail_text ps)) (t ++ tail_text ts)
      ≡ (if same p t then match_atoms (path_to_atoms false (tail_text ps)) (tail_text ts) else none)
unfolding match_atoms tail_text same
match_atoms-text [] [] ps ts m k u v = refl
match_atoms-text [] (d ∷ t) ps ts m k u v = at_boundary ps d (t ++ tail_text ts) (ground arith)
match_atoms-text (c ∷ p) [] ps [] m k u v =
    rw (path_to_atoms-lit c (p ++ tail_text ps) (ground arith) (ground arith)) refl
match_atoms-text (c ∷ p) [] ps (s ∷ ts) m k u v =
    rw (path_to_atoms-lit c (p ++ tail_text ps) (ground arith) (ground arith)) (ground arith)
match_atoms-text (c ∷ p) (d ∷ t) ps ts m k u v =
    let further =
      match_atoms-text p t ps ts (ground arith) (ground arith) (ground arith) (ground arith) in
    rw (path_to_atoms-lit c (p ++ tail_text ps) (ground arith) (ground arith))
      (ground (arith, further))

match_many-text :
    (next : Bytes → Option (List Bytes)) (t : Bytes) (ts : List Bytes)
    → ((c : ℕ) (s : Bytes) → not_slash c ≡ true → next (c ∷ s) ≡ none)
    → all not_slash t ≡ true
    → match_many not_slash next (t ++ tail_text ts) ≡ group t (next (tail_text ts))
unfolding match_many tail_text
match_many-text next [] [] stuck v = refl
match_many-text next [] (s ∷ ts) stuck v = refl
match_many-text next (c ∷ t) ts stuck v =
    let further = match_many-text next t ts stuck (ground arith) in
    let here = stuck c (t ++ tail_text ts) (ground arith) in
    elim (Option-cases (next (tail_text ts))) [
      | inl e ↦ rw (further, e, here) (ground arith)
      | inr (groups, e) ↦ rw (further, e) (ground arith)
    ]

match_some-text :
    (next : Bytes → Option (List Bytes)) (t : Bytes) (ts : List Bytes)
    → ((c : ℕ) (s : Bytes) → not_slash c ≡ true → next (c ∷ s) ≡ none)
    → all not_slash t ≡ true
    → match_some not_slash next (t ++ tail_text ts)
      ≡ (if is_empty t then none else group t (next (tail_text ts)))
unfolding match_some tail_text
match_some-text next [] [] stuck v = refl
match_some-text next [] (s ∷ ts) stuck v = refl
match_some-text next (c ∷ t) ts stuck v =
    let further = match_many-text next t ts stuck (ground arith) in
    elim (Option-cases (next (tail_text ts))) [
      | inl e ↦ rw (further, e) (ground arith)
      | inr (groups, e) ↦ rw (further, e) (ground arith)
    ]

path_to_atoms-param :
    (p : Bytes) (ps : List Bytes)
    → is_pure_param_seg p ≡ true
    → path_to_atoms false (p ++ tail_text ps) ≡ param ∷ path_to_atoms false (tail_text ps)
unfolding path_to_atoms
path_to_atoms-param [] ps h = absurd (ground arith)
path_to_atoms-param (c ∷ []) ps h = absurd (ground arith)
path_to_atoms-param (c ∷ d ∷ name) ps h = ground (arith, path_to_atoms-name name ps)

module _ (p t : Bytes) (ps ts : List Bytes) (simple : IsSimpleSeg p) (u : all not_slash p ≡ true)
    (v : all not_slash t ≡ true)
    (rest : match_atoms (path_to_atoms false (tail_text ps)) (tail_text ts)
      ≡ match_segments ps ts) where
  -- The first segments, when the ones behind them are matched alike.
  match_atoms-segment :
      match_atoms (path_to_atoms false (p ++ tail_text ps)) (t ++ tail_text ts)
      ≡ match_segments (p ∷ ps) (t ∷ ts)
  unfolding match_segments match_atoms
  match_atoms-segment = elim (Bool-cases (is_pure_param_seg p)) [
    | inl pure ↦
        rw (path_to_atoms-param p ps pure, pure)
          (match_some-text (match_atoms (path_to_atoms false (tail_text ps))) t ts (at_boundary ps)
              v
            ∙ rw rest refl)
    | inr text ↦
        match_atoms-text p t ps ts simple.0 (ground (arith, simple.1)) u v ∙ rw (rest, text) refl
  ]

match_atoms-segments :
    (ps ts : List Bytes)
    → AreSimpleSegs ps
    → AreSegments ps
    → AreSegments ts
    → match_atoms (path_to_atoms false (tail_text ps)) (tail_text ts) ≡ match_segments ps ts
unfolding match_segments match_atoms tail_text path_to_atoms
match_atoms-segments [] [] a b c = refl
match_atoms-segments [] (t ∷ ts) a b c = refl
match_atoms-segments (p ∷ ps) [] a b c = refl
match_atoms-segments (p ∷ ps) (t ∷ ts) (simple, a) (u, b) (v, c) =
    match_atoms-segment p t ps ts simple u v (match_atoms-segments ps ts a b c)

simple_segs :
    (segs : List Bytes)
    → any_seg has_regex_meta segs ≡ false
    → any_seg is_mixed_seg segs ≡ false
    → AreSimpleSegs segs
simple_segs [] h k = tt
simple_segs (seg ∷ segs) h k =
    ((ground arith, ground arith), simple_segs segs (ground arith) (ground arith))

match_atoms-split :
    {pattern path p t : Bytes} {ps ts : List Bytes}
    → IsCut pattern p ps
    → IsCut path t ts
    → AreSimpleSegs (split_path pattern)
    → match_atoms (path_to_atoms false pattern) path
      ≡ match_segments (split_path pattern) (split_path path)
match_atoms-split {pattern} {path} {p} {t} {ps} {ts} a b h =
    let simple : AreSimpleSegs (p ∷ ps) = subst AreSimpleSegs a.segments h in
    rw (a.segments, b.segments, a.joined, b.joined)
      (match_atoms-segment p t ps ts simple.0 (a.no_slash.0) (b.no_slash.0)
        (match_atoms-segments ps ts simple.1 (a.no_slash.1) (b.no_slash.1)))

-- A simple pattern is matched by segments as by its expression, with the same groups.
pub match_atoms-split_path :
    (pattern path : Bytes)
    → any_seg has_regex_meta (split_path pattern) ≡ false
    → any_seg is_mixed_seg (split_path pattern) ≡ false
    → match_atoms (path_to_atoms false pattern) path
      ≡ match_segments (split_path pattern) (split_path path)
match_atoms-split_path pattern path meta mixed =
    let (p, ps, a) = split_path-IsCut pattern in
    let (t, ts, b) = split_path-IsCut path in
    match_atoms-split a b (simple_segs (split_path pattern) meta mixed)

any_seg-extend_first :
    (test : ℕ → Bool) (seg_test : Bytes → Bool) (c : ℕ) (segs : List Bytes)
    → ((c : ℕ) (s : Bytes) → seg_test (c ∷ s) ≡ (test c || seg_test s))
    → seg_test [] ≡ false
    → any_seg seg_test (extend_first c segs) ≡ (test c || any_seg seg_test segs)
any_seg-extend_first test seg_test c [] step b = ground (arith, step c [])
any_seg-extend_first test seg_test c (seg ∷ segs) step b = ground (arith, step c seg)

any_seg-split_path :
    (test : ℕ → Bool) (seg_test : Bytes → Bool) (text : Bytes)
    → test b'/' ≡ false
    → seg_test [] ≡ false
    → ((c : ℕ) (s : Bytes) → seg_test (c ∷ s) ≡ (test c || seg_test s))
    → any_seg seg_test (split_path text) ≡ seg_test text
unfolding split_path
any_seg-split_path test seg_test [] a b c = ground arith
any_seg-split_path test seg_test (d ∷ text) a b c =
    let rest = any_seg-split_path test seg_test text a b c in
    elim (Bool-cases (d == b'/')) [
      | inl slash ↦ let at : d ≡ 47 = ground arith in rw (at, c 47 text) (ground (arith, rest))
      | inr other ↦
          rw (other, c d text)
            (any_seg-extend_first test seg_test d (split_path text) c b ∙ rw rest refl)
    ]

-- Without colons and operators the expression is the text itself.
match_atoms-literal :
    (pattern path : Bytes)
    → has_regex_meta pattern ≡ false
    → segment_has_colon pattern ≡ false
    → match_atoms (path_to_atoms false pattern) path ≡ (if same pattern path then some [] else none)
unfolding match_atoms same path_to_atoms
match_atoms-literal [] [] h k = refl
match_atoms-literal [] (d ∷ path) h k = refl
match_atoms-literal (c ∷ pattern) [] h k =
    rw (path_to_atoms-lit c pattern (ground arith) (ground arith)) refl
match_atoms-literal (c ∷ pattern) (d ∷ path) h k =
    rw (path_to_atoms-lit c pattern (ground arith) (ground arith))
      (ground (arith, match_atoms-literal pattern path (ground arith) (ground arith)))

assign_nothing : (names : List Bytes) → assign names [] [] ≡ []
unfolding assign
assign_nothing [] = refl
assign_nothing (name ∷ names) = refl

-- A static route's expression reads the pattern's own text and nothing else.
pub match_path-static :
    (pattern path : Bytes) (names : List Bytes)
    → is_static_pattern (split_path pattern) ≡ true
    → match_path (path_to_atoms false pattern) names path
      ≡ (if same pattern path then some [] else none)
unfolding match_path is_static_pattern assign
match_path-static pattern path names h =
    let colon =
      any_seg-split_path (λ c. c == b':') segment_has_colon pattern refl refl (λ c s. refl) in
    let meta = any_seg-split_path is_meta has_regex_meta pattern refl refl (λ c s. refl) in
    rw (match_path, match_atoms-literal pattern path (ground (arith, meta)) (ground (arith, colon)))
      (elim (Bool-cases (same pattern path)) [
        | inl same_text ↦ rw same_text (ap some (assign_nothing names))
        | inr other ↦ rw other refl
      ])

-- A route that is matched by segments has the hits of its expression, with the same parameters.
pub match_path-segments :
    (pattern path : Bytes) (names : List Bytes)
    → is_static_pattern (split_path pattern) ≡ false
    → needs_regex_pattern (split_path pattern) ≡ false
    → match_path (path_to_atoms false pattern) names path
      ≡ elim (match_segments (split_path pattern) (split_path path)) [
        | none ↦ none
        | some values ↦ some (assign names values [])
      ]
unfolding match_path needs_regex_pattern
match_path-segments pattern path names s h =
    rw (match_path, match_atoms-split_path pattern path (ground arith) (ground arith)) refl
