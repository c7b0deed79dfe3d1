-- ===== src/Router/Table/Order.antt =====
-- src/router/RouterHandler.cpp: the search through the index against a scan of the routes in the
-- order of their registration, each by its regular expression.
use http_framework.Prelude.{
  ℕ, suc, ◌≤◌, ◌<◌, ◌≡◌, refl, ap, sym, subst, ◌∙◌, Bool, true, false, ◌&&◌, not, Option, none,
  some, List, [], ◌∷◌, ◌++◌, if◌then◌else◌, length, get_elem?, Bool-cases, Option-cases, inl, inr,
  arith, append_assoc, length-append,
}
use http_framework.Prelude.Bytes.{Bytes, codes, same}
use http_framework.Prelude.Maps.{Assoc, lookup, bytes_eq}
use http_framework.Router.Pattern.{split_path, path_param_names, match_path, needs_regex_pattern}
use http_framework.Router.Pattern.Equivalence.{match_path-static, match_path-segments}
use http_framework.Router.Table.Index.{
  first_static, dynamic_from, view, index_routes-exact, index_routes-dynamic,
}
use http_framework.Router.Table.{
  Route, MatchIndex, Found, new_route, rebuild_index, match_dynamic, is_past, try_dynamic,
  exact_route, with_params, or_else, match_method, in_method, find_route,
}

module _ {H : Type 0} where
  abbrev pub first_of : Route H → Option (Assoc Bytes Bytes) → Option (Found H) → Option (Found H)
  first_of r none later = later
  first_of r (some tmp) later = some (r, tmp)

  -- The first route of the method whose expression matches.
  unfoldable pub scan_routes : Bytes → Bytes → List (Route H) → Option (Found H)
  scan_routes method path [] = none
  scan_routes method path (r ∷ routes) =
      let rest = scan_routes method path routes in
      if same r.method method
      then first_of r (match_path r.path_regex r.param_names path) rest
      else rest

  -- Every route is as the constructor made it.
  abbrev pub AreBuilt : List (Route H) → Type 0
  AreBuilt [] = Unit
  AreBuilt (r ∷ routes) = (r ≡ new_route r.method r.path r.handler) × AreBuilt routes

  module _ (method path : Bytes) where
    first_static-bound :
        (i e : ℕ) (routes : List (Route H)) → first_static method path i routes ≡ some e → i ≤ e
    unfolding first_static
    first_static-bound i e [] h = absurd (ground arith)
    first_static-bound i e (r ∷ routes) h =
        elim (Bool-cases (same r.method method && r.is_static && same r.path path)) [
          | inl here ↦ ground arith
          | inr later ↦
              let rest = first_static-bound (suc i) e routes (rw later at h) in omega arith
        ]

    -- Behind a static hit nothing is tried.
    try_dynamic-past :
        (all : List (Route H)) (e i : ℕ) (routes : List (Route H))
        → e < i
        → try_dynamic all path (some e) (dynamic_from method path i routes) ≡ none
    unfolding dynamic_from try_dynamic
    try_dynamic-past all e i [] h = refl
    try_dynamic-past all e i (r ∷ routes) h =
        ground (arith, try_dynamic-past all e (suc i) routes (omega arith))

  get_elem?-append :
      (before : List (Route H)) (r : Route H) (routes : List (Route H))
      → get_elem? (before ++ r ∷ routes) (length before) ≡ some r
  get_elem?-append [] r routes = refl
  get_elem?-append (q ∷ before) r routes = get_elem?-append before r routes

  match_path-built :
      (r : Route H) (path : Bytes)
      → r ≡ new_route r.method r.path r.handler
      → (r.is_static ≡ true)
      → match_path r.path_regex r.param_names path ≡ (if same r.path path then some [] else none)
  unfolding new_route
  match_path-built r path built =
      subst
        (λ q.
          q.is_static ≡ true
          → match_path q.path_regex q.param_names path
            ≡ (if same q.path path then some [] else none))
        (sym built) (match_path-static r.path path (path_param_names false r.path))

  match_dynamic-built :
      (r : Route H) (path : Bytes)
      → r ≡ new_route r.method r.path r.handler
      → r.is_static ≡ false
      → match_dynamic r path ≡ match_path r.path_regex r.param_names path
  unfolding match_dynamic new_route
  match_dynamic-built r path built =
      subst
        (λ q.
          q.is_static ≡ false → match_dynamic q path ≡ match_path q.path_regex q.param_names path)
        (sym built)
        (λ dynamic. elim (Bool-cases (needs_regex_pattern (split_path r.path))) [
          | inl regex ↦ rw regex refl
          | inr segments ↦
              rw
                (
                  segments,
                  match_path-segments r.path path (path_param_names false r.path) dynamic segments,
                )
                refl
        ])

  try_dynamic-step :
      (all : List (Route H)) (path : Bytes) (exact : Option ℕ) (idx : ℕ) (idxs : List ℕ)
      (r : Route H)
      → get_elem? all idx ≡ some r
      → is_past exact idx ≡ false
      → try_dynamic all path exact (idx ∷ idxs)
        ≡ first_of r (match_dynamic r path) (try_dynamic all path exact idxs)
  unfolding try_dynamic
  try_dynamic-step all path exact idx idxs r at near = elim (Option-cases (match_dynamic r path)) [
    | inl miss ↦ rw (near, at, miss) refl
    | inr (tmp, hit) ↦ rw (near, at, hit) refl
  ]

  -- A static hit lies behind every position before the routes that are searched.
  first_static-near :
      (method path : Bytes) (i : ℕ) (routes : List (Route H))
      → is_past (first_static method path (suc i) routes) i ≡ false
  first_static-near method path i routes =
      elim (Option-cases (first_static method path (suc i) routes)) [
        | inl none_static ↦ rw none_static refl
        | inr (e, hit) ↦
            let behind = first_static-bound method path (suc i) e routes hit in
            rw hit (ground arith)
      ]

  outcome : List (Route H) → Bytes → Option ℕ → List ℕ → Option (Found H)
  outcome all path exact dynamic =
      or_else (try_dynamic all path exact dynamic) (exact_route all exact)

  exact_route-at :
      (all : List (Route H)) (i : ℕ) (r : Route H)
      → get_elem? all i ≡ some r
      → exact_route all (some i) ≡ some (r, [])
  exact_route-at all i r at = rw (exact_route, at) refl

  outcome-nothing : (all : List (Route H)) (path : Bytes) → outcome all path none [] ≡ none
  unfolding outcome try_dynamic
  outcome-nothing all path = refl

  -- One more route in front: `meant`, `static` and `same_path` say what it is, `found` is its match.
  outcome-cons :
      (all : List (Route H)) (path : Bytes) (r : Route H) (i : ℕ) (exact : Option ℕ)
      → (dynamic : List ℕ) (scanned : Option (Found H)) (found : Option (Assoc Bytes Bytes))
      → (meant static same_path : Bool) → get_elem? all i ≡ some r
      → is_past exact i ≡ false
      → try_dynamic all path (some i) dynamic ≡ none
      → outcome all path exact dynamic ≡ scanned
      → (static ≡ true → found ≡ (if same_path then some [] else none))
      → (static ≡ false → match_dynamic r path ≡ found)
      → outcome all path
          (if meant && static && same_path then some i else exact)
          (if meant && not static then i ∷ dynamic else dynamic)
        ≡ (if meant then first_of r found scanned else scanned)
  unfolding outcome
  outcome-cons all path r i exact dynamic scanned found false static same_path at near past rest s
        d =
      rest
  outcome-cons all path r i exact dynamic scanned found true true true at near past rest s d =
      rw past (exact_route-at all i r at ∙ rw (s refl) refl)
  outcome-cons all path r i exact dynamic scanned found true true false at near past rest s d =
      rw (s refl) rest
  outcome-cons all path r i exact dynamic scanned found true false same_path at near past rest s d =
      rw (try_dynamic-step all path exact i dynamic r at near, d refl)
        (elim (Option-cases found) [ inl miss ↦ rw miss rest | inr (tmp, hit) ↦ rw hit refl ])

  module _ (method path : Bytes) where
    -- The index of the routes behind `before` finds what the scan of them finds.
    outcome-scan :
        (before routes : List (Route H))
        → AreBuilt routes
        → outcome
            (before ++ routes)
            path
            (first_static method path (length before) routes)
            (dynamic_from method path (length before) routes)
          ≡ scan_routes method path routes
    unfolding first_static dynamic_from scan_routes
    outcome-scan before [] built = outcome-nothing (before ++ []) path
    outcome-scan before (r ∷ routes) (b, built) =
        let assoc : (before ++ r ∷ []) ++ routes ≡ before ++ r ∷ routes =
          append_assoc before (r ∷ []) routes in
        let count : length (before ++ r ∷ []) ≡ suc (length before) =
          length-append before (r ∷ []) ∙ omega arith in
        let rest : outcome (before ++ r ∷ routes) path
              (first_static method path (suc (length before)) routes)
              (dynamic_from method path (suc (length before)) routes)
            ≡ scan_routes method path routes =
          rw (sym assoc, sym count) (outcome-scan (before ++ r ∷ []) routes built) in
        outcome-cons (before ++ r ∷ routes) path r (length before)
          (first_static method path (suc (length before)) routes)
          (dynamic_from method path (suc (length before)) routes) (scan_routes method path routes)
          (match_path r.path_regex r.param_names path) (same r.method method) r.is_static
          (same r.path path) (get_elem?-append before r routes)
          (first_static-near method path (length before) routes)
          (try_dynamic-past method path (before ++ r ∷ routes) (length before) (suc (length before))
            routes (omega arith))
          rest (match_path-built r path b) (match_dynamic-built r path b)

    match_method-scan :
        (routes : List (Route H)) (params : Assoc Bytes Bytes)
        → AreBuilt routes
        → match_method routes (view method (rebuild_index routes)) path params
          ≡ with_params params (scan_routes method path routes)
    unfolding match_method rebuild_index lookup outcome
    match_method-scan routes params built =
        rw
          (index_routes-exact method path [] 0 routes, index_routes-dynamic method path [] 0 routes)
          (ap (with_params params) (outcome-scan [] routes built))

  in_method-view :
      (routes : List (Route H)) (method_index : Assoc Bytes MatchIndex) (method path : Bytes)
      → (params : Assoc Bytes Bytes)
      → in_method routes (lookup method method_index) path params
        ≡ match_method routes (view method method_index) path params
  unfolding match_method lookup
  in_method-view routes method_index method path params =
      elim (Option-cases (lookup method method_index)) [
        | inl absent ↦ rw absent refl
        | inr (index, found) ↦ rw found refl
      ]

  with_params-or_else :
      (params : Assoc Bytes Bytes) (a c : Option (Found H)) (test : Bool)
      → or_else (with_params params a) (if test then with_params params c else none)
        ≡ with_params params (or_else a (if test then c else none))
  with_params-or_else params none c true = refl
  with_params-or_else params none c false = refl
  with_params-or_else params (some found) c test = refl

  -- The search through the index returns what a scan in the order of registration returns, each route
  -- by its regular expression: the first route of the method that matches, or for HEAD, where there
  -- is none, the first of GET, with the path's parameters added to `params`. The routes must be as
  -- Route's constructor made them.
  pub find_route-scan :
      (routes : List (Route H)) (method path : Bytes) (params : Assoc Bytes Bytes)
      → AreBuilt routes
      → find_route routes (rebuild_index routes) method path params
        ≡ with_params params (
            or_else
              (scan_routes method path routes)
              (if same method (codes "HEAD") then scan_routes (codes "GET") path routes else none))
  unfolding find_route
  find_route-scan routes method path params built =
      let in_order : (m : Bytes)
          → in_method routes (lookup m (rebuild_index routes)) path params
            ≡ with_params params (scan_routes m path routes) =
        λ m.
          in_method-view routes (rebuild_index routes) m path params
          ∙ match_method-scan m path routes params built in
      rw (find_route, in_order method, in_order (codes "GET"))
        (with_params-or_else params (scan_routes method path routes)
          (scan_routes (codes "GET") path routes) (same method (codes "HEAD")))
