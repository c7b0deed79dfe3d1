-- ===== src/Router/Table.antt =====
-- src/router/RouterHandler.cpp and include/router/RouterHandler.h: a route, the table of routes with
-- the index that rebuildIndex makes, and the search in it. A route's handler is any value of `H`.
pub mod Index
pub mod Order
use http_framework.Prelude.{
  ℕ, zero, suc, ◌+◌, ◌≡◌, Bool, true, false, ◌&&◌, not, Option, none, some, List, [], ◌∷◌, ◌++◌,
  ltb, if◌then◌else◌, get_elem?,
}
use http_framework.Prelude.Bytes.{Bytes, codes, same}
use http_framework.Prelude.Maps.{Assoc, insert, lookup, bytes_eq}
use http_framework.Router.Pattern.{
  Atom, split_path, path_to_atoms, path_param_names, match_path, match_segments, assign,
  is_static_pattern, needs_regex_pattern,
}

pub record Route (H : Type 0) : Type 0 where
  pub method : Bytes
  pub path : Bytes
  pub path_regex : List Atom
  pub param_names : List Bytes
  pub handler : H
  pub pattern_segs : List Bytes
  pub is_static : Bool
  pub needs_regex : Bool

-- The positions of a method's routes: static ones by their text, the others in order.
pub record MatchIndex : Type 0 where
  pub exact : Assoc Bytes ℕ
  pub dynamic_routes : List ℕ

-- A route that was found, and the parameters of its path.
abbrev pub Found : Type 0 → Type 0
Found H = Route H × Assoc Bytes Bytes

-- `params[kv.first] = kv.second` for each of `tmp`.
unfoldable pub copy_params : Assoc Bytes Bytes → Assoc Bytes Bytes → Assoc Bytes Bytes
copy_params [] params = params
copy_params ((name, value) ∷ tmp) params = copy_params tmp (insert name value params)

abbrev pub or_new : Option MatchIndex → MatchIndex
or_new none = record { exact = []; dynamic_routes = [] }
or_new (some index) = index

-- `emplace`: the first entry for a key stays.
unfoldable pub emplace : Bytes → ℕ → Assoc Bytes ℕ → Assoc Bytes ℕ
emplace path i exact = elim (lookup path exact) [ none ↦ insert path i exact | some j ↦ exact ]

abbrev pub is_past : Option ℕ → ℕ → Bool
is_past none idx = false
is_past (some exact_idx) idx = ltb exact_idx idx

module _ {H : Type 0} where
  unfoldable pub new_route : Bytes → Bytes → H → Route H
  new_route method path handler =
      let segs = split_path path in
      record {
        method = method;
        path = path;
        path_regex = path_to_atoms false path;
        param_names = path_param_names false path;
        handler = handler;
        pattern_segs = segs;
        is_static = is_static_pattern segs;
        needs_regex = needs_regex_pattern segs;
      }

  unfoldable pub index_route : ℕ → Route H → MatchIndex → MatchIndex
  unfolding emplace
  index_route i r index =
      if r.is_static
      then record index { exact = emplace r.path i index.exact }
      else record index { dynamic_routes = index.dynamic_routes ++ i ∷ [] }

  -- The loop of rebuildIndex, from position `i` on.
  unfoldable pub index_routes : Assoc Bytes MatchIndex → ℕ → List (Route H) → Assoc Bytes MatchIndex
  unfolding index_route
  index_routes method_index i [] = method_index
  index_routes method_index i (r ∷ routes) =
      index_routes
        (insert r.method (index_route i r (or_new (lookup r.method method_index))) method_index)
        (suc i) routes

  unfoldable pub rebuild_index : List (Route H) → Assoc Bytes MatchIndex
  unfolding index_routes
  rebuild_index routes = index_routes [] 0 routes

  -- How a route that is not static is matched, with its parameters in an empty map.
  unfoldable pub match_dynamic : Route H → Bytes → Option (Assoc Bytes Bytes)
  unfolding match_path match_segments assign
  match_dynamic r path =
      if r.needs_regex
      then match_path r.path_regex r.param_names path
      else elim (match_segments r.pattern_segs (split_path path)) [
        | none ↦ none
        | some values ↦ some (assign r.param_names values [])
      ]

  -- The loop over the routes that are not static, up to the position of the static hit.
  unfoldable pub try_dynamic : List (Route H) → Bytes → Option ℕ → List ℕ → Option (Found H)
  unfolding match_dynamic
  try_dynamic routes path exact [] = none
  try_dynamic routes path exact (idx ∷ idxs) =
      let later = try_dynamic routes path exact idxs in
      if is_past exact idx then none else elim (get_elem? routes idx) [
        | none ↦ later
        | some route ↦ elim (match_dynamic route path) [
          | none ↦ later
          | some tmp ↦ some (route, tmp)
        ]
      ]

  abbrev pub exact_route : List (Route H) → Option ℕ → Option (Found H)
  exact_route routes none = none
  exact_route routes (some idx) = elim (get_elem? routes idx) [
    | none ↦ none
    | some route ↦ some (route, [])
  ]

  abbrev pub with_params : Assoc Bytes Bytes → Option (Found H) → Option (Found H)
  with_params params none = none
  with_params params (some (route, tmp)) = some (route, copy_params tmp params)

  abbrev pub or_else : Option (Found H) → Option (Found H) → Option (Found H)
  or_else none other = other
  or_else (some found) other = some found

  -- matchMethod: the route, and `params` with the path's own.
  unfoldable pub match_method :
      List (Route H) → MatchIndex → Bytes → Assoc Bytes Bytes → Option (Found H)
  unfolding try_dynamic
  match_method routes index path params =
      let exact = lookup path index.exact in
      with_params params
        (or_else (try_dynamic routes path exact index.dynamic_routes) (exact_route routes exact))

  abbrev pub in_method :
      List (Route H) → Option MatchIndex → Bytes → Assoc Bytes Bytes → Option (Found H)
  in_method routes none path params = none
  in_method routes (some index) path params = match_method routes index path params

  -- findRoute: a HEAD request falls back to the routes of GET.
  unfoldable pub find_route :
      List (Route H) → Assoc Bytes MatchIndex → Bytes → Bytes → Assoc Bytes Bytes → Option (Found H)
  unfolding match_method
  find_route routes method_index method path params =
      or_else (in_method routes (lookup method method_index) path params) (
        if same method (codes "HEAD")
        then in_method routes (lookup (codes "GET") method_index) path params
        else none)
