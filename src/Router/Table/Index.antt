-- ===== src/Router/Table/Index.antt =====
-- src/router/RouterHandler.cpp: what rebuildIndex's loop leaves in the index for a method and a path.
use http_framework.Prelude.{
  ℕ, suc, ◌≡◌, refl, ap, sym, subst, ◌∙◌, Bool, true, false, ◌&&◌, not, Option, none, some, List,
  [], ◌∷◌, ◌++◌, if◌then◌else◌, Bool-cases, Option-cases, inl, inr, arith, append-nil, append_assoc,
}
use http_framework.Prelude.Bytes.{Bytes, same, same→eq}
use http_framework.Prelude.Maps.{Assoc, insert, lookup, lookup-insert, bytes_eq}
use http_framework.Router.Table.{Route, MatchIndex, or_new, emplace, index_route, index_routes}

abbrev pub either : Option ℕ → Option ℕ → Option ℕ
either none other = other
either (some i) other = some i

abbrev pub none_but : Bool → ℕ → Option ℕ
none_but test i = if test then some i else none

lookup-emplace :
    (path key : Bytes) (i : ℕ) (exact : Assoc Bytes ℕ)
    → lookup path (emplace key i exact) ≡ either (lookup path exact) (none_but (same key path) i)
unfolding emplace
lookup-emplace path key i exact = elim (Option-cases (lookup key exact)) [
  | inl fresh ↦ elim (Bool-cases (same key path)) [
    | inl eq ↦
        let old : lookup path exact ≡ none =
          subst (λ k. lookup k exact ≡ none) (same→eq key path eq) fresh in
        rw (emplace, fresh) (lookup-insert key path i exact ∙ rw (eq, old) refl)
    | inr other ↦ rw (emplace, fresh) (lookup-insert key path i exact ∙ ground arith)
  ]
  | inr (j, taken) ↦ elim (Bool-cases (same key path)) [
    | inl eq ↦
        let old : lookup path exact ≡ some j =
          subst (λ k. lookup k exact ≡ some j) (same→eq key path eq) taken in
        rw (emplace, taken, old) refl
    | inr other ↦ rw (emplace, taken) (ground arith)
  ]
]

abbrev pub view : Bytes → Assoc Bytes MatchIndex → MatchIndex
view method method_index = or_new (lookup method method_index)

append_route :
    (xs rest : List ℕ) (i : ℕ) (static : Bool)
    → (xs ++ (if static then [] else i ∷ [])) ++ rest
      ≡ xs ++ (if not static then i ∷ rest else rest)
append_route xs rest i true = ap (λ ys. ys ++ rest) (append-nil xs)
append_route xs rest i false = append_assoc xs (i ∷ []) rest

module _ {H : Type 0} (method path : Bytes) where
  unfoldable pub first_static : ℕ → List (Route H) → Option ℕ
  first_static i [] = none
  first_static i (r ∷ routes) =
      let rest = first_static (suc i) routes in
      if same r.method method && r.is_static && same r.path path then some i else rest

  unfoldable pub dynamic_from : ℕ → List (Route H) → List ℕ
  dynamic_from i [] = []
  dynamic_from i (r ∷ routes) =
      let rest = dynamic_from (suc i) routes in
      if same r.method method && not r.is_static then i ∷ rest else rest

  -- The view of one more route.
  index_route-exact :
      (i : ℕ) (r : Route H) (index : MatchIndex)
      → lookup path (index_route i r index).exact
        ≡ either (lookup path index.exact) (none_but (r.is_static && same r.path path) i)
  unfolding index_route
  index_route-exact i r index = elim (Bool-cases r.is_static) [
    | inl static ↦ rw (index_route, static) (lookup-emplace path r.path i index.exact)
    | inr dynamic ↦ rw (index_route, dynamic) (ground arith)
  ]

  index_route-dynamic :
      (i : ℕ) (r : Route H) (index : MatchIndex)
      → (index_route i r index).dynamic_routes
        ≡ index.dynamic_routes ++ (if r.is_static then [] else i ∷ [])
  unfolding index_route
  index_route-dynamic i r index = elim (Bool-cases r.is_static) [
    | inl static ↦ rw (index_route, static) (sym (append-nil index.dynamic_routes))
    | inr dynamic ↦ rw (index_route, dynamic) refl
  ]

  abbrev step : Assoc Bytes MatchIndex → ℕ → Route H → Assoc Bytes MatchIndex
  step method_index i r =
      insert r.method (index_route i r (or_new (lookup r.method method_index))) method_index

  view-step :
      (method_index : Assoc Bytes MatchIndex) (i : ℕ) (r : Route H)
      → view method (step method_index i r) ≡ (
          if same r.method method
          then index_route i r (view method method_index)
          else view method method_index)
  view-step method_index i r = elim (Bool-cases (same r.method method)) [
    | inl eq ↦
        let at : r.method ≡ method = same→eq r.method method eq in
        ap or_new (
          lookup-insert r.method method (index_route i r (view r.method method_index)) method_index)
        ∙ rw eq (ap (λ m. index_route i r (view m method_index)) at)
    | inr other ↦
        ap or_new (
          lookup-insert r.method method (index_route i r (view r.method method_index)) method_index)
        ∙ rw other refl
  ]

  pub index_routes-exact :
      (method_index : Assoc Bytes MatchIndex) (i : ℕ) (routes : List (Route H))
      → lookup path (view method (index_routes method_index i routes)).exact
        ≡ either (lookup path (view method method_index).exact) (first_static i routes)
  unfolding index_routes first_static
  index_routes-exact method_index i [] = ground arith
  index_routes-exact method_index i (r ∷ routes) =
      index_routes-exact (step method_index i r) (suc i) routes
      ∙ ap (λ index. either (lookup path index.exact) (first_static (suc i) routes))
          (view-step method_index i r)
      ∙ elim (Bool-cases (same r.method method)) [
        | inl meant ↦ rw (meant, index_route-exact i r (view method method_index)) (ground arith)
        | inr other ↦ rw other refl
      ]

  pub index_routes-dynamic :
      (method_index : Assoc Bytes MatchIndex) (i : ℕ) (routes : List (Route H))
      → (view method (index_routes method_index i routes)).dynamic_routes
        ≡ (view method method_index).dynamic_routes ++ dynamic_from i routes
  unfolding index_routes dynamic_from
  index_routes-dynamic method_index i [] =
      sym (append-nil (view method method_index).dynamic_routes)
  index_routes-dynamic method_index i (r ∷ routes) =
      index_routes-dynamic (step method_index i r) (suc i) routes
      ∙ ap (λ index. index.dynamic_routes ++ dynamic_from (suc i) routes)
          (view-step method_index i r)
      ∙ elim (Bool-cases (same r.method method)) [
        | inl meant ↦
            rw (meant, index_route-dynamic i r (view method method_index))
              (append_route (view method method_index).dynamic_routes (dynamic_from (suc i) routes)
                i r.is_static)
        | inr other ↦ rw other refl
      ]
