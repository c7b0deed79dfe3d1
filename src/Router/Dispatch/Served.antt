-- ===== src/Router/Dispatch/Served.antt =====
-- src/router/RouterHandler.cpp: what an application that registered middlewares, routes and handlers is
-- promised of a request, told from the lists of its registrations, without the index, the list of matched
-- middlewares or the positions in it.
use http_framework.Prelude.{
  ◌≡◌, refl, ap, ◌∙◌, Bool, true, false, Option, none, some, List, [], ◌∷◌, if◌then◌else◌, is_empty,
  inl, inr, Option-cases,
}
use mathlib.Core.Path.{fun_ext}
use http_framework.Prelude.Bytes.{Bytes, codes, same}
use http_framework.Prelude.Maps.{Assoc, insert, bytes_eq}
use http_framework.Request.State.{HttpRequest, set_param}
use http_framework.Router.Pattern.{Atom, star, path_to_atoms, match_atoms}
use http_framework.Router.Table.{Route, Found, copy_params, with_params, or_else}
use http_framework.Router.Table.Order.{scan_routes}
use http_framework.Router.Dispatch.{
  Outcome, returned, thrown, Handler, Exchange, Next, MiddlewareInfo, Table, set_params,
  find_middlewares, beside, answer, with_flag, after_chain,
}

-- The expression of a middleware's own path; the empty path stands for `.*`.
abbrev pub own_atoms : Bytes → List Atom
own_atoms own = if is_empty own then star ∷ [] else path_to_atoms false own

-- Whether a middleware that was registered for `own` is passed on the way to `path`.
abbrev pub applies : Bytes → Bytes → Bool
applies own path = elim (match_atoms (own_atoms own) path) [ none ↦ false | some groups ↦ true ]

-- Each entry is put into the map, the later ones over the earlier.
unfoldable pub overlay : Assoc Bytes Bytes → Assoc Bytes Bytes → Assoc Bytes Bytes
overlay [] params = params
overlay ((name, value) ∷ entries) params = overlay entries (insert name value params)

module _ {E R : Type 0} where
  -- The middlewares that apply, the first registered outermost, around `core`.
  unfoldable pub through : List (MiddlewareInfo E R) → Bytes → Next E R → Next E R
  through [] path core exchange = core exchange
  through (m ∷ middlewares) path core exchange =
      if applies m.path path
      then m.middleware (through middlewares path core) exchange
      else through middlewares path core exchange

  -- The first route of the method that matches; for HEAD, where there is none, the first of GET.
  abbrev pub first_route : Bytes → Bytes → List (Route (Handler E R)) → Option (Found (Handler E R))
  first_route method path routes = elim (scan_routes method path routes) [
    | some found ↦ some found
    | none ↦ if same method (codes "HEAD") then scan_routes (codes "GET") path routes else none
  ]

  -- A handler works on the response; the request goes on as it is.
  abbrev pub called : Handler E R → Next E R
  called handler (request, response) = elim (handler request response) [
    | returned after ↦ returned (request, after)
    | thrown e after ↦ thrown e (request, after)
  ]

  abbrev pub core : Table E R → Next E R
  core t (request, response) = elim (first_route request.method_string request.path t.routes) [
    | some (route, params) ↦
        called route.handler
          (record request { params = overlay (overlay params []) request.params }, response)
    | none ↦ elim t.not_found_handler [
      | some handler ↦ called handler (request, response)
      | none ↦ returned (request, response)
    ]
  ]

  -- The flag is false where an exception came; what the error handler throws leaves the function.
  abbrev pub guarded :
      Option (E → Handler E R) → Outcome E (Exchange E R) → Outcome E (Bool × Exchange E R)
  guarded handler (returned exchange) = returned (true, exchange)
  guarded none (thrown e exchange) = returned (false, exchange)
  guarded (some handler) (thrown e (request, response)) = elim (handler e request response) [
    | returned after ↦ returned (false, (request, after))
    | thrown later after ↦ thrown later (false, (request, after))
  ]

  abbrev pub serve : Table E R → Exchange E R → Outcome E (Bool × Exchange E R)
  serve t exchange =
      guarded t.error_handler (through t.middlewares exchange.0.path (core t) exchange)

  -- Every middleware is as the constructor made it.
  abbrev pub AreMade : List (MiddlewareInfo E R) → Type 0
  AreMade [] = Unit {0}
  AreMade (m ∷ middlewares) = (m.path_regex ≡ own_atoms m.path) × AreMade middlewares

set_params-overlay :
    (params : Assoc Bytes Bytes) (request : HttpRequest)
    → set_params params request ≡ record request { params = overlay params request.params }
unfolding set_params set_param overlay
set_params-overlay [] request = refl
set_params-overlay ((name, value) ∷ params) request =
    set_params-overlay params (set_param request name value)

copy_params-overlay : (tmp params : Assoc Bytes Bytes) → copy_params tmp params ≡ overlay tmp params
unfolding copy_params overlay
copy_params-overlay [] params = refl
copy_params-overlay ((name, value) ∷ tmp) params =
    copy_params-overlay tmp (insert name value params)

module _ {E R : Type 0} where
  -- A handler's outcome, with the request beside the response.
  beside-called :
      (request : HttpRequest) (o : Outcome E R)
      → beside request o ≡ elim o [
        | returned after ↦ returned (request, after)
        | thrown e after ↦ thrown e (request, after)
      ]
  beside-called request (returned after) = refl
  beside-called request (thrown e after) = refl

  pub answer-core :
      (t : Table E R) (found : Option (Found (Handler E R))) (request : HttpRequest) (response : R)
      → answer t (with_params [] found) (request, response) ≡ elim found [
        | some (route, params) ↦
            called route.handler
              (record request { params = overlay (overlay params []) request.params }, response)
        | none ↦ elim t.not_found_handler [
          | some handler ↦ called handler (request, response)
          | none ↦ returned (request, response)
        ]
      ]
  unfolding answer
  answer-core t (some (route, params)) request response =
      let named = record request { params = overlay (overlay params []) request.params } in
      let same_request : set_params (copy_params params []) request ≡ named =
        ap (λ ps. set_params ps request) (copy_params-overlay params [])
        ∙ set_params-overlay (overlay params []) request in
      ap (λ r. beside r (route.handler r response)) same_request
      ∙ beside-called named (route.handler named response)
  answer-core t none request response = elim (Option-cases t.not_found_handler) [
    | inl missing ↦ rw missing refl
    | inr (handler, there) ↦ rw there (beside-called request (handler request response))
  ]

  pub or_else-first :
      (first second : Option (Found (Handler E R)))
      → or_else first second ≡ elim first [ some found ↦ some found | none ↦ second ]
  or_else-first none second = refl
  or_else-first (some found) second = refl

  pub after_chain-guarded :
      (t : Table E R) (o : Outcome E (Exchange E R)) → after_chain t o ≡ guarded t.error_handler o
  unfolding after_chain with_flag
  after_chain-guarded t (returned exchange) = refl
  after_chain-guarded t (thrown e (request, response)) = elim (Option-cases t.error_handler) [
    | inl missing ↦ rw missing refl
    | inr (handler, there) ↦ rw there (flagged (handler e request response))
  ]
    where
      flagged :
          (o : Outcome E R)
          → with_flag false (beside request o) ≡ elim o [
            | returned after ↦ returned (false, (request, after))
            | thrown later after ↦ thrown later (false, (request, after))
          ]
      flagged (returned after) = refl
      flagged (thrown later after) = refl

  -- The first middleware is the outermost; `next` is at the core.
  unfoldable pub nest : List (MiddlewareInfo E R) → Next E R → Next E R
  nest [] next exchange = next exchange
  nest (m ∷ matched) next exchange = m.middleware (nest matched next) exchange

  nest-elim :
      (groups : Option (List Bytes)) (m : MiddlewareInfo E R) (matched : List (MiddlewareInfo E R))
      (next rest : Next E R) (exchange : Exchange E R)
      → nest matched next ≡ rest
      → nest (elim groups [ none ↦ matched | some g ↦ m ∷ matched ]) next exchange ≡ (
          if elim groups [ none ↦ false | some g ↦ true ]
          then m.middleware rest exchange
          else rest exchange)
  unfolding nest
  nest-elim none m matched next rest exchange e = ap (λ k. k exchange) e
  nest-elim (some g) m matched next rest exchange e = ap (λ k. m.middleware k exchange) e

  -- The nest of the matched middlewares is the way through those that apply.
  pub nest-through :
      (middlewares : List (MiddlewareInfo E R)) (path : Bytes) (next : Next E R)
      (exchange : Exchange E R)
      → AreMade middlewares
      → nest (find_middlewares middlewares path) next exchange
        ≡ through middlewares path next exchange
  unfolding nest find_middlewares through
  nest-through [] path next exchange made = refl
  nest-through (m ∷ middlewares) path next exchange (own, made) =
      let matched = find_middlewares middlewares path in
      ap
        (λ atoms.
          nest (elim (match_atoms atoms path) [ none ↦ matched | some g ↦ m ∷ matched ]) next
            exchange)
        own
      ∙ nest-elim (match_atoms (own_atoms m.path) path) m matched next
          (through middlewares path next) exchange
          (fun_ext λ x. nest-through middlewares path next x made)
