-- ===== src/Router/Dispatch.antt =====
-- src/router/RouterHandler.cpp and include/router/RouterHandler.h: the table that a request sees, its
-- registration, and the handling of a request: the matched middlewares around the route or the
-- not-found handler, and the error handler. Handlers and middlewares are the application's: functions
-- on the request and the response `R` that return or throw an exception of `E`. A middleware gets the
-- rest of the chain as `next`, on the request and the response as they are when it calls it.
pub mod Served
pub mod Chain
use http_framework.Prelude.{
  ℕ, zero, suc, ◌≡◌, refl, Bool, true, false, Option, none, some, List, [], ◌∷◌, ◌++◌,
  if◌then◌else◌, get_elem?, length, is_empty,
}
use http_framework.Prelude.Bytes.{Bytes}
use http_framework.Prelude.Maps.{Assoc, bytes_eq}
use http_framework.Request.State.{HttpRequest, set_param}
use http_framework.Router.Pattern.{Atom, star, path_to_atoms, match_atoms}
use http_framework.Router.Table.{Route, MatchIndex, Found, new_route, rebuild_index, find_route}

pub data Outcome (E S : Type 0) : Type 0 where
  returned : S → Outcome E S
  thrown : E → S → Outcome E S

module _ (E R : Type 0) where
  abbrev pub Handler : Type 0
  Handler = HttpRequest → R → Outcome E R

  -- What a chain of middlewares works on.
  abbrev pub Exchange : Type 0
  Exchange = HttpRequest × R

  abbrev pub Next : Type 0
  Next = Exchange → Outcome E Exchange

  pub record MiddlewareInfo : Type 0 where
    pub path : Bytes
    pub path_regex : List Atom
    pub middleware : Next → Next

  pub record Table : Type 0 where
    pub routes : List (Route Handler)
    pub middlewares : List MiddlewareInfo
    pub method_index : Assoc Bytes MatchIndex
    pub not_found_handler : Option Handler
    pub error_handler : Option (E → Handler)

unfoldable pub set_params : Assoc Bytes Bytes → HttpRequest → HttpRequest
unfolding set_param
set_params [] request = request
set_params ((name, value) ∷ params) request = set_params params (set_param request name value)

module _ {E R : Type 0} where
  -- RouterHandler's constructor, with its two default handlers.
  unfoldable pub new_table : Handler E R → (E → Handler E R) → Table E R
  new_table not_found error = record {
    routes = [];
    middlewares = [];
    method_index = [];
    not_found_handler = some not_found;
    error_handler = some error;
  }

  -- mutate: a copy is changed, indexed again, and put in the table's place.
  unfoldable pub mutate : (Table E R → Table E R) → Table E R → Table E R
  unfolding rebuild_index
  mutate fn current =
      let next = fn current in record next { method_index = rebuild_index next.routes }

  unfoldable pub add_route : Bytes → Bytes → Handler E R → Table E R → Table E R
  unfolding mutate new_route
  add_route method path handler =
      mutate (λ t. record t { routes = t.routes ++ new_route method path handler ∷ [] })

  unfoldable pub new_middleware : Bytes → (Next E R → Next E R) → MiddlewareInfo E R
  new_middleware path middleware = record {
    path = path;
    path_regex = if is_empty path then star ∷ [] else path_to_atoms false path;
    middleware = middleware;
  }

  unfoldable pub add_middleware : Bytes → (Next E R → Next E R) → Table E R → Table E R
  unfolding mutate new_middleware
  add_middleware path middleware =
      mutate (λ t. record t { middlewares = t.middlewares ++ new_middleware path middleware ∷ [] })

  unfoldable pub set_not_found_handler : Option (Handler E R) → Table E R → Table E R
  unfolding mutate
  set_not_found_handler handler = mutate (λ t. record t { not_found_handler = handler })

  unfoldable pub set_error_handler : Option (E → Handler E R) → Table E R → Table E R
  unfolding mutate
  set_error_handler handler = mutate (λ t. record t { error_handler = handler })

  -- The middlewares whose expression matches the path, in the order of registration.
  unfoldable pub find_middlewares : List (MiddlewareInfo E R) → Bytes → List (MiddlewareInfo E R)
  find_middlewares [] path = []
  find_middlewares (m ∷ middlewares) path =
      let rest = find_middlewares middlewares path in
      elim (match_atoms m.path_regex path) [ none ↦ rest | some groups ↦ m ∷ rest ]

  -- executeMiddlewareChain at `index`; `fuel` counts the middlewares that are left.
  unfoldable pub chain_from : ℕ → List (MiddlewareInfo E R) → Next E R → ℕ → Next E R
  chain_from zero matched next index exchange = next exchange
  chain_from (suc fuel) matched next index exchange = elim (get_elem? matched index) [
    | none ↦ next exchange
    | some m ↦ m.middleware (chain_from fuel matched next (suc index)) exchange
  ]

  unfoldable pub execute_middleware_chain : List (MiddlewareInfo E R) → Next E R → Next E R
  unfolding chain_from
  execute_middleware_chain matched next = chain_from (length matched) matched next 0

  abbrev pub beside : HttpRequest → Outcome E R → Outcome E (HttpRequest × R)
  beside request (returned response) = returned (request, response)
  beside request (thrown e response) = thrown e (request, response)

  -- The route that was found, with its parameters set in the request, or the not-found handler.
  unfoldable pub answer : Table E R → Option (Found (Handler E R)) → Next E R
  unfolding set_params
  answer table (some (route, params)) (request, response) =
      let named = set_params params request in beside named (route.handler named response)
  answer table none (request, response) = elim table.not_found_handler [
    | none ↦ returned (request, response)
    | some handler ↦ beside request (handler request response)
  ]

  unfoldable pub dispatch_route : Table E R → Next E R
  unfolding find_route answer
  dispatch_route table (request, response) =
      answer table
        (find_route table.routes table.method_index request.method_string request.path [])
        (request, response)

  -- handleRequest: whether the request was handled without an exception. What the error handler throws
  -- leaves the function.
  unfoldable pub with_flag :
      Bool → Outcome E (HttpRequest × R) → Outcome E (Bool × (HttpRequest × R))
  with_flag ok (returned exchange) = returned (ok, exchange)
  with_flag ok (thrown e exchange) = thrown e (ok, exchange)

  unfoldable pub after_chain :
      Table E R → Outcome E (HttpRequest × R) → Outcome E (Bool × (HttpRequest × R))
  unfolding with_flag
  after_chain table (returned exchange) = returned (true, exchange)
  after_chain table (thrown e (request, response)) = elim table.error_handler [
    | none ↦ returned (false, (request, response))
    | some handler ↦ with_flag false (beside request (handler e request response))
  ]

  unfoldable pub handle_request : Table E R → HttpRequest × R → Outcome E (Bool × (HttpRequest × R))
  unfolding after_chain find_middlewares execute_middleware_chain dispatch_route
  handle_request table (request, response) =
      let matched = find_middlewares table.middlewares request.path in
      after_chain table (
        if is_empty matched
        then dispatch_route table (request, response)
        else execute_middleware_chain matched (dispatch_route table) (request, response))
