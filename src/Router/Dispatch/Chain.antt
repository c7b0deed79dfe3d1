-- ===== src/Router/Dispatch/Chain.antt =====
-- src/router/RouterHandler.cpp: the chain of middlewares as a nest of calls, the table's index through
-- every registration, and the handling of a request against both.
use http_framework.Prelude.{
  suc, ◌≡◌, refl, ap, sym, ◌∙◌, Option, none, some, List, [], ◌∷◌, ◌++◌, if◌then◌else◌, get_elem?,
  length, is_empty, arith, append_assoc, length-append,
}
use mathlib.Core.Path.{fun_ext}
use http_framework.Prelude.Bytes.{Bytes, codes, same}
use http_framework.Router.Table.{Route, new_route, rebuild_index, find_route, with_params}
use http_framework.Router.Table.Order.{AreBuilt, scan_routes, find_route-scan}
use http_framework.Router.Dispatch.{
  Handler, Exchange, Next, MiddlewareInfo, Table, new_table, mutate, add_route, add_middleware,
  set_not_found_handler, set_error_handler, find_middlewares, chain_from, execute_middleware_chain,
  answer, dispatch_route, after_chain, handle_request, new_middleware,
}
use http_framework.Router.Dispatch.Served.{
  AreMade, nest, nest-through, through, core, first_route, or_else-first, answer-core,
  after_chain-guarded, serve,
}

module _ {E R : Type 0} where
  get_elem?-past :
      (before : List (MiddlewareInfo E R)) (m : MiddlewareInfo E R)
      (behind : List (MiddlewareInfo E R))
      → get_elem? (before ++ m ∷ behind) (length before) ≡ some m
  get_elem?-past [] m behind = refl
  get_elem?-past (b ∷ before) m behind = get_elem?-past before m behind

  chain_from-nest :
      (before behind : List (MiddlewareInfo E R)) (next : Next E R) (exchange : Exchange E R)
      → chain_from (length behind) (before ++ behind) next (length before) exchange
        ≡ nest behind next exchange
  unfolding chain_from nest
  chain_from-nest before [] next exchange = refl
  chain_from-nest before (m ∷ behind) next exchange =
      let assoc : (before ++ m ∷ []) ++ behind ≡ before ++ m ∷ behind =
        append_assoc before (m ∷ []) behind in
      let count : length (before ++ m ∷ []) ≡ suc (length before) =
        length-append before (m ∷ []) ∙ omega arith in
      let rest : chain_from (length behind) (before ++ m ∷ behind) next (suc (length before))
          ≡ nest behind next =
        fun_ext λ x. rw (sym assoc, sym count) (chain_from-nest (before ++ m ∷ []) behind next x) in
      rw (chain_from, get_elem?-past before m behind) (ap (λ k. m.middleware k exchange) rest)

  -- Running the chain is the nest of its middlewares in the order of registration: each has the
  -- rest of the chain as its continuation, and `next` is at the core.
  pub execute_middleware_chain-nest :
      (matched : List (MiddlewareInfo E R)) (next : Next E R) (exchange : Exchange E R)
      → execute_middleware_chain matched next exchange ≡ nest matched next exchange
  unfolding execute_middleware_chain
  execute_middleware_chain-nest matched next exchange = chain_from-nest [] matched next exchange

  -- The tables that registration makes.
  pub data IsRegistered : Table E R → Type 0 where
    starts : (n : Handler E R) (e : E → Handler E R) → IsRegistered (new_table n e)
    adds_route :
        {t : Table E R} (method path : Bytes) (h : Handler E R)
        → IsRegistered t
        → IsRegistered (add_route method path h t)
    adds_middleware :
        {t : Table E R} (path : Bytes) (m : Next E R → Next E R)
        → IsRegistered t
        → IsRegistered (add_middleware path m t)
    sets_not_found :
        {t : Table E R} (h : Option (Handler E R))
        → IsRegistered t
        → IsRegistered (set_not_found_handler h t)
    sets_error :
        {t : Table E R} (h : Option (E → Handler E R))
        → IsRegistered t
        → IsRegistered (set_error_handler h t)

  AreBuilt-append :
      (routes : List (Route (Handler E R))) (method path : Bytes) (h : Handler E R)
      → AreBuilt routes
      → AreBuilt (routes ++ new_route method path h ∷ [])
  unfolding new_route
  AreBuilt-append [] method path h built = (refl, tt)
  AreBuilt-append (r ∷ routes) method path h (b, built) =
      (b, AreBuilt-append routes method path h built)

  IsIndexed : Table E R → Type 0
  IsIndexed t =
      AreBuilt t.routes × (t.method_index ≡ rebuild_index t.routes) × AreMade t.middlewares

  AreMade-append :
      (middlewares : List (MiddlewareInfo E R)) (path : Bytes) (m : Next E R → Next E R)
      → AreMade middlewares
      → AreMade (middlewares ++ new_middleware path m ∷ [])
  unfolding new_middleware
  AreMade-append [] path m made = (refl, tt)
  AreMade-append (n ∷ middlewares) path m (own, made) =
      (own, AreMade-append middlewares path m made)

  registered-IsIndexed : {t : Table E R} → IsRegistered t → IsIndexed t
  unfolding IsIndexed new_table add_route add_middleware set_not_found_handler set_error_handler
      mutate
  registered-IsIndexed (starts n e) = (tt, refl, tt)
  registered-IsIndexed (adds_route {t} method path h from) =
      let (built, _, made) = registered-IsIndexed from in
      (AreBuilt-append t.routes method path h built, refl, made)
  registered-IsIndexed (adds_middleware {t} path m from) =
      let (built, _, made) = registered-IsIndexed from in
      (built, refl, AreMade-append t.middlewares path m made)
  registered-IsIndexed (sets_not_found {t} h from) =
      let (built, _, made) = registered-IsIndexed from in (built, refl, made)
  registered-IsIndexed (sets_error {t} h from) =
      let (built, _, made) = registered-IsIndexed from in (built, refl, made)

  dispatch_route-core :
      (t : Table E R) → IsIndexed t → (x : Exchange E R) → dispatch_route t x ≡ core t x
  unfolding IsIndexed dispatch_route
  dispatch_route-core t (built, indexed, made) (request, response) =
      let first = scan_routes request.method_string request.path t.routes in
      let get_route = scan_routes (codes "GET") request.path t.routes in
      let fallback = (if same request.method_string (codes "HEAD") then get_route else none) in
      ap
        (λ index.
          answer t (find_route t.routes index request.method_string request.path [])
            (request, response))
        indexed
      ∙ ap (λ found. answer t found (request, response))
          (find_route-scan t.routes request.method_string request.path [] built)
      ∙ ap (λ found. answer t (with_params [] found) (request, response))
          (or_else-first first fallback)
      ∙ answer-core t (first_route request.method_string request.path t.routes) request response

  chain-or_core :
      (matched : List (MiddlewareInfo E R)) (core : Next E R) (x : Exchange E R)
      → (if is_empty matched then core x else execute_middleware_chain matched core x)
        ≡ nest matched core x
  unfolding nest
  chain-or_core [] core x = refl
  chain-or_core (m ∷ matched) core x = execute_middleware_chain-nest (m ∷ matched) core x

  -- With a table that registration made, a request passes, in the order of registration, the middlewares
  -- whose own path's expression matches its path (`.*` where they have none), each with the rest as its
  -- `next`. At the core the first registered route of its method whose expression matches its path, or for
  -- HEAD the first of GET, gets the request with the path's parameters put into its own; without such a
  -- route the not-found handler gets the request, and without that handler the response stays. An
  -- exception from any of them goes to the error handler with the request and the response as they are
  -- then, and the result is false.
  pub handle_request-registered :
      {t : Table E R} (x : Exchange E R) → IsRegistered t → handle_request t x ≡ serve t x
  unfolding handle_request IsIndexed
  handle_request-registered {t} (request, response) from =
      let indexed = registered-IsIndexed from in
      let at_core : dispatch_route t ≡ core t = fun_ext (dispatch_route-core t indexed) in
      let matched = find_middlewares t.middlewares request.path in
      ap (after_chain t) (
        chain-or_core matched (dispatch_route t) (request, response)
        ∙ ap (λ k. nest matched k (request, response)) at_core
        ∙ nest-through t.middlewares request.path (core t) (request, response) indexed.2)
      ∙ after_chain-guarded t (through t.middlewares request.path (core t) (request, response))
