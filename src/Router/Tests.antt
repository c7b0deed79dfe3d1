-- ===== src/Router/Tests.antt =====
-- Runs of the router on small tables.
use http_framework.Prelude.{
  ℕ, ◌+◌, ◌*◌, ◌≡◌, refl, false, none, some, List, [], ◌∷◌, ◌++◌, if◌then◌else◌,
}
use http_framework.Prelude.Bytes.{Bytes, codes, same}
use http_framework.Prelude.Maps.{lookup, insert}
use http_framework.Request.State.{new_request}
use http_framework.Router.Pattern.{
  split_path, path_to_atoms, path_param_names, match_path, match_segments, assign,
  is_static_pattern, needs_regex_pattern, match_atoms, match_many,
}
use http_framework.Router.Pattern.Equivalence.{match_path-segments}
use http_framework.Router.Table.{
  Route, new_route, find_route, rebuild_index, with_params, or_else, copy_params,
}
use http_framework.Router.Table.Order.{scan_routes, find_route-scan}
use http_framework.Router.Dispatch.{
  returned, thrown, Handler, Next, MiddlewareInfo, Table, new_table, mutate, add_route,
  add_middleware, new_middleware, execute_middleware_chain, handle_request,
}
use http_framework.Router.Dispatch.Served.{applies, nest, serve}
use http_framework.Router.Methods.{
  get, post, del, put, patch, head_route, options_route, use_everywhere, use_at,
}
use http_framework.Router.Dispatch.Chain.{
  execute_middleware_chain-nest, starts, adds_route, adds_middleware, handle_request-registered,
}

abbrev reply : ℕ → Handler ℕ ℕ
reply n request response = returned (response + n)

abbrev fails : ℕ → Handler ℕ ℕ
fails e request response = thrown e response

abbrev user_routes : List (Route (Handler ℕ ℕ))
unfolding new_route
user_routes =
    new_route (codes "GET") (codes "/users/:id") (reply 1)
    ∷ new_route (codes "GET") (codes "/users/me") (reply 2)
    ∷ []

-- The parameter route was registered first, so it answers for /users/me.
first_registered :
    find_route user_routes (rebuild_index user_routes) (codes "GET") (codes "/users/me") []
    ≡ some (new_route (codes "GET") (codes "/users/:id") (reply 1), (codes "id", codes "me") ∷ [])
unfolding find_route rebuild_index new_route lookup insert same is_static_pattern split_path
    needs_regex_pattern copy_params path_param_names
first_registered = refl

find_route-scan_example :
    find_route user_routes (rebuild_index user_routes) (codes "HEAD") (codes "/users/me") []
    ≡ with_params [] (
        or_else (scan_routes (codes "HEAD") (codes "/users/me") user_routes) (
          if same (codes "HEAD") (codes "HEAD")
          then scan_routes (codes "GET") (codes "/users/me") user_routes
          else none))
unfolding new_route
find_route-scan_example =
    find_route-scan user_routes (codes "HEAD") (codes "/users/me") [] (refl, (refl, tt))

match_path-segments_example :
    match_path (path_to_atoms false (codes "/u/:id")) (codes "id" ∷ []) (codes "/u/7")
    ≡ elim (match_segments (split_path (codes "/u/:id")) (split_path (codes "/u/7"))) [
      | none ↦ none
      | some values ↦ some (assign (codes "id" ∷ []) values [])
    ]
unfolding split_path is_static_pattern needs_regex_pattern
match_path-segments_example =
    match_path-segments (codes "/u/:id") (codes "/u/7") (codes "id" ∷ []) refl refl

-- The groups of a wildcard and of a parameter behind it: the parameter gets the wildcard's text.
wildcard_shifts_params :
    match_path
      (path_to_atoms false (codes "/f/*/:id"))
      (path_param_names false (codes "/f/*/:id"))
      (codes "/f/a/7")
    ≡ some ((codes "id", codes "a") ∷ [])
unfolding match_path path_to_atoms path_param_names insert
wildcard_shifts_params = refl

abbrev twice : Next ℕ ℕ → Next ℕ ℕ
twice next (request, response) = next (request, 2 * response)

abbrev stops : Next ℕ ℕ → Next ℕ ℕ
stops next (request, response) = returned (request, response)

abbrev two_middlewares : List (MiddlewareInfo ℕ ℕ)
unfolding new_middleware
two_middlewares = new_middleware [] twice ∷ new_middleware [] stops ∷ []

execute_middleware_chain-nest_example :
    execute_middleware_chain two_middlewares (λ x. thrown 1 x) (new_request, 4)
    ≡ nest two_middlewares (λ x. thrown 1 x) (new_request, 4)
execute_middleware_chain-nest_example =
    execute_middleware_chain-nest two_middlewares (λ x. thrown 1 x) (new_request, 4)

abbrev small_table : Table ℕ ℕ
small_table =
    add_middleware [] twice
      (add_route (codes "GET") (codes "/a") (fails 3) (new_table (reply 404) (λ e. reply 500)))

handle_request-registered_example :
    handle_request small_table (new_request, 1) ≡ serve small_table (new_request, 1)
handle_request-registered_example =
    handle_request-registered (new_request, 1)
      (adds_middleware [] twice
        (adds_route (codes "GET") (codes "/a") (fails 3) (starts (reply 404) (λ e. reply 500))))

-- The methods that a table has routes for, in the order of registration.
abbrev methods_of : List (Route (Handler ℕ ℕ)) → List Bytes
methods_of [] = []
methods_of (route ∷ routes) = route.method ∷ methods_of routes

abbrev all_methods : Table ℕ ℕ
all_methods = use_at (codes "/a") stops (
    use_everywhere twice (
      options_route (codes "/a") (reply 7) (
        head_route (codes "/a") (reply 6) (
          patch (codes "/a") (reply 5) (
            del (codes "/a") (reply 4) (
              put (codes "/a") (reply 3) (
                post (codes "/a") (reply 2)
                  (get (codes "/a") (reply 1) (new_table (reply 404) (λ e. reply 500))))))))))

registered_methods :
    methods_of all_methods.routes
    ≡ codes "GET"
      ∷ codes "POST"
      ∷ codes "PUT"
      ∷ codes "DELETE"
      ∷ codes "PATCH"
      ∷ codes "HEAD"
      ∷ codes "OPTIONS"
      ∷ []
unfolding get post put del patch head_route options_route use_everywhere use_at add_route
    add_middleware mutate new_table new_route
registered_methods = refl

-- A middleware without a path of its own is passed over where the path holds a line feed.
line_feed_passes_over : applies [] (codes "/a" ++ 10 ∷ []) ≡ false
unfolding match_atoms match_many
line_feed_passes_over = refl
