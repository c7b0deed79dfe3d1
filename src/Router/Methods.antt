-- ===== src/Router/Methods.antt =====
-- src/router/Router.cpp: Router, which registers at its RouterHandler under the name of a method. The
-- handler's own functions addRoute, handleRequest, setNotFoundHandler and setErrorHandler are passed on as
-- they are.
use http_framework.Prelude.{[]}
use http_framework.Prelude.Bytes.{Bytes, codes}
use http_framework.Router.Dispatch.{Handler, Next, Table, add_route, add_middleware}

module _ {E R : Type 0} where
  abbrev pub add_route_internal : Bytes → Bytes → Handler E R → Table E R → Table E R
  add_route_internal = add_route

  unfoldable pub get : Bytes → Handler E R → Table E R → Table E R
  get = add_route_internal (codes "GET")

  unfoldable pub post : Bytes → Handler E R → Table E R → Table E R
  post = add_route_internal (codes "POST")

  unfoldable pub put : Bytes → Handler E R → Table E R → Table E R
  put = add_route_internal (codes "PUT")

  unfoldable pub del : Bytes → Handler E R → Table E R → Table E R
  del = add_route_internal (codes "DELETE")

  unfoldable pub patch : Bytes → Handler E R → Table E R → Table E R
  patch = add_route_internal (codes "PATCH")

  unfoldable pub head_route : Bytes → Handler E R → Table E R → Table E R
  head_route = add_route_internal (codes "HEAD")

  unfoldable pub options_route : Bytes → Handler E R → Table E R → Table E R
  options_route = add_route_internal (codes "OPTIONS")

  -- use without a path: the middleware is before every route.
  unfoldable pub use_everywhere : (Next E R → Next E R) → Table E R → Table E R
  use_everywhere = add_middleware []

  unfoldable pub use_at : Bytes → (Next E R → Next E R) → Table E R → Table E R
  use_at = add_middleware
