-- ===== src/Router.antt =====
-- src/router/RouterHandler.cpp, include/router/RouterHandler.h and src/router/Router.cpp: route patterns, the table with its
-- index, and the dispatch of a request through middlewares to a route.
pub mod Pattern
pub mod Table
pub mod Dispatch
pub mod Methods
mod Tests
