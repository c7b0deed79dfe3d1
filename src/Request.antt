-- ===== src/Request.antt =====
-- src/http/HttpRequest.cpp and include/http/HttpRequest.h: the request parser.
pub mod Text
pub mod Chunked
pub mod Url
pub mod State
pub mod Parse
mod Tests
