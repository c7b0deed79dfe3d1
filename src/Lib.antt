-- ===== src/Lib.antt =====
-- HttpFramework: a model of the parts of the C++ HTTP framework that decide what a request means and
-- what is kept for a connection, with the theorems that make them correct.
--
-- A connection's bytes are collected in an HttpContext, whose buffer is a string or a block of the
-- HttpMemoryPool. HttpRequest.parse reads one request off the front of these bytes; the bytes that it
-- takes are consumed, and the rest is the next request. RouterHandler hands the request to the
-- middlewares and to a route's handler. SessionManager keeps the sessions that a middleware names.
-- HttpServer joins these: its sub reactors read into the contexts and dispatch each whole request as a
-- task of the ThreadPool; a worker runs the router and puts the response in the queue of the reactor,
-- which sends it. A connection is named by its descriptor and a generation.
--
-- File by file, with the source's paths from the repository's root:
-- - Prelude: Boolean tests, lists measured by native numbers, byte strings with their searches, and
--   std::unordered_map as an association list.
-- - Request: src/http/HttpRequest.cpp and include/http/HttpRequest.h. Text has the character tests and
--   the line and word reading, Url has urlDecode and parseQueryParams, Chunked has scanChunkedEnd and
--   decodeChunkedBody, State the request's members and getters, Parse the function parse. `Parsed`
--   tells an accepted request, a rejected one with its flags, and a chunk loop without fuel.
-- - Router: src/router/RouterHandler.cpp and include/router/RouterHandler.h. Pattern has pathToRegex as
--   a list of atoms, the segment matcher and the tests that choose between them; Table has the routes,
--   rebuildIndex, matchMethod and findRoute; Dispatch has the registration, the middleware chain and
--   handleRequest, and Dispatch.Served what a request is promised, told from the registrations alone;
--   Methods has src/router/Router.cpp, which names the methods. Handlers, middlewares,
--   responses and exceptions are parameters.
-- - Response: src/http/HttpResponse.cpp and include/http/HttpResponse.h, the headers, the body and the
--   text of a response; Response.Status has the status, its phrases, setFile, redirect and clear.
-- - Pool: src/utils/MemoryPool.cpp and include/utils/MemoryPool.h, the blocks and PooledBuffer.
-- - Context: src/http/HttpContext.cpp and include/http/HttpContext.h.
-- - Session: src/session/Session.cpp and src/session/SessionManager.cpp; Session.Middleware has the
--   cookies and the choice of the session in src/middleware/SessionMiddleware.cpp, and
--   Session.Storage the in-memory storage and the file names of src/session/SessionStorage.cpp.
-- - ThreadPool: src/utils/ThreadPool.cpp and include/utils/ThreadPool.h; a worker moves from one point at
--   which it takes the mutex to the next, and any interleaving of workers and submissions is a run.
-- - Server: src/http/HttpServer.cpp and include/http/HttpServer.h. Ids has the connection identifiers of
--   include/utils/SocketCompat.h; Registry the registration and the close of connections; Tasks the
--   request tasks and processHttpRequest; Dispatch dispatchBufferedRequests, whose decision is a
--   `Verdict`; Output the sending and handleWake; Events handleRead, handleTimer, handleAccept and the
--   events of subReactorLoop; Run the steps of all threads. Server.Invariant has the agreement of
--   contexts and registry, and what a close does to it.
-- Each Tests module runs the definitions on small inputs.
--
-- Machine numbers: sums of positions and chunk sizes wrap at 2^64 as in the source; the theorems on a
-- whole request ask that buffer and body limit stay four bytes below 2^64. The chunk loops take one
-- round of fuel for each byte and one more; Request.Chunked.Termination has the measure that falls in
-- each round. Time is an argument of the calls that read the clock.
--
-- A handler of the server is one step. What accept4, recv, send and epoll_ctl answer, and the time, are
-- arguments of the handlers, and what the server asks of the kernel stands in a trace. Calls under a
-- mutex are single steps; the routing table is a value, since a request works on one snapshot of it.
-- The counters of the server count up without a bound and wrap downwards at 2^64.
--
-- Not modelled: the error paths that set up the sockets, stop and the release of descriptors, the
-- connection observer, ThreadPool.enqueue with its future, the text of session files and of the cookie
-- that is set, the database classes, logging, templates, and the wrapper App.
pub mod Prelude
pub mod Request
pub mod Response
pub mod Router
pub mod Pool
pub mod Context
pub mod Session
pub mod ThreadPool
pub mod Server
