-- ===== src/Server/Run.antt =====
-- src/http/HttpServer.cpp: runs of the server: its start, and steps of the accepting thread, of the sub reactors, of the
-- workers, in any order. A handler is one step: what it shares with the
-- workers (the queue of responses, the counters, the in-flight count of a context) it touches under a
-- mutex or as an atomic, and what it alone touches no other thread can see.
pub mod Registry
use http_framework.Prelude.{
  ℕ, ◌*◌, ◌<◌, ◌≡◌, Bool, true, false, Option, none, some, [], ◌∷◌, ltb, if◌then◌else◌, ◌==◌,
}
use http_framework.Prelude.Bytes.{Bytes}
use http_framework.Pool.{HttpMemoryPool, new_pool, max_block_size, min_block_size}
use http_framework.Response.{HttpResponse}
use http_framework.Router.Dispatch.{Table}
use http_framework.ThreadPool.{advance, new_thread_pool}
use http_framework.Server.{set_reactor, PendingResponse, SubReactor, HttpRequestTask, HttpServer}
use http_framework.Server.Registry.{register_event_fd}
use http_framework.Server.Tasks.{process_http_request, leave_task}
use http_framework.Server.Output.{SendScript}
use http_framework.Server.Events.{accept_one, Event, handle_event}
use http_framework.Server.Invariant.Accept.{IsFree}

abbrev pub no_reactor : SubReactor
no_reactor = record { wake_fd = none; timer_fd = none; contexts = []; pending_responses = [] }

-- Stands for the null pointer: no pool is read while use_memory_pool is false.
abbrev pub no_pool : HttpMemoryPool
no_pool = record {
  blocks = [];
  free_blocks = [];
  block_size = 0;
  used_blocks = 0;
  alloc_calls = 0;
  dealloc_calls = 0;
  allocate_failures = 0;
}

-- The constructor, with the defaults of the header. Where the caller asks for 0 sub reactors the number is
-- what hardware_concurrency says, and at least 1.
unfoldable pub new_server : ℕ → ℕ → HttpServer
unfolding new_thread_pool
new_server thread_pool_size sub_reactor_count = record {
  reactors = λ i. no_reactor;
  sub_reactor_count = if ltb sub_reactor_count 1 then 1 else sub_reactor_count;
  next_sub_reactor = 0;
  conns = [];
  generation_counter = 1;
  thread_pool = new_thread_pool thread_pool_size;
  use_memory_pool = false;
  owned_memory_pool = no_pool;
  idle_timeout_sec = 60;
  max_connections = 10000;
  max_request_body_bytes = 64 * 1024 * 1024;
  max_request_bytes = 1024 * 1024;
  max_request_header_bytes = 16 * 1024;
  in_flight_tasks = 0;
  total_requests = 0;
  active_connections = 0;
  completed_requests = 0;
  queued_tasks = 0;
  stale_callbacks_dropped = 0;
  trace = [];
}

-- enableMemoryPool(true), and the pool that start() then makes; 0 stands for the defaults.
unfoldable pub enable_server_pool : ℕ → ℕ → HttpServer → HttpServer
unfolding new_pool
enable_server_pool block_size blocks s = record s {
  use_memory_pool = true;
  owned_memory_pool = new_pool blocks (
      if block_size == 0
      then max_block_size
      else if ltb block_size min_block_size
      then min_block_size
      else if ltb max_block_size block_size
      then max_block_size
      else block_size);
}

unfoldable pub with_fds : ℕ → ℕ → ℕ → HttpServer → HttpServer
with_fds i wake_fd timer_fd s =
    set_reactor i (record (s.reactors i) { wake_fd = some wake_fd; timer_fd = some timer_fd }) s

-- The descriptors of a sub reactor that setupSubReactor made without an error.
unfoldable pub setup_sub_reactor : ℕ → ℕ → ℕ → ℕ → HttpServer → HttpServer
setup_sub_reactor i epoll_fd wake_fd timer_fd s =
    register_event_fd timer_fd i
      (register_event_fd wake_fd i (register_event_fd epoll_fd i (with_fds i wake_fd timer_fd s)))

module _ {E : Type 0} (router : Option (Table E HttpResponse)) where
  pub data Step : HttpServer → HttpServer → Type 0 where
    -- Configured before the start.
    pooled :
        (s : HttpServer) (block_size blocks : ℕ)
        → s.conns ≡ []
        → Step s (enable_server_pool block_size blocks s)
    -- A sub reactor is set up, before it has connections.
    set_up :
        (s : HttpServer) (i epoll_fd wake_fd timer_fd : ℕ)
        → IsFree epoll_fd s
        → IsFree wake_fd s
        → IsFree timer_fd s
        → Step s (setup_sub_reactor i epoll_fd wake_fd timer_fd s)
    -- accept4 gave `fd`.
    accept :
        (s : HttpServer) (date : Bytes) (now fd : ℕ) (add_ok : Bool)
        → IsFree fd s
        → Step s (accept_one date now fd add_ok s)
    -- epoll_wait gave `event` to the i-th sub reactor.
    event :
        (s : HttpServer) (date : Bytes) (now i : ℕ) (event : Event)
        (scripts : PendingResponse → SendScript)
        → Step s (handle_event date now i event scripts s)
    -- A worker goes on, and what it does for a request task.
    worker : (s : HttpServer) (i : ℕ) → Step s (record s { thread_pool = advance i s.thread_pool })
    process :
        (s : HttpServer) (task : HttpRequestTask) → Step s (process_http_request router task s)
    leave : (s : HttpServer) (task : HttpRequestTask) → Step s (leave_task task s)

  pub data Run (s : HttpServer) : HttpServer → Type 0 where
    here : Run s s
    next : {t u : HttpServer} → Run s t → Step t u → Run s u
