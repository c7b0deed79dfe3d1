-- ===== src/Server.antt =====
-- include/http/HttpServer.h: what HttpServer keeps. Its sub reactors are a function of their index, which
-- the source keeps below subReactorCount_; sockets, epoll and eventfds are the kernel's, and what the
-- server asks of them stands in `trace`, the latest request first. Descriptors are natural numbers.
pub mod Ids
pub mod Registry
pub mod Tasks
pub mod Dispatch
pub mod Output
pub mod Events
pub mod Invariant
pub mod Run
mod Tests
use http_framework.Prelude.{ℕ, ◌+◌, ◌-◌, ◌^◌, Bool, Option, List, ◌∷◌, ◌==◌, if◌then◌else◌}
use http_framework.Prelude.Bytes.{Bytes}
use http_framework.Prelude.Maps.{Assoc, lookup, num_eq}
use http_framework.Pool.{HttpMemoryPool}
use http_framework.Request.State.{HttpRequest}
use http_framework.Response.{HttpResponse}
use http_framework.Context.{HttpContext}
use http_framework.ThreadPool.{ThreadPool}

-- Who has a descriptor: `owner` is `none` for -1.
pub record FdBinding : Type 0 where
  pub generation : ℕ
  pub owner : Option ℕ
  pub context : Bool

pub record PendingResponse : Type 0 where
  pub conn_id : ℕ
  pub bytes : Bytes
  pub keep_alive : Bool

pub record SubReactor : Type 0 where
  -- -1 is `none`.
  pub wake_fd : Option ℕ
  pub timer_fd : Option ℕ
  pub contexts : Assoc ℕ HttpContext
  pub pending_responses : List PendingResponse

-- HttpRequestTask with what its handler captures.
pub record HttpRequestTask : Type 0 where
  pub client_fd : ℕ
  pub request : HttpRequest
  pub response : HttpResponse
  pub sub_reactor_index : ℕ
  pub conn_id : ℕ

-- What is asked of the kernel.
pub data Effect : Type 0 where
  added : ℕ → ℕ → Effect
  rearmed_read : ℕ → ℕ → Effect
  rearmed_write : ℕ → ℕ → Effect
  removed : ℕ → ℕ → Effect
  closed : ℕ → Effect
  sent : ℕ → Bytes → Effect
  woken : ℕ → Effect

pub record HttpServer : Type 0 where
  pub reactors : ℕ → SubReactor
  pub sub_reactor_count : ℕ
  pub next_sub_reactor : ℕ
  pub conns : Assoc ℕ FdBinding
  -- The static counter of nextConnectionGeneration.
  pub generation_counter : ℕ
  pub thread_pool : ThreadPool HttpRequestTask
  pub use_memory_pool : Bool
  pub owned_memory_pool : HttpMemoryPool
  -- 0 where no clean-up is wanted.
  pub idle_timeout_sec : ℕ
  pub max_connections : ℕ
  pub max_request_body_bytes : ℕ
  pub max_request_bytes : ℕ
  pub max_request_header_bytes : ℕ
  pub in_flight_tasks : ℕ
  pub total_requests : ℕ
  pub active_connections : ℕ
  pub completed_requests : ℕ
  pub queued_tasks : ℕ
  pub stale_callbacks_dropped : ℕ
  pub trace : List Effect

-- fetch_sub(1) on a counter of 64 bits; by counting up none of them reaches 2^64.
abbrev pub count_down : ℕ → ℕ
count_down n = if n == 0 then 2 ^ 64 - 1 else n - 1

abbrev pub set_reactor : ℕ → SubReactor → HttpServer → HttpServer
set_reactor i r s = record s { reactors = λ j. if i == j then r else s.reactors j }

abbrev pub emit : Effect → HttpServer → HttpServer
emit e s = record s { trace = e ∷ s.trace }

-- lookupContext.
unfoldable pub lookup_context : ℕ → ℕ → HttpServer → Option HttpContext
lookup_context i fd s = lookup fd (s.reactors i).contexts
