-- ===== src/Server/Events.antt =====
-- src/http/HttpServer.cpp: handleRead, handleTimer, handleAccept and the events of subReactorLoop. The
-- kernel's answers and the time are arguments.
pub mod Timer
use http_framework.Prelude.{
  ℕ, zero, suc, ◌+◌, ◌-◌, ◌/◌, ◌%◌, Bool, true, false, not, ◌&&◌, ◌||◌, Option, none, some, List,
  [], ◌∷◌, ◌++◌, ◌==◌, leb, ltb, if◌then◌else◌, length,
}
use http_framework.Prelude.Bytes.{Bytes, codes}
use http_framework.Prelude.Maps.{Assoc}
use http_framework.Request.State.{new_request}
use http_framework.Response.{HttpResponse, set_header, set_body, to_text}
use http_framework.Response.Status.{new_response, set_status_phrase, mark_finalized}
use http_framework.Pool.{HttpMemoryPool, max_block_size}
use http_framework.Pool.Buffer.{PooledBuffer, is_valid}
use http_framework.Context.{
  HttpContext, new_context, touch, set_max_request_bytes, append_data, enable_memory_pool,
  peek_data,
}
use http_framework.Server.{PendingResponse, HttpServer, Effect, added, closed, emit, lookup_context}
use http_framework.Server.Ids.{make_conn_id, conn_id_fd, conn_id_generation}
use http_framework.Server.Registry.{
  set_context, release_block, register_connection, unregister_event_fd, erase_context,
  drop_pending_responses, owns_connection, close_connection, close_connection_id, rearm_read,
}
use http_framework.Server.Tasks.{enqueue_request_task}
use http_framework.Server.Dispatch.{dispatch_buffered_requests, has_current_response}
use http_framework.Server.Output.{SendScript, handle_write, handle_wake}

-- Answers of recv after which readAllData goes on, and the one that ends it.
pub data RecvAnswer : Type 0 where
  received : Bytes → RecvAnswer
  recv_interrupted : RecvAnswer

pub data RecvEnd : Type 0 where
  recv_would_block end_of_file recv_failed : RecvEnd

pub record RecvScript : Type 0 where
  pub answers : List RecvAnswer
  pub last : RecvEnd

abbrev pub peer_closed : RecvEnd → Bool
peer_closed recv_would_block = false
peer_closed end_of_file = true
peer_closed recv_failed = true

-- readAllData on the pool and the connection's context.
unfoldable pub read_all_data :
    ℕ → List RecvAnswer → HttpMemoryPool × HttpContext → HttpMemoryPool × HttpContext
read_all_data now [] pc = pc
read_all_data now (recv_interrupted ∷ answers) pc = read_all_data now answers pc
read_all_data now (received bytes ∷ answers) pc =
    read_all_data now answers (append_data now bytes pc)

-- Its result.
unfoldable pub bytes_read : List RecvAnswer → ℕ
bytes_read [] = 0
bytes_read (recv_interrupted ∷ answers) = bytes_read answers
bytes_read (received bytes ∷ answers) = length bytes + bytes_read answers

unfoldable pub request_buffer_capacity : HttpContext → ℕ
request_buffer_capacity c =
    if c.use_memory_pool
    then elim c.request_buffer [
      | none ↦ max_block_size
      | some b ↦ if is_valid b then b.capacity else 0
    ]
    else 0

-- The responses of handleRead.
abbrev pub plain_response : Bytes → ℕ → Bytes → Bytes → HttpResponse
plain_response date status phrase body = mark_finalized (
    set_header (codes "Connection") (codes "close") (
      set_header (codes "Content-Type") (codes "application/json")
        (set_body body (set_status_phrase status phrase (new_response date)))))

unfoldable pub refuse_bytes : Bytes → HttpContext → Option HttpResponse
refuse_bytes date c =
    if c.request_too_large
    then some (
        plain_response date 413 (codes "Payload Too Large")
          (codes "{\"error\":\"Request too large or malformed header\"}"))
    else if c.allocation_failed
    then some (
        plain_response date 503 (codes "Service Unavailable")
          (codes "{\"error\":\"Server memory pool exhausted\"}"))
    else if c.truncated
    then some (
        plain_response date 413 (codes "Payload Too Large") (
          codes "{\"error\":\"Payload too large\",\"limit\":"
          ++ to_text (request_buffer_capacity c)
          ++ codes "}"))
    else none

unfoldable pub watch : ℕ → ℕ → HttpServer → HttpServer
watch i conn_id s =
    emit (added i conn_id) (record s { active_connections = s.active_connections + 1 })

unfoldable pub take_back : ℕ → ℕ → HttpServer → HttpServer
take_back i fd s = emit (closed fd) (unregister_event_fd fd (erase_context i fd s))

pub record Event : Type 0 where
  pub conn_id : ℕ
  pub readable : Bool
  pub writable : Bool
  -- EPOLLERR or EPOLLHUP.
  pub hung_up : Bool
  pub recv : RecvScript
  pub send : SendScript

abbrev pub is_fd : Option ℕ → ℕ → Bool
is_fd none fd = false
is_fd (some f) fd = f == fd

unfoldable pub close_all : List ℕ → HttpServer → HttpServer
close_all [] s = s
close_all (conn_id ∷ ids) s = close_all ids (close_connection_id conn_id s)

-- Kept until its response is written, else closed.
unfoldable pub settle_hang_up : ℕ → ℕ → Option HttpContext → HttpServer → HttpServer
settle_hang_up fd i none s = close_connection fd i s
settle_hang_up fd i (some c) s =
    if ltb 0 c.in_flight || has_current_response c then s else close_connection fd i s

module _ (date : Bytes) (now : ℕ) where
  -- handleRead behind the loop, with the context as it is then.
  unfoldable pub after_read : ℕ → ℕ → ℕ → HttpContext → HttpServer → HttpServer
  after_read fd i conn_id c s = elim (refuse_bytes date c) [
    | some response ↦ enqueue_request_task i fd conn_id new_request response s
    | none ↦ dispatch_buffered_requests date fd i conn_id s
  ]

  unfoldable pub handle_read : ℕ → ℕ → ℕ → RecvScript → HttpServer → HttpServer
  handle_read fd i conn_id script s = elim (lookup_context i fd s) [
    | none ↦ close_connection fd i s
    | some c ↦
        let (pool, read) = read_all_data now script.answers (s.owned_memory_pool, c) in
        let s' = record s { owned_memory_pool = pool } in
        if bytes_read script.answers == 0
        then (if peer_closed script.last
            then close_connection fd i (set_context i fd read s')
            else rearm_read i conn_id (set_context i fd read s'))
        else after_read fd i conn_id (touch now read) (set_context i fd (touch now read) s')
  ]

  -- Time is counted in nanoseconds, and the clock does not go back.
  abbrev pub seconds_since : ℕ → ℕ
  seconds_since time = (now - time) / 1000000000

  unfoldable pub is_stale : ℕ → HttpContext → Bool
  is_stale timeout c =
      not (ltb 0 c.in_flight)
      && (leb timeout (seconds_since c.last_active)
          || (ltb 0 (length (peek_data c)) && leb timeout (seconds_since c.request_start)))

  -- The idle connections of handleTimer.
  unfoldable pub idle_conns : ℕ → Assoc ℕ HttpContext → List ℕ
  unfolding is_stale
  idle_conns timeout [] = []
  idle_conns timeout ((fd, c) ∷ contexts) =
      let rest = idle_conns timeout contexts in
      if is_stale timeout c then make_conn_id fd c.connection_generation ∷ rest else rest

  unfoldable pub handle_timer : ℕ → HttpServer → HttpServer
  handle_timer i s =
      if s.idle_timeout_sec == 0
      then s
      else close_all (idle_conns s.idle_timeout_sec (s.reactors i).contexts) s

  -- A new context for an accepted connection.
  unfoldable pub accept_context : ℕ → HttpServer → HttpMemoryPool × HttpContext
  accept_context generation s =
      let c =
        set_max_request_bytes s.max_request_bytes
          (record (new_context now) { connection_generation = generation }) in
      if s.use_memory_pool
      then enable_memory_pool true (s.owned_memory_pool, c)
      else (s.owned_memory_pool, c)

  -- The connection's record and context, for the reactor whose turn it is, before epoll knows of it.
  unfoldable pub enlist : ℕ → ℕ → HttpServer → HttpServer × ℕ
  enlist fd i s0 =
      let (s, conn_id) = register_connection fd i (drop_pending_responses i fd s0) in
      let (pool, c) = accept_context (conn_id_generation conn_id) s in
      let freed = release_block (lookup_context i fd s) pool in
      (set_context i fd c (record s { owned_memory_pool = freed }), conn_id)

  -- A connection below the limit; `add_ok` is the answer of epoll_ctl(ADD).
  unfoldable pub admit : ℕ → ℕ → Bool → HttpServer → HttpServer
  admit fd i add_ok s =
      let (ready, conn_id) = enlist fd i s in
      if add_ok then watch i conn_id ready else take_back i fd ready

  -- One round of handleAccept with the descriptor that accept4 gave.
  unfoldable pub accept_one : ℕ → Bool → HttpServer → HttpServer
  accept_one fd add_ok s =
      if ltb 0 s.max_connections && leb s.max_connections s.active_connections
      then emit (closed fd) s
      else admit fd (s.next_sub_reactor % s.sub_reactor_count) add_ok
          (record s { next_sub_reactor = s.next_sub_reactor + 1 })

  -- handleAccept: the descriptors that accept4 gives, with the answers of epoll_ctl, up to EAGAIN or an
  -- error.
  unfoldable pub handle_accept : List (ℕ × Bool) → HttpServer → HttpServer
  handle_accept [] s = s
  handle_accept ((fd, add_ok) ∷ accepted) s = handle_accept accepted (accept_one fd add_ok s)

  unfoldable pub handle_connection_event : ℕ → Event → HttpServer → HttpServer
  handle_connection_event i event s =
      let fd = conn_id_fd event.conn_id in
      let read = (if event.readable then handle_read fd i event.conn_id event.recv s else s) in
      if event.hung_up
      then settle_hang_up fd i (lookup_context i fd read) read
      else if event.writable
      then handle_write date now fd i event.send read
      else read

  -- One event of subReactorLoop.
  unfoldable pub handle_event : ℕ → Event → (PendingResponse → SendScript) → HttpServer → HttpServer
  handle_event i event scripts s =
      let fd = conn_id_fd event.conn_id in
      if is_fd (s.reactors i).wake_fd fd
      then handle_wake date now i scripts s
      else if is_fd (s.reactors i).timer_fd fd
      then handle_timer i s
      else if owns_connection fd i event.conn_id s
      then handle_connection_event i event s
      else s
