-- ===== src/Server/Registry.antt =====
-- src/http/HttpServer.cpp: who owns a descriptor, and the closing of a connection. Each function is one
-- section under the mutex that it takes, or a sequence of them by the one thread of its reactor.
use http_framework.Prelude.{
  ℕ, ◌+◌, Bool, true, false, ◌&&◌, not, Option, none, some, List, [], ◌∷◌, ◌++◌, ◌==◌, ltb,
  if◌then◌else◌,
}
use http_framework.Prelude.Bytes.{Bytes}
use http_framework.Prelude.Maps.{lookup, insert, erase, num_eq}
use http_framework.Pool.{HttpMemoryPool}
use http_framework.Pool.Buffer.{drop_buffer}
use http_framework.Context.{HttpContext}
use http_framework.Server.{
  FdBinding, PendingResponse, rearmed_read, removed, closed, woken, HttpServer, count_down,
  set_reactor, emit, lookup_context,
}
use http_framework.Server.Ids.{
  make_conn_id, conn_id_fd, conn_id_generation, next_connection_generation,
}

-- `conns_[fd]`, which makes an entry where there is none.
abbrev pub binding_or_new : Option FdBinding → FdBinding
binding_or_new none = record { generation = 0; owner = none; context = false }
binding_or_new (some binding) = binding

abbrev pub bind : ℕ → FdBinding → HttpServer → HttpServer
bind fd binding s = record s { conns = insert fd binding s.conns }

-- A binding of a connection.
abbrev pub bound : ℕ → ℕ → FdBinding
bound generation i = record { generation = generation; owner = some i; context = true }

-- The generation is kept.
abbrev pub unbound : FdBinding → FdBinding
unbound b = record b { owner = none; context = false }

-- The new connection's identifier is the second component.
unfoldable pub register_connection : ℕ → ℕ → HttpServer → HttpServer × ℕ
register_connection fd i s =
    let (generation, counter) = next_connection_generation s.generation_counter in
    (
      bind fd (bound generation i) (record s { generation_counter = counter }),
      make_conn_id fd generation,
    )

unfoldable pub register_event_fd : ℕ → ℕ → HttpServer → HttpServer
register_event_fd fd i s =
    bind fd (record (binding_or_new (lookup fd s.conns)) { owner = some i; context = false }) s

unfoldable pub unregister_event_fd : ℕ → HttpServer → HttpServer
unregister_event_fd fd s = record s { conns = erase fd s.conns }

abbrev pub is_owner : ℕ → Option ℕ → Bool
is_owner i none = false
is_owner i (some owner) = owner == i

abbrev pub owns_binding : ℕ → ℕ → Option FdBinding → Bool
owns_binding i generation none = false
owns_binding i generation (some b) =
    b.context && is_owner i b.owner && ltb 0 b.generation && b.generation == generation

unfoldable pub owns_connection : ℕ → ℕ → ℕ → HttpServer → Bool
owns_connection fd i conn_id s = owns_binding i (conn_id_generation conn_id) (lookup fd s.conns)

unfoldable pub without_fd : ℕ → List PendingResponse → List PendingResponse
without_fd fd [] = []
without_fd fd (p ∷ pending) =
    let rest = without_fd fd pending in if conn_id_fd p.conn_id == fd then rest else p ∷ rest

abbrev pub set_pending : ℕ → List PendingResponse → HttpServer → HttpServer
set_pending i pending s = set_reactor i (record (s.reactors i) { pending_responses = pending }) s

unfoldable pub drop_pending_responses : ℕ → ℕ → HttpServer → HttpServer
drop_pending_responses i fd s = set_pending i (without_fd fd (s.reactors i).pending_responses) s

unfoldable pub notify_connection_ready : ℕ → ℕ → Bytes → Bool → HttpServer → HttpServer
notify_connection_ready i conn_id bytes keep_alive s =
    let item : PendingResponse = record {
      conn_id = conn_id;
      bytes = bytes;
      keep_alive = keep_alive;
    } in
    emit (woken i) (set_pending i ((s.reactors i).pending_responses ++ item ∷ []) s)

-- `contexts[fd] = ctx`, and `contexts.erase(fd)`, whose destructor returns the block to the pool.
abbrev pub set_context : ℕ → ℕ → HttpContext → HttpServer → HttpServer
set_context i fd c s =
    set_reactor i (record (s.reactors i) { contexts = insert fd c (s.reactors i).contexts }) s

abbrev pub release_block : Option HttpContext → HttpMemoryPool → HttpMemoryPool
release_block none pool = pool
release_block (some c) pool = elim c.request_buffer [ none ↦ pool | some b ↦ drop_buffer b pool ]

unfoldable pub erase_context : ℕ → ℕ → HttpServer → HttpServer
erase_context i fd s =
    set_reactor i (record (s.reactors i) { contexts = erase fd (s.reactors i).contexts })
      (record s { owned_memory_pool = release_block (lookup_context i fd s) s.owned_memory_pool })

-- 0 where the reactor has no connection on the descriptor.
unfoldable pub conn_id_of : ℕ → ℕ → HttpServer → ℕ
conn_id_of i fd s = elim (lookup_context i fd s) [
  | none ↦ 0
  | some c ↦ make_conn_id fd c.connection_generation
]

-- The last part of closeConnectionId, for a connection that was found and unregistered.
unfoldable pub tear_down : ℕ → ℕ → HttpServer → HttpServer
tear_down i fd s =
    let erased = erase_context i fd (emit (removed i fd) s) in
    let dropped = emit (closed fd) (drop_pending_responses i fd erased) in
    record dropped { active_connections = count_down dropped.active_connections }

abbrev pub tear_down_owned : Option ℕ → ℕ → HttpServer → HttpServer
tear_down_owned none fd s = s
tear_down_owned (some i) fd s = if ltb i s.sub_reactor_count then tear_down i fd s else s

unfoldable pub close_bound : FdBinding → ℕ → ℕ → HttpServer → HttpServer
close_bound b fd generation s =
    if not b.context
    then s
    else if b.generation == generation
    then tear_down_owned b.owner fd (bind fd (unbound b) s)
    else record s { stale_callbacks_dropped = s.stale_callbacks_dropped + 1 }

unfoldable pub close_found : Option FdBinding → ℕ → ℕ → HttpServer → HttpServer
close_found none fd generation s = s
close_found (some b) fd generation s = close_bound b fd generation s

unfoldable pub close_connection_id : ℕ → HttpServer → HttpServer
close_connection_id conn_id s =
    if conn_id == 0
    then s
    else close_found (lookup (conn_id_fd conn_id) s.conns) (conn_id_fd conn_id)
        (conn_id_generation conn_id) s

unfoldable pub close_connection : ℕ → ℕ → HttpServer → HttpServer
close_connection fd i s = close_connection_id (conn_id_of i fd s) s

-- What epoll_ctl answers is only logged.
unfoldable pub rearm_read : ℕ → ℕ → HttpServer → HttpServer
rearm_read i conn_id s = emit (rearmed_read i conn_id) s
