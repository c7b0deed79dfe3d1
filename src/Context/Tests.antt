-- ===== src/Context/Tests.antt =====
-- Runs of a connection's buffer.
use http_framework.Prelude.{◌≡◌, refl, true, false, [], ◌++◌, take, drop}
use http_framework.Prelude.Bytes.{codes}
use http_framework.Pool.{HttpMemoryPool, new_pool, allocate}
use http_framework.Pool.Buffer.{write, consume, new_buffer}
use http_framework.Context.{
  HttpContext, new_context, peek_data, consume_data, append_data, enable_memory_pool,
  append_to_buffer, append_to_string, peek_buffer, ensure_buffer,
}
use http_framework.Context.Queue.{room, peek_data-append_data, peek_data-consume_data}

abbrev two_blocks : HttpMemoryPool
two_blocks = new_pool 2 4096

-- In pool mode, with one byte consumed.
abbrev busy : HttpMemoryPool × HttpContext
busy =
    let (pool, c) =
      append_data 5 (codes "GET") (enable_memory_pool true (two_blocks, new_context 0)) in
    (pool, consume_data 1 c)

busy_holds : peek_data busy.1 ≡ codes "ET"
unfolding append_data append_to_buffer peek_data peek_buffer consume_data enable_memory_pool
    ensure_buffer new_buffer new_context new_pool write consume
busy_holds = refl

peek_data-append_data_example :
    peek_data (append_data 6 (codes " /") (busy.0, busy.1)).1
    ≡ peek_data busy.1 ++ take (room busy.0 busy.1 (codes " /")) (codes " /")
peek_data-append_data_example = peek_data-append_data 6 (codes " /") busy.0 busy.1

peek_data-consume_data_example : peek_data (consume_data 1 busy.1) ≡ drop 1 (peek_data busy.1)
peek_data-consume_data_example = peek_data-consume_data 1 busy.1

abbrev one_taken : HttpMemoryPool
one_taken = (allocate (new_pool 1 4096)).0

-- With the pool exhausted, turning pool mode on drops what was received, and no flag says so.
abbrev switched : HttpContext
switched = (enable_memory_pool true (append_data 1 (codes "GET") (one_taken, new_context 0))).1

switch_loses : (peek_data switched ≡ []) × (switched.allocation_failed ≡ false)
unfolding append_data append_to_string peek_data peek_buffer enable_memory_pool new_context new_pool
    write ensure_buffer new_buffer allocate
switch_loses = (refl, refl)
