-- ===== src/Context.antt =====
-- src/http/HttpContext.cpp and include/http/HttpContext.h: what the server keeps for a connection. The
-- received bytes stand in `buffer`, or in a block of the memory pool; the bytes before `read_pos` are
-- consumed. The pool is passed along. Time is an argument of the calls that read the clock.
pub mod Queue
mod Tests
use http_framework.Prelude.{
  ℕ, ◌+◌, ◌-◌, Bool, true, false, not, ◌&&◌, Option, none, some, List, [], ◌++◌, ◌==◌, ltb, leb,
  if◌then◌else◌, length, is_empty, take, drop,
}
use http_framework.Prelude.Bytes.{Bytes}
use http_framework.Pool.{HttpMemoryPool, max_block_size}
use http_framework.Pool.Buffer.{
  PooledBuffer, new_buffer, drop_buffer, is_valid, write, read_string, clear as clear_buffer,
  consume,
}

pub record HttpContext : Type 0 where
  -- -1 is `none`.
  pub client_fd : Option ℕ
  pub keep_alive : Bool
  pub buffer : Bytes
  pub use_memory_pool : Bool
  pub request_buffer : Option PooledBuffer
  pub write_offset : ℕ
  pub truncated : Bool
  pub allocation_failed : Bool
  pub current_response : Option Bytes
  pub read_pos : ℕ
  pub request_start : ℕ
  pub request_too_large : Bool
  pub max_request_bytes : ℕ
  -- An atomic counter, which the workers change too.
  pub in_flight : ℕ
  pub connection_generation : ℕ
  pub last_active : ℕ

unfoldable pub new_context : ℕ → HttpContext
new_context now = record {
  client_fd = none;
  keep_alive = false;
  buffer = [];
  use_memory_pool = false;
  request_buffer = none;
  write_offset = 0;
  truncated = false;
  allocation_failed = false;
  current_response = none;
  read_pos = 0;
  request_start = now;
  request_too_large = false;
  max_request_bytes = 1048576;
  in_flight = 0;
  connection_generation = 0;
  last_active = now;
}

abbrev pub touch : ℕ → HttpContext → HttpContext
touch now c = record c { last_active = now }

abbrev pub set_max_request_bytes : ℕ → HttpContext → HttpContext
set_max_request_bytes bytes c = record c { max_request_bytes = if ltb 0 bytes then bytes else 1 }

abbrev pub enter_in_flight : HttpContext → HttpContext
enter_in_flight c = record c { in_flight = c.in_flight + 1 }

-- The counter stops at 0, as the subtraction does.
abbrev pub leave_in_flight : HttpContext → HttpContext
leave_in_flight c = record c { in_flight = c.in_flight - 1 }

abbrev pub on_buffer : (PooledBuffer → PooledBuffer) → Option PooledBuffer → Option PooledBuffer
on_buffer f none = none
on_buffer f (some b) = some (f b)

unfoldable pub reset_for_next_request : HttpContext → HttpContext
reset_for_next_request c = record c {
  write_offset = 0;
  truncated = false;
  allocation_failed = false;
  request_too_large = false;
  current_response = none;
}

unfoldable pub clear : HttpContext → HttpContext
unfolding reset_for_next_request clear_buffer
clear c =
    let c' = reset_for_next_request c in
    record c' {
      client_fd = none;
      keep_alive = false;
      request_buffer =
          (if c.use_memory_pool then on_buffer clear_buffer c.request_buffer else c.request_buffer);
      buffer = [];
      read_pos = 0;
    }

unfoldable pub peek_buffer : ℕ → Option PooledBuffer → Bytes
peek_buffer read_pos none = []
peek_buffer read_pos (some b) = if is_valid b then drop read_pos b.contents else []

-- What has been received and not consumed.
unfoldable pub peek_data : HttpContext → Bytes
peek_data c =
    if c.use_memory_pool then peek_buffer c.read_pos c.request_buffer else drop c.read_pos c.buffer

abbrev pub data_size : HttpContext → ℕ
data_size c = length (peek_data c)

unfoldable pub consume_data : ℕ → HttpContext → HttpContext
unfolding peek_data clear_buffer
consume_data n c =
    if leb (data_size c) n
    then (if c.use_memory_pool
        then record c { request_buffer = on_buffer clear_buffer c.request_buffer; read_pos = 0 }
        else record c { buffer = []; read_pos = 0 })
    else record c { read_pos = c.read_pos + n }

-- The buffer of pool mode, made on its first use.
unfoldable pub ensure_buffer : HttpMemoryPool → Option PooledBuffer → HttpMemoryPool × PooledBuffer
unfolding new_buffer
ensure_buffer pool none = new_buffer pool
ensure_buffer pool (some b) = (pool, b)

unfoldable pub append_to_buffer : Bytes → PooledBuffer → HttpContext → HttpContext
append_to_buffer src b c =
    if is_valid b
    then (let (b', written) = write src (consume c.read_pos b) in
        record c {
          request_buffer = some b';
          read_pos = 0;
          truncated = (if ltb written (length src) then true else c.truncated);
        })
    else record c { request_buffer = some b; allocation_failed = true }

unfoldable pub append_to_string : Bytes → HttpContext → HttpContext
append_to_string src c =
    let buffer = drop c.read_pos c.buffer ++ src in
    record c {
      buffer = buffer;
      read_pos = 0;
      request_too_large =
          (if ltb c.max_request_bytes (length buffer) then true else c.request_too_large);
    }

-- A new request starts with the first bytes; where no block was given, the source returns before.
abbrev pub mark_start : ℕ → Bool → HttpContext → HttpContext
mark_start now was_empty c = if was_empty then record c { request_start = now } else c

unfoldable pub append_data : ℕ → Bytes → HttpMemoryPool × HttpContext → HttpMemoryPool × HttpContext
append_data now src (pool, c) =
    if is_empty src
    then (pool, c)
    else if c.use_memory_pool
    then (let (pool', b) = ensure_buffer pool c.request_buffer in
        (pool', mark_start now (is_empty (peek_data c) && is_valid b) (append_to_buffer src b c)))
    else (pool, mark_start now (is_empty (peek_data c)) (append_to_string src c))

-- enableMemoryPool(true), where it was off: what `buffer` holds goes into a block, as far as it fits.
unfoldable pub pool_on : HttpMemoryPool × HttpContext → HttpMemoryPool × HttpContext
unfolding ensure_buffer write
pool_on (pool, c) =
    if is_empty c.buffer
    then (pool, record c { use_memory_pool = true })
    else (let (pool', b) = ensure_buffer pool c.request_buffer in
        (
          pool',
          record c {
            use_memory_pool = true;
            request_buffer = some (write c.buffer b).0;
            buffer = [];
          },
        ))

-- enableMemoryPool(false), where it was on: the block's bytes go into `buffer`, the block to the pool.
unfoldable pub pool_off : HttpMemoryPool × HttpContext → HttpMemoryPool × HttpContext
unfolding drop_buffer read_string
pool_off (pool, c) = elim c.request_buffer [
  | none ↦ (pool, record c { use_memory_pool = false })
  | some b ↦ (
    drop_buffer b pool,
    record c {
      use_memory_pool = false;
      buffer = read_string (length b.contents) b;
      request_buffer = none;
    },
  )
]

-- enableMemoryPool with the one pool that the server has.
unfoldable pub enable_memory_pool :
    Bool → HttpMemoryPool × HttpContext → HttpMemoryPool × HttpContext
unfolding pool_on pool_off
enable_memory_pool enable (pool, c) =
    if enable
    then (if c.use_memory_pool then (pool, c) else pool_on (pool, c))
    else (if c.use_memory_pool then pool_off (pool, c) else (pool, c))
