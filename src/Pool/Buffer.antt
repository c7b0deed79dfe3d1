-- ===== src/Pool/Buffer.antt =====
-- src/utils/MemoryPool.cpp: PooledBuffer, a block of the pool that is written from the start. Its
-- `contents` are the first usedSize_ bytes of the block; the source reads no others.
use http_framework.Prelude.{
  ℕ, ◌-◌, Bool, true, false, Option, none, some, [], ◌++◌, ◌==◌, leb, if◌then◌else◌, length, take,
  drop,
}
use http_framework.Prelude.Bytes.{Bytes}
use http_framework.Pool.{HttpMemoryPool, allocate, deallocate}

pub record PooledBuffer : Type 0 where
  pub block : Option ℕ
  -- capacity of the block.
  pub capacity : ℕ
  pub contents : Bytes

-- The constructor: `block` stays null where the pool is exhausted.
unfoldable pub new_buffer : HttpMemoryPool → HttpMemoryPool × PooledBuffer
unfolding allocate
new_buffer pool =
    let (pool', block) = allocate pool in
    (pool', record { block = block; capacity = pool.block_size; contents = [] })

-- The destructor.
unfoldable pub drop_buffer : PooledBuffer → HttpMemoryPool → HttpMemoryPool
unfolding deallocate
drop_buffer b pool = deallocate b.block pool

abbrev pub is_valid : PooledBuffer → Bool
is_valid b = elim b.block [ none ↦ false | some i ↦ true ]

-- The buffer after the write, and how many bytes were taken.
unfoldable pub write : Bytes → PooledBuffer → PooledBuffer × ℕ
write src b =
    if is_valid b
    then (let fit = take (b.capacity - length b.contents) src in
        (record b { contents = b.contents ++ fit }, length fit))
    else (b, 0)

unfoldable pub read_string : ℕ → PooledBuffer → Bytes
read_string len b = if is_valid b then take len b.contents else []

unfoldable pub clear : PooledBuffer → PooledBuffer
clear b = if is_valid b then record b { contents = [] } else b

unfoldable pub consume : ℕ → PooledBuffer → PooledBuffer
unfolding clear
consume n b =
    if is_valid b
    then (if n == 0
        then b
        else if leb (length b.contents) n
        then clear b
        else record b { contents = drop n b.contents })
    else b
