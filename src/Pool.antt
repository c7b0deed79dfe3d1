-- ===== src/Pool.antt =====
-- src/utils/MemoryPool.cpp and include/utils/MemoryPool.h: HttpMemoryPool, a fixed set of blocks with a
-- queue of the free ones. A block is named by its position; what a block's bytes hold is the buffer's
-- (Pool.Buffer). Every operation of the source holds the pool's mutex, so each is one step.
pub mod Buffer
pub mod Invariant
mod Tests
use http_framework.Prelude.{
  ℕ, zero, suc, ◌+◌, ◌-◌, ◌%◌, Bool, true, false, not, Option, none, some, List, [], ◌∷◌, ◌++◌,
  ◌==◌, ltb, if◌then◌else◌, length, get_elem?,
}
use http_framework.Request.Text.{u64_mod}

pub record HttpMemoryPool : Type 0 where
  -- isUsed of each block, by blockId.
  pub blocks : List Bool
  -- The free blocks, the next one to be handed out first.
  pub free_blocks : List ℕ
  pub block_size : ℕ
  pub used_blocks : ℕ
  pub alloc_calls : ℕ
  pub dealloc_calls : ℕ
  pub allocate_failures : ℕ

abbrev pub max_block_size : ℕ
max_block_size = 12288

abbrev pub min_block_size : ℕ
min_block_size = 1024

abbrev pub default_pool_size : ℕ
default_pool_size = 5000

unfoldable pub set_used : ℕ → Bool → List Bool → List Bool
set_used i used [] = []
set_used zero used (b ∷ blocks) = used ∷ blocks
set_used (suc i) used (b ∷ blocks) = b ∷ set_used i used blocks

unfoldable pub all_free : ℕ → List Bool
all_free zero = []
all_free (suc n) = false ∷ all_free n

-- The positions from `i` on, one for each block.
unfoldable pub positions : ℕ → List Bool → List ℕ
positions i [] = []
positions i (b ∷ blocks) = i ∷ positions (suc i) blocks

unfoldable pub clamp_block_size : ℕ → ℕ
clamp_block_size size =
    if ltb size min_block_size
    then min_block_size
    else if ltb max_block_size size
    then max_block_size
    else size

-- The constructor, with initializePool.
unfoldable pub new_pool : ℕ → ℕ → HttpMemoryPool
unfolding all_free positions clamp_block_size
new_pool pool_size block_size =
    let blocks = all_free (if pool_size == 0 then default_pool_size else pool_size) in
    record {
      blocks = blocks;
      free_blocks = positions 0 blocks;
      block_size = clamp_block_size block_size;
      used_blocks = 0;
      alloc_calls = 0;
      dealloc_calls = 0;
      allocate_failures = 0;
    }

abbrev pub count_up : ℕ → ℕ
count_up n = (n + 1) % u64_mod

unfoldable pub take_block : HttpMemoryPool → List ℕ → HttpMemoryPool × Option ℕ
unfolding set_used
take_block p [] = (record p { allocate_failures = count_up p.allocate_failures }, none)
take_block p (i ∷ free) = (
  record p {
    blocks = set_used i true p.blocks;
    free_blocks = free;
    used_blocks = p.used_blocks + 1;
  },
  some i,
)

unfoldable pub allocate : HttpMemoryPool → HttpMemoryPool × Option ℕ
unfolding take_block
allocate p = take_block (record p { alloc_calls = count_up p.alloc_calls }) p.free_blocks

-- A block that is not in use is refused. A null pointer is `none`; a block of another pool, whose
-- position this pool does not have, is outside the model and changes nothing here.
unfoldable pub give_back : HttpMemoryPool → ℕ → HttpMemoryPool
unfolding set_used
give_back p i = elim (get_elem? p.blocks i) [
  | none ↦ p
  | some used ↦
      if used
      then record p {
        blocks = set_used i false p.blocks;
        free_blocks = p.free_blocks ++ i ∷ [];
        used_blocks = p.used_blocks - 1;
      }
      else p
]

unfoldable pub deallocate : Option ℕ → HttpMemoryPool → HttpMemoryPool
unfolding give_back
deallocate none p = p
deallocate (some i) p = give_back (record p { dealloc_calls = count_up p.dealloc_calls }) i

unfoldable pub reset : HttpMemoryPool → HttpMemoryPool
unfolding all_free positions
reset p = record p {
  blocks = all_free (length p.blocks);
  free_blocks = positions 0 p.blocks;
  used_blocks = 0;
}
