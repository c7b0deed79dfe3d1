-- ===== src/Pool/Tests.antt =====
-- Runs of the pool.
use http_framework.Prelude.{
  ℕ, ◌+◌, ◌<◌, ◌≡◌, refl, true, none, some, [], ◌∷◌, ◌⊎◌, length, get_elem?,
}
use http_framework.Pool.{HttpMemoryPool, new_pool, allocate, deallocate}
use http_framework.Pool.Invariant.{
  IsReachable, starts, allocates, deallocates, IsPool, is_free, reachable-IsPool, allocate_lem,
}

abbrev two_blocks : HttpMemoryPool
two_blocks = new_pool 2 4096

-- One block out, its double release refused.
abbrev released : HttpMemoryPool
released = deallocate (some 0) (deallocate (some 0) (allocate two_blocks).0)

abbrev released_from : IsReachable released
released_from = deallocates (some 0) (deallocates (some 0) (allocates (starts 2 4096)))

reachable-IsPool_example : IsPool released
reachable-IsPool_example = reachable-IsPool released_from

double_release : released.free_blocks ≡ 1 ∷ 0 ∷ []
unfolding deallocate allocate new_pool
double_release = refl

allocate_lem_example :
    (((allocate released).1 ≡ none) × (released.used_blocks ≡ length released.blocks))
    ⊎ ((i : ℕ) × ((allocate released).1 ≡ some i)
        × (is_free released.blocks i ≡ true)
        × (get_elem? (allocate released).0.blocks i ≡ some true)
        × ((allocate released).0.used_blocks ≡ released.used_blocks + 1)
        × (released.used_blocks < length released.blocks))
allocate_lem_example = allocate_lem released_from
