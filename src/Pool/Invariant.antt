-- ===== src/Pool/Invariant.antt =====
-- src/utils/MemoryPool.cpp: the invariant of HttpMemoryPool through its operations.
use http_framework.Prelude.{
  ℕ, zero, suc, ◌+◌, ◌<◌, ◌≡◌, refl, ap, sym, ◌∙◌, Bool, true, false, not, ◌&&◌, ◌||◌, Option, none,
  some, List, [], ◌∷◌, ◌++◌, ◌==◌, if◌then◌else◌, length, get_elem?, arith, inl, inr, ◌⊎◌,
  Option-cases, length-append,
}
use http_framework.Pool.{
  HttpMemoryPool, set_used, all_free, positions, new_pool, take_block, allocate, give_back,
  deallocate, reset, default_pool_size, count_up,
}

abbrev pub has : ℕ → List ℕ → Bool
has i [] = false
has i (j ∷ js) = (j == i) || has i js

abbrev pub distinct : List ℕ → Bool
distinct [] = true
distinct (j ∷ js) = not (has j js) && distinct js

-- A block of the pool whose flag is not set.
abbrev pub is_free : List Bool → ℕ → Bool
is_free blocks i = elim (get_elem? blocks i) [ none ↦ false | some used ↦ not used ]

abbrev pub count_used : List Bool → ℕ
count_used [] = 0
count_used (b ∷ blocks) = if b then suc (count_used blocks) else count_used blocks

-- The queue holds each block that is not in use, once, and the counters add up.
pub record IsPool (p : HttpMemoryPool) : Type 0 where
  pub queued : (i : ℕ) → has i p.free_blocks ≡ is_free p.blocks i
  pub once : distinct p.free_blocks ≡ true
  pub counted : p.used_blocks ≡ count_used p.blocks
  pub balance : p.used_blocks + length p.free_blocks ≡ length p.blocks

pub data IsReachable : HttpMemoryPool → Type 0 where
  starts : (pool_size block_size : ℕ) → IsReachable (new_pool pool_size block_size)
  allocates : {p : HttpMemoryPool} → IsReachable p → IsReachable (allocate p).0
  deallocates : {p : HttpMemoryPool} (b : Option ℕ) → IsReachable p → IsReachable (deallocate b p)
  resets : {p : HttpMemoryPool} → IsReachable p → IsReachable (reset p)

length-set_used :
    (i : ℕ) (used : Bool) (blocks : List Bool) → length (set_used i used blocks) ≡ length blocks
unfolding set_used
length-set_used i used [] = refl
length-set_used zero used (b ∷ blocks) = refl
length-set_used (suc i) used (b ∷ blocks) = ap suc (length-set_used i used blocks)

-- Writing a flag of the pool changes that flag only.
is_free-set_used :
    (i j : ℕ) (used old : Bool) (blocks : List Bool)
    → get_elem? blocks i ≡ some old
    → is_free (set_used i used blocks) j ≡ (if i == j then not used else is_free blocks j)
unfolding set_used
is_free-set_used i j used old [] h = absurd (ground arith)
is_free-set_used zero zero used old (b ∷ blocks) h = refl
is_free-set_used zero (suc j) used old (b ∷ blocks) h = ground arith
is_free-set_used (suc i) zero used old (b ∷ blocks) h = ground arith
is_free-set_used (suc i) (suc j) used old (b ∷ blocks) h =
    is_free-set_used i j used old blocks h ∙ ground arith

count_used-set_used :
    (i : ℕ) (used old : Bool) (blocks : List Bool)
    → get_elem? blocks i ≡ some old
    → count_used (set_used i used blocks) + (if old then 1 else 0)
      ≡ count_used blocks + (if used then 1 else 0)
unfolding set_used
count_used-set_used i used old [] h = absurd (ground arith)
count_used-set_used zero used old (b ∷ blocks) h = ground arith
count_used-set_used (suc i) used old (b ∷ blocks) h =
    ground (arith, count_used-set_used i used old blocks h)

count_used-all_free : (n : ℕ) → count_used (all_free n) ≡ 0
unfolding all_free
count_used-all_free zero = refl
count_used-all_free (suc n) = count_used-all_free n

has-append : (i : ℕ) (js ks : List ℕ) → has i (js ++ ks) ≡ (has i js || has i ks)
has-append i [] ks = refl
has-append i (j ∷ js) ks = ground (arith, has-append i js ks)

distinct-append :
    (js : List ℕ) (k : ℕ) → distinct js ≡ true → has k js ≡ false → distinct (js ++ k ∷ []) ≡ true
distinct-append [] k h n = refl
distinct-append (j ∷ js) k h n =
    ground (arith, has-append j js (k ∷ []), distinct-append js k (ground arith) (ground arith))

length-all_free : (n : ℕ) → length (all_free n) ≡ n
unfolding all_free
length-all_free zero = refl
length-all_free (suc n) = ap suc (length-all_free n)

length-positions : (i : ℕ) (blocks : List Bool) → length (positions i blocks) ≡ length blocks
unfolding positions
length-positions i [] = refl
length-positions i (b ∷ blocks) = ap suc (length-positions (suc i) blocks)

has-positions-low : (i j : ℕ) (blocks : List Bool) → j < i → has j (positions i blocks) ≡ false
unfolding positions
has-positions-low i j [] h = refl
has-positions-low i j (b ∷ blocks) h =
    ground (arith, has-positions-low (suc i) j blocks (omega arith))

distinct-positions : (i : ℕ) (blocks : List Bool) → distinct (positions i blocks) ≡ true
unfolding positions
distinct-positions i [] = refl
distinct-positions i (b ∷ blocks) =
    ground
      (arith, has-positions-low (suc i) i blocks (omega arith), distinct-positions (suc i) blocks)

-- All positions are queued, and all flags are cleared.
has-positions :
    (i j k : ℕ) (blocks : List Bool)
    → k ≡ i + j
    → has k (positions i blocks) ≡ is_free (all_free (length blocks)) j
unfolding positions all_free
has-positions i j k [] h = refl
has-positions i zero k (b ∷ blocks) h = ground arith
has-positions i (suc j) k (b ∷ blocks) h =
    ground (arith, has-positions (suc i) j k blocks (omega arith))

all_free-IsPool :
    (p : HttpMemoryPool) (blocks : List Bool)
    → p.blocks ≡ all_free (length blocks)
    → p.free_blocks ≡ positions 0 blocks
    → p.used_blocks ≡ 0
    → IsPool p
all_free-IsPool p blocks b f u = record {
  queued = λ i. rw (f, b) (has-positions 0 i i blocks (omega arith));
  once = rw f (distinct-positions 0 blocks);
  counted = rw (u, b) (sym (count_used-all_free (length blocks)));
  balance =
      omega (
        arith,
        ap length b,
        ap length f,
        length-positions 0 blocks,
        length-all_free (length blocks),
      );
}

new_pool-IsPool : (pool_size block_size : ℕ) → IsPool (new_pool pool_size block_size)
unfolding new_pool
new_pool-IsPool pool_size block_size =
    let n = if pool_size == 0 then default_pool_size else pool_size in
    all_free-IsPool (new_pool pool_size block_size) (all_free n) (rw (length-all_free n) refl) refl
      refl

reset-IsPool : (p : HttpMemoryPool) → IsPool (reset p)
unfolding reset
reset-IsPool p = all_free-IsPool (reset p) p.blocks refl refl refl

-- What the head of the queue is, and that it is nowhere else in it.
take_block-IsPool :
    (p : HttpMemoryPool) (free : List ℕ)
    → free ≡ p.free_blocks
    → IsPool p
    → IsPool (take_block p free).0
unfolding take_block
take_block-IsPool p [] e ok = record {
  queued = ok.queued;
  once = ok.once;
  counted = ok.counted;
  balance = ok.balance;
}
take_block-IsPool p (i ∷ free) e ok =
    let here : has i (i ∷ free) ≡ true = ground arith in
    let flag : is_free p.blocks i ≡ true = sym (ok.queued i) ∙ rw (sym e) here in
    let alone : distinct (i ∷ free) ≡ true = ap distinct e ∙ ok.once in
    elim (Option-cases (get_elem? p.blocks i)) [
      | inl absent ↦ absurd (ground arith)
      | inr (old, at) ↦ record {
        queued = λ j.
            let before : has j (i ∷ free) ≡ is_free p.blocks j = ap (has j) e ∙ ok.queued j in
            ground (arith, is_free-set_used i j true old p.blocks at, before);
        once = ground arith;
        counted = ground (arith, count_used-set_used i true old p.blocks at, ok.counted);
        balance = omega (arith, length-set_used i true p.blocks, ok.balance, ap length e);
      }
    ]

give_back-IsPool : (p : HttpMemoryPool) (i : ℕ) → IsPool p → IsPool (give_back p i)
unfolding give_back
give_back-IsPool p i ok = elim (Option-cases (get_elem? p.blocks i)) [
  | inl absent ↦ rw (give_back, absent) ok
  | inr (false, at) ↦ rw (give_back, at) ok
  | inr (true, at) ↦
      rw (give_back, at)
        (let absent : has i p.free_blocks ≡ false = ok.queued i ∙ ground arith in
          let one_less = count_used-set_used i false true p.blocks at in
          record {
            queued = λ j.
                has-append j p.free_blocks (i ∷ [])
                ∙ ground (arith, is_free-set_used i j false true p.blocks at, ok.queued j);
            once = distinct-append p.free_blocks i ok.once absent;
            counted = omega (arith, one_less, ok.counted);
            balance = omega (
              arith,
              one_less,
              ok.counted,
              ok.balance,
              length-set_used i false p.blocks,
              length-append p.free_blocks (i ∷ []),
            );
          })
]

-- The invariant does not look at the counters of calls.
with_calls-IsPool :
    (p q : HttpMemoryPool)
    → q.blocks ≡ p.blocks
    → q.free_blocks ≡ p.free_blocks
    → q.used_blocks ≡ p.used_blocks
    → IsPool p
    → IsPool q
with_calls-IsPool p q b f u ok = record {
  queued = λ i. rw (b, f) (ok.queued i);
  once = rw f ok.once;
  counted = rw (b, u) ok.counted;
  balance = rw (b, f, u) ok.balance;
}

-- In every state that the pool can reach, its queue holds each block that is not in use, once, its
-- counter is the number of blocks in use, and used and queued blocks are all blocks.
pub reachable-IsPool : {p : HttpMemoryPool} → IsReachable p → IsPool p
unfolding allocate deallocate
reachable-IsPool (starts pool_size block_size) = new_pool-IsPool pool_size block_size
reachable-IsPool (allocates {p} from) =
    let counted = record p { alloc_calls = count_up p.alloc_calls } in
    take_block-IsPool counted p.free_blocks refl
      (with_calls-IsPool p counted refl refl refl (reachable-IsPool from))
reachable-IsPool (deallocates {p} none from) = reachable-IsPool from
reachable-IsPool (deallocates {p} (some i) from) =
    let counted = record p { dealloc_calls = count_up p.dealloc_calls } in
    give_back-IsPool counted i (with_calls-IsPool p counted refl refl refl (reachable-IsPool from))
reachable-IsPool (resets {p} from) = reset-IsPool p

get_elem?-set_used :
    (i : ℕ) (used old : Bool) (blocks : List Bool)
    → get_elem? blocks i ≡ some old
    → get_elem? (set_used i used blocks) i ≡ some used
unfolding set_used
get_elem?-set_used i used old [] h = absurd (ground arith)
get_elem?-set_used zero used old (b ∷ blocks) h = refl
get_elem?-set_used (suc i) used old (b ∷ blocks) h = get_elem?-set_used i used old blocks h

hands_out :
    (p : HttpMemoryPool) (free : List ℕ)
    → free ≡ p.free_blocks
    → IsPool p
    → (((take_block p free).1 ≡ none) × (p.used_blocks ≡ length p.blocks))
      ⊎ ((i : ℕ) × ((take_block p free).1 ≡ some i)
          × (is_free p.blocks i ≡ true)
          × (get_elem? (take_block p free).0.blocks i ≡ some true)
          × ((take_block p free).0.used_blocks ≡ p.used_blocks + 1)
          × (p.used_blocks < length p.blocks))
unfolding take_block
hands_out p [] e ok = inl (refl, omega (arith, ok.balance, ap length e))
hands_out p (i ∷ free) e ok =
    let here : has i (i ∷ free) ≡ true = ground arith in
    let flag : is_free p.blocks i ≡ true = sym (ok.queued i) ∙ rw (sym e) here in
    elim (Option-cases (get_elem? p.blocks i)) [
      | inl absent ↦ absurd (ground arith)
      | inr (old, at) ↦ inr (
        i,
        refl,
        flag,
        get_elem?-set_used i true old p.blocks at,
        refl,
        omega (arith, ok.balance, ap length e),
      )
    ]

-- In a reachable state, allocation fails just when all blocks are in use; otherwise it hands out a
-- block that was not in use and now is, and one more block is in use.
pub allocate_lem :
    {p : HttpMemoryPool}
    → IsReachable p
    → (((allocate p).1 ≡ none) × (p.used_blocks ≡ length p.blocks))
      ⊎ ((i : ℕ) × ((allocate p).1 ≡ some i)
          × (is_free p.blocks i ≡ true)
          × (get_elem? (allocate p).0.blocks i ≡ some true)
          × ((allocate p).0.used_blocks ≡ p.used_blocks + 1)
          × (p.used_blocks < length p.blocks))
unfolding allocate
allocate_lem {p} from =
    let counted = record p { alloc_calls = count_up p.alloc_calls } in
    hands_out counted p.free_blocks refl
      (with_calls-IsPool p counted refl refl refl (reachable-IsPool from))
