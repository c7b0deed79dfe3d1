-- ===== src/Server/Ids.antt =====
-- include/utils/SocketCompat.h: connection identifiers, a descriptor with the generation of its
-- connection, and the counter that the generations come from. An `int` descriptor is not negative.
use http_framework.Prelude.{
  ℕ, zero, suc, ◌+◌, ◌-◌, ◌*◌, ◌/◌, ◌%◌, ◌<◌, ◌≡◌, ◌≢◌, ◌==◌, if◌then◌else◌, arith,
}

abbrev pub u32_mod : ℕ
u32_mod = 4294967296

-- The generation in the high 32 bits, the descriptor in the low ones.
unfoldable pub make_conn_id : ℕ → ℕ → ℕ
make_conn_id fd generation = generation * u32_mod + fd % u32_mod

unfoldable pub conn_id_generation : ℕ → ℕ
conn_id_generation conn_id = conn_id / u32_mod % u32_mod

unfoldable pub conn_id_fd : ℕ → ℕ
conn_id_fd conn_id = conn_id % u32_mod

-- The generation, and the counter afterwards: 0 is passed over.
unfoldable pub next_connection_generation : ℕ → ℕ × ℕ
next_connection_generation counter =
    if counter == 0
    then ((counter + 1) % u32_mod, (counter + 2) % u32_mod)
    else (counter, (counter + 1) % u32_mod)

-- The counter after n generations were drawn.
unfoldable pub counter_after : ℕ → ℕ → ℕ
counter_after zero counter = counter
counter_after (suc n) counter = (next_connection_generation (counter_after n counter)).1

-- An identifier gives back the descriptor and the generation that it was made of, and is never the 0
-- that stands for no connection where the generation is not 0.
pub make_conn_id_fields :
    (fd generation : ℕ)
    → fd < u32_mod
    → generation < u32_mod
    → 0 < generation
    → (conn_id_fd (make_conn_id fd generation) ≡ fd)
      × (conn_id_generation (make_conn_id fd generation) ≡ generation)
      × (0 < make_conn_id fd generation)
unfolding make_conn_id conn_id_fd conn_id_generation
make_conn_id_fields fd generation small narrow positive = omega arith

pub make_conn_id_generation :
    (fd generation : ℕ)
    → generation < u32_mod
    → conn_id_generation (make_conn_id fd generation) ≡ generation
unfolding make_conn_id conn_id_generation
make_conn_id_generation fd generation narrow = omega arith

pub next_connection_generation_range :
    (counter : ℕ)
    → counter < u32_mod
    → (0 < (next_connection_generation counter).0)
      × ((next_connection_generation counter).0 < u32_mod)
      × ((next_connection_generation counter).1 < u32_mod)
unfolding next_connection_generation
next_connection_generation_range counter small = ground arith

-- The generation that a counter gives next, as a number below 2^32 - 1.
abbrev place : ℕ → ℕ
place counter = (next_connection_generation counter).0 - 1

place-next :
    (counter : ℕ)
    → counter < u32_mod
    → place (next_connection_generation counter).1 ≡ (place counter + 1) % 4294967295
unfolding next_connection_generation
place-next counter small = ground arith

counter_after-lt : (n counter : ℕ) → counter < u32_mod → counter_after n counter < u32_mod
unfolding counter_after
counter_after-lt zero counter small = small
counter_after-lt (suc n) counter small =
    (next_connection_generation_range (counter_after n counter)
      (counter_after-lt n counter small)).2

place-counter_after :
    (n counter : ℕ)
    → counter < u32_mod
    → place (counter_after n counter) ≡ (place counter + n) % 4294967295
unfolding counter_after
place-counter_after zero counter small =
    omega (arith, next_connection_generation_range counter small)
place-counter_after (suc n) counter small = omega (
  arith,
  place-next (counter_after n counter) (counter_after-lt n counter small),
  place-counter_after n counter small,
)

-- Of two generations drawn from one counter, with fewer than 2^32 - 1 draws from the one to the other,
-- neither is 0 and they differ.
pub next_connection_generation-distinct :
    (counter n m : ℕ)
    → counter < u32_mod
    → n < m
    → m < n + 4294967295
    → (0 < (next_connection_generation (counter_after n counter)).0)
      × ((next_connection_generation (counter_after n counter)).0
          ≢ (next_connection_generation (counter_after m counter)).0)
next_connection_generation-distinct counter n m small before near = (
  (next_connection_generation_range (counter_after n counter) (counter_after-lt n counter small)).0,
  λ same. omega (
    arith,
    same,
    next_connection_generation_range counter small,
    place-counter_after n counter small,
    place-counter_after m counter small,
    next_connection_generation_range (counter_after n counter) (counter_after-lt n counter small),
    next_connection_generation_range (counter_after m counter) (counter_after-lt m counter small),
  ),
)
