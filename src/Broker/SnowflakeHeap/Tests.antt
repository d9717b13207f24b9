-- ===== src/Broker/SnowflakeHeap/Tests.antt =====
-- Runs of the pool, and the theorems at a pool of two snowflakes.
use mathlib.Core.List.{Perm}
use snowflake.Common.{
  ℕ, ◌<◌, ◌≡◌, refl, Option, none, some, [], ◌∷◌, arith, get_or, zero, suc, ◌==◌, if◌then◌else◌,
}
use snowflake.Common.Array.{swap?}
use snowflake.ContainerHeap.{◌>>=◌, heap_push, heap_pop, up, down, up_loop, down_loop}
use snowflake.Broker.SnowflakeHeap.{
  Snowflake, SnowflakePool, new_snowflake_pool, allocate, pool_push, pool_pop, pool_remove, less,
  swap, push, pop, no_flakes,
}
use snowflake.Broker.SnowflakeHeap.Index.{Points}
use snowflake.Broker.SnowflakeHeap.Pool.{
  IsValid, waiting, add-IsValid, Pops, pool_pop-Pops, pool_remove-Removes,
}

abbrev busy : Snowflake
busy = record {
  id = "b";
  proxy_type = "webext";
  nat_type = "unrestricted";
  clients = 8;
  index = some 0;
}

abbrev idle : Snowflake
idle = record {
  id = "a";
  proxy_type = "webext";
  nat_type = "unrestricted";
  clients = 0;
  index = some 0;
}

abbrev add : SnowflakePool → Snowflake → Option SnowflakePool
unfolding allocate
add sp s = pool_push (allocate sp s).1 (allocate sp s).0

-- Two are added and two are taken, the idle one first.
abbrev takes : Option (Option ℕ × SnowflakePool) → Option ℕ
takes none = none
takes (some (p, sp)) = p

first_out : takes (add new_snowflake_pool busy >>= λ a. add a idle >>= pool_pop) ≡ some 1
unfolding new_snowflake_pool allocate pool_push pool_pop heap_push heap_pop up down less swap push
    pop swap? up_loop down_loop
first_out = refl

abbrev sample : SnowflakePool
sample = record {
  h = record {
    flakes = λ p.
        if p == 0 then record busy { index = some 1 } else if p == 1 then idle else no_flakes p;
    slots = 1 ∷ 0 ∷ [];
  };
  next = 2;
  poll_interval = 5;
}

sample-IsValid : IsValid sample
sample-IsValid = record {
  inv = record { places = places; points = points; below = below };
  order = λ c p q. ground arith;
}
  where
    places : (i : ℕ) → i < 2 → (sample.h.flakes (get_or (1 ∷ 0 ∷ []) i 0)).index ≡ some i
    places zero h = refl
    places (suc zero) h = refl
    places (suc (suc i)) h = absurd (omega arith)

    points : (p : ℕ) → p < 2 → Points (1 ∷ 0 ∷ []) p (sample.h.flakes p).index
    points zero h = (omega arith, refl)
    points (suc zero) h = (omega arith, refl)
    points (suc (suc p)) h = absurd (omega arith)

    below : (i : ℕ) → i < 2 → get_or (1 ∷ 0 ∷ []) i 0 < 2
    below zero h = omega arith
    below (suc zero) h = omega arith
    below (suc (suc i)) h = absurd (omega arith)

add-IsValid_example :
    (sp : SnowflakePool) × (add sample idle ≡ some sp)
    × IsValid sp
    × Perm (waiting sp) ((0, 2) ∷ waiting sample)
    × (sp.next ≡ 3)
unfolding allocate
add-IsValid_example = add-IsValid sample idle sample-IsValid

pool_pop-Pops_example :
    (o : Option ℕ) × (sp : SnowflakePool) × (pool_pop sample ≡ some (o, sp))
    × IsValid sp
    × Pops sample o sp
pool_pop-Pops_example = pool_pop-Pops sample sample-IsValid

pool_remove-Removes_example :
    (sp : SnowflakePool) × (pool_remove sample 0 ≡ some sp)
    × IsValid sp
    × (Perm ((8, 0) ∷ waiting sp) (waiting sample) × (sp.next ≡ 2))
    × ((sp.h.flakes 0).index ≡ none)
pool_remove-Removes_example = pool_remove-Removes sample 0 sample-IsValid (omega arith)
