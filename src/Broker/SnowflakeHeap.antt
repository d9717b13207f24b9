-- ===== src/Broker/SnowflakeHeap.antt =====
-- broker/snowflake-heap.go: the pool of waiting proxies, a heap by the number of their clients.
-- A *Snowflake is a number, the place of its allocation, and `flakes` is the memory behind the
-- pointers; `next` is the pointer that is allocated next. A pool has the memory of its own
-- snowflakes, since a snowflake is pushed to one pool only. Index -1 is `none`. The mutex of the pool
-- makes each method one step. The channels of a snowflake are part of the phases of Broker.Exchange.
mod Index
pub mod Pool
pub mod Held
mod Tests
use Prim.Native.String.{String}
use snowflake.Common.{
  ℕ, zero, suc, ◌+◌, ◌-◌, ◌*◌, Bool, true, false, Option, none, some, List, [], ◌∷◌, ◌++◌, length,
  get_elem?, take, ltb, ◌==◌, if◌then◌else◌,
}
use snowflake.Common.Array.{swap?}
use snowflake.ContainerHeap.{HeapInterface, ◌>>=◌, heap_push, heap_pop, heap_remove}

pub record Snowflake : Type 0 where
  pub id : String
  pub proxy_type : String
  pub nat_type : String
  pub clients : ℕ
  pub index : Option ℕ

unfoldable pub new_snowflake : String → String → String → ℕ → Snowflake
new_snowflake id proxy_type nat_type clients = record {
  id = id;
  proxy_type = proxy_type;
  nat_type = nat_type;
  clients = clients;
  index = some 0;
}

-- The memory of the snowflakes, and the slice of the heap.
pub record SnowflakeHeap : Type 0 where
  pub flakes : ℕ → Snowflake
  pub slots : List ℕ

-- `p.index = v`.
unfoldable pub set_index : (ℕ → Snowflake) → ℕ → Option ℕ → ℕ → Snowflake
set_index flakes p v q = if q == p then record (flakes q) { index = v } else flakes q

unfoldable pub less : SnowflakeHeap → ℕ → ℕ → Option Bool
less sh i j = get_elem? sh.slots i >>= λ a.
    get_elem? sh.slots j >>= λ b. some (ltb (sh.flakes a).clients (sh.flakes b).clients)

unfoldable pub swap : SnowflakeHeap → ℕ → ℕ → Option SnowflakeHeap
unfolding set_index
swap sh i j = swap? sh.slots i j >>= λ slots. get_elem? slots i >>= λ a. get_elem? slots j >>= λ b.
    some (record { flakes = set_index (set_index sh.flakes a (some i)) b (some j); slots = slots })

unfoldable pub push : SnowflakeHeap → ℕ → Option SnowflakeHeap
unfolding set_index
push sh p =
    let n = length sh.slots in
    some (record { flakes = set_index sh.flakes p (some n); slots = sh.slots ++ p ∷ [] })

unfoldable pub pop : SnowflakeHeap → Option (ℕ × SnowflakeHeap)
unfolding set_index
pop sh =
    let n = length sh.slots in
    get_elem? sh.slots (n - 1) >>= λ p.
    some (p, record { flakes = set_index sh.flakes p none; slots = take (n - 1) sh.slots })

abbrev pub heap_interface : HeapInterface SnowflakeHeap ℕ
heap_interface = record {
  len = λ sh. some (length sh.slots);
  less = less;
  swap = swap;
  push = push;
  pop = pop;
}

pub record SnowflakePool : Type 0 where
  pub h : SnowflakeHeap
  pub next : ℕ
  -- in nanoseconds
  pub poll_interval : ℕ

-- The memory before any allocation.
abbrev pub no_flakes : ℕ → Snowflake
no_flakes p = record { id = ""; proxy_type = ""; nat_type = ""; clients = 0; index = none }

unfoldable pub new_snowflake_pool : SnowflakePool
new_snowflake_pool = record {
  h = record { flakes = no_flakes; slots = [] };
  next = 0;
  poll_interval = 20 * 1_000_000_000;
}

-- `new(Snowflake)` with its fields set: the pointer, and the pool with the memory written.
unfoldable pub allocate : SnowflakePool → Snowflake → ℕ × SnowflakePool
allocate sp s = (
  sp.next,
  record sp {
    h = record (sp.h) { flakes = λ q. if q == sp.next then s else sp.h.flakes q };
    next = sp.next + 1;
  },
)

unfoldable pub pool_push : SnowflakePool → ℕ → Option SnowflakePool
pool_push sp p = heap_push heap_interface sp.h p >>= λ h. some (record sp { h = h })

-- `some (none, sp)` is the nil that Pop returns on an empty pool.
unfoldable pub pool_pop : SnowflakePool → Option (Option ℕ × SnowflakePool)
pool_pop sp = elim (ltb 0 (length sp.h.slots)) [
  | true ↦ heap_pop heap_interface sp.h >>= λ (p, h). some (some p, record sp { h = h })
  | false ↦ some (none, sp)
]

unfoldable pub pool_remove : SnowflakePool → ℕ → Option SnowflakePool
pool_remove sp p = elim (sp.h.flakes p).index [
  | none ↦ some sp
  | some i ↦ heap_remove heap_interface sp.h i >>= λ (q, h). some (record sp { h = h })
]

unfoldable pub set_poll_interval : SnowflakePool → ℕ → SnowflakePool
set_poll_interval sp interval = record sp { poll_interval = interval }
