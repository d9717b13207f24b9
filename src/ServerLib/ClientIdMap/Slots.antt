-- ===== src/ServerLib/ClientIdMap/Slots.antt =====
-- The slots of the circular buffer in clientIDMap: where the call that is j calls old stands.
use snowflake.Common.{
  ℕ, zero, suc, ◌+◌, ◌-◌, ◌%◌, ◌<◌, ◌≡◌, ◌≢◌, refl, Option, none, some, get_elem?, replicate, ltb,
  ◌==◌, if◌then◌else◌, arith,
}

-- The slot of the call that is j calls old, and the age of the call in slot j.
abbrev pub slot : (oldest cap j : ℕ) → ℕ
slot oldest cap j = if ltb j oldest then oldest - 1 - j else oldest + cap - 1 - j

next_oldest :
    (oldest cap : ℕ)
    → oldest < cap
    → (oldest + 1) % cap ≡ (if oldest + 1 == cap then 0 else oldest + 1)
next_oldest oldest cap h = grind arith

pub get_elem?-replicate :
    {A : Type 0} (n i : ℕ) (a : A) → i < n → get_elem? (replicate n a) i ≡ some a
get_elem?-replicate zero i a h = absurd (omega arith)
get_elem?-replicate (suc n) zero a h = refl
get_elem?-replicate (suc n) (suc i) a h = get_elem?-replicate n i a (omega arith)

module _ (oldest cap : ℕ) (h : oldest < cap) where
  pub slot-oldest : slot ((oldest + 1) % cap) cap oldest ≡ 0
  slot-oldest = ground (arith, next_oldest oldest cap h)

  pub slot-zero : slot ((oldest + 1) % cap) cap 0 ≡ oldest
  slot-zero = ground (arith, next_oldest oldest cap h)

  pub slot-other :
      (i : ℕ) → i < cap → i ≢ oldest → slot ((oldest + 1) % cap) cap i ≡ suc (slot oldest cap i)
  slot-other i k n = ground (arith, next_oldest oldest cap h)

  pub slot-suc : (j : ℕ) → suc j < cap → slot ((oldest + 1) % cap) cap (suc j) ≡ slot oldest cap j
  slot-suc j k = ground (arith, next_oldest oldest cap h)

  pub next_oldest-lt : (oldest + 1) % cap < cap
  next_oldest-lt = ground (arith, next_oldest oldest cap h)

-- The slot of the first j calls.
abbrev pub held : Option ℕ → (oldest cap : ℕ) → Option ℕ
held none oldest cap = none
held (some j) oldest cap = if ltb j cap then some (slot oldest cap j) else none
