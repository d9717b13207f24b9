-- ===== src/ContainerHeap.antt =====
-- Package container/heap of Go, which the proxy pools of the broker and the client map of the
-- turbotunnel are built on, and the laws that its clients fulfil.
-- `none` is a panic in the client, or the fuel of a loop running out. A state is a store with the
-- slice of the heap in it.
pub mod Order
mod Up
mod Sink
mod Down
pub mod Laws
pub mod Loose
use snowflake.Common.{
  ℕ, zero, suc, ◌+◌, ◌-◌, ◌*◌, ◌/◌, ◌<◌, ◌≡◌, Bool, true, false, Option, none, some, List, take,
  ltb, length, get_or, ◌==◌, if◌then◌else◌,
}
use snowflake.Common.Array.{exchange}

-- heap.Interface.
pub record HeapInterface (S E : Type 0) : Type 0 where
  pub len : S → Option ℕ
  pub less : S → ℕ → ℕ → Option Bool
  pub swap : S → ℕ → ℕ → Option S
  pub push : S → E → Option S
  pub pop : S → Option (E × S)

infixl 5 ◌>>=◌
abbrev pub ◌>>=◌ {ℓ κ} : {A : Type ℓ} {B : Type κ} → Option A → (A → Option B) → Option B
none >>= f = none
some a >>= f = f a

abbrev pub parent : ℕ → ℕ
parent c = (c - 1) / 2

module _ {S E : Type 0} (h : HeapInterface S E) where
  -- A loop of `up` ends at the root, whose parent is itself.
  unfoldable pub up_loop : ℕ → S → ℕ → Option S
  up_loop zero s j = none
  up_loop (suc f) s j = elim (parent j == j) [
    | true ↦ some s
    | false ↦ h.less s j (parent j) >>= λ below. elim below [
      | false ↦ some s
      | true ↦ h.swap s (parent j) j >>= λ s'. up_loop f s' (parent j)
    ]
  ]

  unfoldable pub up : S → ℕ → Option S
  up s j = up_loop (j + 1) s j

  -- The child with the smaller key; the left child is in the heap.
  unfoldable pub smaller_child : S → ℕ → ℕ → Option ℕ
  smaller_child s i n =
      let left = 2 * i + 1 in
      elim (ltb (left + 1) n) [
        | true ↦ h.less s (left + 1) left >>= λ right. some (if right then left + 1 else left)
        | false ↦ some left
      ]

  unfoldable pub down_loop : ℕ → S → ℕ → ℕ → Option (S × ℕ)
  down_loop zero s i n = none
  down_loop (suc f) s i n = elim (ltb (2 * i + 1) n) [
    | false ↦ some (s, i)
    | true ↦ smaller_child s i n >>= λ j. h.less s j i >>= λ below. elim below [
      | false ↦ some (s, i)
      | true ↦ h.swap s i j >>= λ s'. down_loop f s' j n
    ]
  ]

  -- The flag tells whether the element moved.
  unfoldable pub down : S → ℕ → ℕ → Option (S × Bool)
  down s i n = down_loop (n + 1) s i n >>= λ (s', j). some (s', ltb i j)

  unfoldable pub down_or_up : S → ℕ → ℕ → Option S
  down_or_up s i n = down s i n >>= λ (s', moved). elim moved [ true ↦ some s' | false ↦ up s' i ]

  unfoldable pub heap_push : S → E → Option S
  heap_push s x = h.push s x >>= λ s'. h.len s' >>= λ n. up s' (n - 1)

  unfoldable pub heap_pop : S → Option (E × S)
  heap_pop s = h.len s >>= λ size.
      let n = size - 1 in h.swap s 0 n >>= λ s'. down s' 0 n >>= λ (s'', moved). h.pop s''

  unfoldable pub heap_remove : S → ℕ → Option (E × S)
  unfolding down_or_up
  heap_remove s i = h.len s >>= λ size.
      let n = size - 1 in
      let sift = h.swap s i n >>= λ s'. down_or_up s' i n in
      (if n == i then some s else sift) >>= h.pop

  unfoldable pub heap_fix : S → ℕ → Option S
  unfolding down_or_up
  heap_fix s i = h.len s >>= λ n. down_or_up s i n

-- What a client promises: `view` is the slice of the heap, ordered by `prio`. An entry refers to
-- the element that Push was given, and `Gone` says what Pop leaves of it.
pub record HeapModel {S E : Type 0} (X : Type 0) (h : HeapInterface S E) : Type 1 where
  pub Inv : S → Type 0
  pub view : S → List X
  pub prio : X → ℕ
  pub default : X
  pub ref : X → E
  pub Gone : E → S → Type 0
  pub len-view : (s : S) → Inv s → h.len s ≡ some (length (view s))
  pub less-view :
      (s : S) (i j : ℕ)
      → Inv s
      → i < length (view s)
      → j < length (view s)
      → h.less s i j
        ≡ some (ltb (prio (get_or (view s) i default)) (prio (get_or (view s) j default)))
  pub swap-view :
      (s : S) (i j : ℕ)
      → Inv s
      → i < length (view s)
      → j < length (view s)
      → (s' : S) × (h.swap s i j ≡ some s') × Inv s' × (view s' ≡ exchange default (view s) i j)
  pub pop-view :
      (s : S) (n : ℕ)
      → Inv s
      → length (view s) ≡ suc n
      → (s' : S) × (h.pop s ≡ some (ref (get_or (view s) n default), s'))
        × Inv s'
        × (view s' ≡ take n (view s))
        × Gone (ref (get_or (view s) n default)) s'
