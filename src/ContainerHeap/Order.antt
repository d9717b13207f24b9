-- ===== src/ContainerHeap/Order.antt =====
-- The order of a heap, and its state while one element is out of place.
use snowflake.Common.{ℕ, ◌<◌, ◌≤◌, ◌≡◌, ◌≢◌, List, get_or}
use snowflake.ContainerHeap.{parent}

module _ {X : Type 0} (prio : X → ℕ) (d : X) where
  abbrev pub key : List X → ℕ → ℕ
  key xs i = prio (get_or xs i d)

  -- No element below n is smaller than its parent.
  abbrev pub IsHeap : ℕ → List X → Type 0
  IsHeap n xs = (c : ℕ) → 0 < c → c < n → key xs (parent c) ≤ key xs c

  -- The children of i are no smaller than the parent of i.
  abbrev pub IsBridged : ℕ → List X → ℕ → Type 0
  IsBridged n xs i = (c : ℕ) → 0 < c → c < n → parent c ≡ i → 0 < i → key xs (parent i) ≤ key xs c

  -- Only the edge above i may be out of order.
  pub record IsLow (n : ℕ) (xs : List X) (i : ℕ) : Type 0 where
    pub inside : i < n
    pub edges : (c : ℕ) → 0 < c → c < n → c ≢ i → key xs (parent c) ≤ key xs c
    pub bridged : IsBridged n xs i

  -- Only the edges below i may be out of order.
  pub record IsHigh (n : ℕ) (xs : List X) (i : ℕ) : Type 0 where
    pub edges : (c : ℕ) → 0 < c → c < n → parent c ≢ i → key xs (parent c) ≤ key xs c
    pub bridged : IsBridged n xs i

  -- Only the edges at i may be out of order.
  pub record IsLoose (n : ℕ) (xs : List X) (i : ℕ) : Type 0 where
    pub edges : (c : ℕ) → 0 < c → c < n → c ≢ i → parent c ≢ i → key xs (parent c) ≤ key xs c
    pub bridged : IsBridged n xs i
