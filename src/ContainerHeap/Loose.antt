-- ===== src/ContainerHeap/Loose.antt =====
-- An entry with a new key leaves the edges at its place loose, which is what heap.Fix mends.
use snowflake.Common.{ℕ, ◌<◌, List, length, set, arith}
use snowflake.Common.Array.{get_or-set}
use snowflake.ContainerHeap.{parent}
use snowflake.ContainerHeap.Order.{IsHeap, IsLoose}

module _ {X : Type 0} (prio : X → ℕ) (d : X) where
  pub set-IsLoose :
      (n : ℕ) (xs : List X) (i : ℕ) (x : X)
      → i < length xs
      → IsHeap prio d n xs
      → IsLoose prio d n (set xs i x) i
  set-IsLoose n xs i x l order =
      let at = λ (k : ℕ). get_or-set d xs i k x l in
      record {
        edges = λ c p q other above. rw (at c, at (parent c)) (ground (arith, order c p q));
        bridged =
            λ c p q above pos. rw (at c, at (parent i)) (ground (arith, order c p q, order i pos));
      }
