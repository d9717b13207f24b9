-- ===== src/ContainerHeap/Sink.antt =====
-- The loop of `down`: an element that is too high sinks to its place.
use snowflake.Common.{
  ℕ, zero, suc, ◌+◌, ◌-◌, ◌*◌, ◌<◌, ◌≤◌, ◌≡◌, ◌⊎◌, refl, Option, some, List, length, arith, ltb,
  inl, inr, Bool-cases,
}
use snowflake.Common.Array.{exchange, get_or-exchange}
use snowflake.ContainerHeap.{HeapInterface, HeapModel, parent, smaller_child, down_loop}
use snowflake.ContainerHeap.Order.{key, IsHigh, IsLoose}
use snowflake.ContainerHeap.Up.{Sifted-refl, Sifted-trans, length-Sifted, swap-Sifted, Orders}

module _ {X : Type 0} (prio : X → ℕ) (d : X) where
  -- j is a child of i, and no child of i is smaller.
  pub record IsSmallerChild (n : ℕ) (xs : List X) (i j : ℕ) : Type 0 where
    pub inside : j < n
    pub child : (j ≡ 2 * i + 1) ⊎ (j ≡ 2 * i + 2)
    pub least : (c : ℕ) → 0 < c → c < n → parent c ≡ i → key prio d xs j ≤ key prio d xs c

  -- Exchanging a loose element with its smaller child leaves it too high at most.
  pub exchange-IsHigh :
      (n : ℕ) (xs : List X) (i j : ℕ)
      → IsLoose prio d n xs i
      → n ≤ length xs
      → IsSmallerChild n xs i j
      → key prio d xs j < key prio d xs i
      → IsHigh prio d n (exchange d xs i j) j
  exchange-IsHigh n xs i j v fits s below =
      let at = λ (k : ℕ). get_or-exchange d xs i j k (omega arith) (omega (arith, s.inside)) in
      record {
        edges = λ c p q r.
            ground
              (arith, at c, at (parent c), v.edges c, v.bridged j, s.least c, s.inside, s.child);
        bridged = λ c p q r t. ground (arith, at c, at (parent j), v.edges c, s.child);
      }

  High-IsLoose : (n : ℕ) (xs : List X) (i : ℕ) → IsHigh prio d n xs i → IsLoose prio d n xs i
  High-IsLoose n xs i v = record { edges = λ c p q r t. v.edges c p q t; bridged = v.bridged }

module _ {S E X : Type 0} {h : HeapInterface S E} (m : HeapModel X h) where
  pub smaller_child-IsSmallerChild :
      (n : ℕ) (s : S) (i : ℕ)
      → m.Inv s
      → n ≤ length (m.view s)
      → 2 * i + 1 < n
      → (j : ℕ) × (smaller_child h s i n ≡ some j)
        × IsSmallerChild m.prio m.default n (m.view s) i j
  unfolding smaller_child
  smaller_child-IsSmallerChild n s i inv fits left = elim (Bool-cases (ltb (2 * i + 1 + 1) n)) [
    | inr alone ↦ (
      2 * i + 1,
      rw (alone, smaller_child),
      record { inside = left; child = inl refl; least = λ c p q r. ground arith },
    )
    | inl both ↦
        let right : 2 * i + 1 + 1 < n = ground arith in
        let test = m.less-view s (2 * i + 1 + 1) (2 * i + 1) inv (omega arith) (omega arith) in
        let smaller =
          ltb (key m.prio m.default (m.view s) (2 * i + 1 + 1))
            (key m.prio m.default (m.view s) (2 * i + 1)) in
        elim (Bool-cases smaller) [
          | inl r ↦ (
            2 * i + 1 + 1,
            rw (both, smaller_child, test, r),
            let at = λ (c : ℕ) (p : 0 < c) (t : parent c ≡ i).
                  let two : (c ≡ 2 * i + 1) ⊎ (c ≡ 2 * i + 1 + 1) = omega arith in
                  let y : key m.prio m.default (m.view s) (2 * i + 1 + 1)
                      ≤ key m.prio m.default (m.view s) c =
                    ground arith in
                  y in
                record { inside = right; child = inr (omega arith); least = λ c p q t. at c p t },
          )
          | inr l ↦ (
            2 * i + 1,
            rw (both, smaller_child, test, l),
            let at = λ (c : ℕ) (p : 0 < c) (t : parent c ≡ i).
                  let two : (c ≡ 2 * i + 1) ⊎ (c ≡ 2 * i + 1 + 1) = omega arith in
                  let y : key m.prio m.default (m.view s) (2 * i + 1)
                      ≤ key m.prio m.default (m.view s) c =
                    ground arith in
                  y in
                record { inside = left; child = inl refl; least = λ c p q t. at c p t },
          )
        ]
  ]

  -- What the loop of `down` leaves, from i on.
  abbrev pub Settles : ℕ → S → ℕ → Option (S × ℕ) → Type 0
  Settles n s i run = (s' : S) × (j : ℕ) × (run ≡ some (s', j)) × (i ≤ j) × Orders m n s s'

  pub down_loop-Settles :
      (f n : ℕ) (s : S) (i : ℕ)
      → n - i < f
      → m.Inv s
      → n ≤ length (m.view s)
      → IsHigh m.prio m.default n (m.view s) i
      → Settles n s i (down_loop h f s i n)
  unfolding down_loop
  down_loop-Settles zero n s i lt inv fits v = absurd (omega arith)
  down_loop-Settles (suc f) n s i lt inv fits v = elim (Bool-cases (ltb (2 * i + 1) n)) [
    | inr leaf ↦ (
      s,
      i,
      rw (leaf, down_loop),
      omega arith,
      (Sifted-refl m n s inv, λ c p q. v.edges c p q (ground arith)),
    )
    | inl inner ↦
        let (j, pick, small) = smaller_child-IsSmallerChild n s i inv fits (ground arith) in
        let inside = small.inside in
        let child = small.child in
        let test = m.less-view s j i inv (omega arith) (omega arith) in
        elim (Bool-cases
          (ltb (key m.prio m.default (m.view s) j) (key m.prio m.default (m.view s) i))) [
            | inr settled ↦ (
              s,
              i,
              rw (inner, down_loop, pick, test, settled),
              omega arith,
              (Sifted-refl m n s inv, λ c p q. ground (arith, v.edges c, small.least c)),
            )
            | inl below ↦
                let (t, run, sifted, shape) = swap-Sifted m n s i j inv (omega arith) inside fits in
                let high : IsHigh m.prio m.default n (m.view t) j = rw shape (
                  exchange-IsHigh m.prio m.default n (m.view s) i j
                    (High-IsLoose m.prio m.default n (m.view s) i v) fits small (ground arith)) in
                let (s', k, run', far, (sifted', ordered)) =
                  down_loop-Settles f n t j (omega arith) sifted.inv
                    (rw (length-Sifted m sifted) fits) high in
                (
                  s',
                  k,
                  rw (inner, down_loop, pick, test, below, run) run',
                  omega arith,
                  (Sifted-trans m sifted sifted', ordered),
                )
          ]
  ]
