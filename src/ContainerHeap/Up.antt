-- ===== src/ContainerHeap/Up.antt =====
-- `up` restores the order of a heap with one element too low.
use mathlib.Core.List.{Perm}
use mathlib.Core.List.Perm
use snowflake.Common.{
  ℕ, zero, suc, ◌+◌, ◌<◌, ◌≤◌, ◌≡◌, refl, ◌∙◌, some, List, length, get_or, arith, ltb, ◌==◌, inl,
  inr, Bool-cases,
}
use snowflake.Common.Array.{exchange, get_or-exchange, exchange-perm, length-perm}
use snowflake.ContainerHeap.{HeapInterface, HeapModel, parent, up_loop, up}
use snowflake.ContainerHeap.Order.{key, IsHeap, IsLow}

-- Exchanging the low element with its parent moves the fault up.
exchange-IsLow :
    {X : Type 0} (prio : X → ℕ) (d : X) (n : ℕ) (xs : List X) (j : ℕ)
    → IsLow prio d n xs j
    → n ≤ length xs
    → 0 < j
    → key prio d xs j < key prio d xs (parent j)
    → IsLow prio d n (exchange d xs (parent j) j) (parent j)
exchange-IsLow prio d n xs j v fits pos below =
    grind (arith, v.inside, get_or-exchange d xs (parent j) j)

module _ {S E X : Type 0} {h : HeapInterface S E} (m : HeapModel X h) where
  -- s' holds the elements of s, those from n on where they were.
  pub record Sifted (n : ℕ) (s s' : S) : Type 0 where
    pub inv : m.Inv s'
    pub perm : Perm (m.view s') (m.view s)
    pub kept : (k : ℕ) → n ≤ k → get_or (m.view s') k m.default ≡ get_or (m.view s) k m.default

module _ {S E X : Type 0} {h : HeapInterface S E} (m : HeapModel X h) where
  pub Sifted-refl : (n : ℕ) (s : S) → m.Inv s → Sifted m n s s
  Sifted-refl n s i = record { inv = i; perm = Perm.refl (m.view s); kept = λ k p. refl }

  pub Sifted-trans : {n : ℕ} {s t u : S} → Sifted m n s t → Sifted m n t u → Sifted m n s u
  Sifted-trans p q = record {
    inv = q.inv;
    perm = Perm.trans q.perm p.perm;
    kept = λ k l. q.kept k l ∙ p.kept k l;
  }

  pub length-Sifted : {n : ℕ} {s t : S} → Sifted m n s t → length (m.view t) ≡ length (m.view s)
  length-Sifted p = length-perm p.perm

  pub swap-Sifted :
      (n : ℕ) (s : S) (i j : ℕ)
      → m.Inv s
      → i < n
      → j < n
      → n ≤ length (m.view s)
      → (s' : S) × (h.swap s i j ≡ some s')
        × Sifted m n s s'
        × (m.view s' ≡ exchange m.default (m.view s) i j)
  swap-Sifted n s i j inv hi hj fits =
      let (s', run, inv', shape) = m.swap-view s i j inv (omega arith) (omega arith) in
      let at = get_or-exchange m.default (m.view s) i j in
      (
        s',
        run,
        record {
          inv = inv';
          perm = rw shape (exchange-perm m.default (m.view s) i j (omega arith) (omega arith));
          kept = λ k l. rw shape (at k (omega arith) (omega arith) ∙ ground arith);
        },
        shape,
      )

  -- What a call that orders the first n elements leaves.
  abbrev pub Orders : ℕ → S → S → Type 0
  Orders n s s' = Sifted m n s s' × IsHeap m.prio m.default n (m.view s')

  up_loop-Orders :
      (f n : ℕ) (s : S) (j : ℕ)
      → j < f
      → m.Inv s
      → n ≤ length (m.view s)
      → IsLow m.prio m.default n (m.view s) j
      → (s' : S) × (up_loop h f s j ≡ some s') × Orders n s s'
  unfolding up_loop
  up_loop-Orders zero n s j lt inv fits v = absurd (omega arith)
  up_loop-Orders (suc f) n s j lt inv fits v = elim (Bool-cases (parent j == j)) [
    | inl root ↦
        (s, rw (root, up_loop), (Sifted-refl n s inv, λ c p q. v.edges c p q (ground arith)))
    | inr child ↦
        let xs = m.view s in
        let inside = v.inside in
        let test = m.less-view s j (parent j) inv (omega arith) (omega arith) in
        elim (Bool-cases (ltb (key m.prio m.default xs j) (key m.prio m.default xs (parent j)))) [
          | inr settled ↦ (
            s,
            rw (child, up_loop, test, settled),
            (Sifted-refl n s inv, λ c p q. ground (arith, v.edges c)),
          )
          | inl below ↦
              let (t, run, sifted, shape) =
                swap-Sifted n s (parent j) j inv (omega arith) inside fits in
              let low : IsLow m.prio m.default n (m.view t) (parent j) =
                rw shape
                  (exchange-IsLow m.prio m.default n xs j v fits (ground arith) (ground arith)) in
              let (s', run', (sifted', ordered)) =
                up_loop-Orders f n t (parent j) (ground arith) sifted.inv
                  (rw (length-Sifted sifted) fits) low in
              (
                s',
                rw (child, up_loop, test, below, run) run',
                (Sifted-trans sifted sifted', ordered),
              )
        ]
  ]

  -- `up` turns a slice with one element too low into a heap of the same elements.
  pub up-Orders :
      (n : ℕ) (s : S) (j : ℕ)
      → m.Inv s
      → n ≤ length (m.view s)
      → IsLow m.prio m.default n (m.view s) j
      → (s' : S) × (up h s j ≡ some s') × Orders n s s'
  unfolding up
  up-Orders n s j inv fits v = up_loop-Orders (j + 1) n s j (omega arith) inv fits v
