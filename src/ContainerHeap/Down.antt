-- ===== src/ContainerHeap/Down.antt =====
-- `down` restores the order of a heap with one element out of place, or leaves it too low.
use native.Mathlib.Numerals.{add-one}
use snowflake.Common.{
  ℕ, ◌+◌, ◌*◌, ◌<◌, ◌≤◌, ◌≡◌, ap, Bool, some, length, true, false, arith, ltb, inl, inr, Bool-cases,
  lt→ltb,
}
use snowflake.ContainerHeap.{HeapInterface, HeapModel, down_loop, down, down_or_up}
use snowflake.ContainerHeap.Order.{key, IsHeap, IsLow, IsHigh, IsLoose}
use snowflake.ContainerHeap.Up.{
  Sifted, Sifted-refl, Sifted-trans, length-Sifted, swap-Sifted, Orders, up-Orders,
}
use snowflake.ContainerHeap.Sink.{exchange-IsHigh, smaller_child-IsSmallerChild, down_loop-Settles}

ltb_irrefl : (i : ℕ) → ltb i i ≡ false
ltb_irrefl i = ground arith

module _ {S E X : Type 0} {h : HeapInterface S E} (m : HeapModel X h) where
  -- The slice behind `down`: ordered if the element moved, else too low at most.
  abbrev Rests : ℕ → ℕ → S → Bool → Type 0
  Rests n i s true = IsHeap m.prio m.default n (m.view s)
  Rests n i s false = IsLow m.prio m.default n (m.view s) i

  down-Rests :
      (n : ℕ) (s : S) (i : ℕ)
      → m.Inv s
      → n ≤ length (m.view s)
      → i < n
      → IsLoose m.prio m.default n (m.view s) i
      → (s' : S) × (moved : Bool) × (down h s i n ≡ some (s', moved))
        × Sifted m n s s'
        × Rests n i s' moved
  unfolding down down_loop
  down-Rests n s i inv fits inside v = elim (Bool-cases (ltb (2 * i + 1) n)) [
    | inr leaf ↦ (
      s,
      false,
      rw (add-one n) (rw (leaf, down_loop, ltb_irrefl i)),
      Sifted-refl m n s inv,
      record {
        inside = inside;
        edges = λ c p q r. v.edges c p q r (ground arith);
        bridged = v.bridged;
      },
    )
    | inl inner ↦
        let (j, pick, small) = smaller_child-IsSmallerChild m n s i inv fits (ground arith) in
        let in_heap = small.inside in
        let child = small.child in
        let test = m.less-view s j i inv (omega arith) (omega arith) in
        elim (Bool-cases
          (ltb (key m.prio m.default (m.view s) j) (key m.prio m.default (m.view s) i))) [
            | inr settled ↦ (
              s,
              false,
              rw (add-one n) (rw (inner, down_loop, pick, test, settled, ltb_irrefl i)),
              Sifted-refl m n s inv,
              record {
                inside = inside;
                edges = λ c p q r. ground (arith, v.edges c, small.least c);
                bridged = v.bridged;
              },
            )
            | inl below ↦
                let (t, run, sifted, shape) = swap-Sifted m n s i j inv inside in_heap fits in
                let high : IsHigh m.prio m.default n (m.view t) j =
                  rw shape (
                    exchange-IsHigh m.prio m.default n (m.view s) i j v fits small
                      (ground arith)) in
                let (s', k, run', far, (sifted', ordered)) =
                  down_loop-Settles m n n t j (omega arith) sifted.inv
                    (rw (length-Sifted m sifted) fits) high in
                (
                  s',
                  true,
                  rw (add-one n) (
                      rw (inner, down_loop, pick, test, below, run, run')
                        (ap (λ (b : Bool). some (s', b)) (lt→ltb i k (omega arith)))),
                  Sifted-trans m sifted sifted',
                  ordered,
                )
          ]
  ]

  -- An element out of place in both directions is put in order.
  pub down_or_up-Orders :
      (n : ℕ) (s : S) (i : ℕ)
      → m.Inv s
      → n ≤ length (m.view s)
      → i < n
      → IsLoose m.prio m.default n (m.view s) i
      → (s' : S) × (down_or_up h s i n ≡ some s') × Orders m n s s'
  unfolding down_or_up
  down_or_up-Orders n s i inv fits inside v = finish (down-Rests n s i inv fits inside v)
    where
      finish :
          (s' : S) × (moved : Bool) × (down h s i n ≡ some (s', moved))
            × Sifted m n s s'
            × Rests n i s' moved
          → (s' : S) × (down_or_up h s i n ≡ some s') × Orders m n s s'
      finish (t, true, run, sifted, ordered) = (t, rw run, (sifted, ordered))
      finish (t, false, run, sifted, low) =
          let (s', run', (sifted', ordered)) =
            up-Orders m n t i sifted.inv (rw (length-Sifted m sifted) fits) low in
          (s', rw run run', (Sifted-trans m sifted sifted', ordered))

  -- An element that is too high at most sinks to its place.
  pub down-Orders :
      (n : ℕ) (s : S) (i : ℕ)
      → m.Inv s
      → n ≤ length (m.view s)
      → IsHigh m.prio m.default n (m.view s) i
      → (s' : S) × (moved : Bool) × (down h s i n ≡ some (s', moved)) × Orders m n s s'
  unfolding down
  down-Orders n s i inv fits v =
      let (s', j, run, far, done) = down_loop-Settles m (n + 1) n s i (omega arith) inv fits v in
      (s', ltb i j, rw run, done)
