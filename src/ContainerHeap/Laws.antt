-- ===== src/ContainerHeap/Laws.antt =====
-- What heap.Push, Pop, Remove and Fix do to any client that keeps the laws.
use mathlib.Core.List.{Perm}
use mathlib.Core.List.Perm
use mathlib.Core.Path.{subst}
use snowflake.Common.{
  ℕ, zero, suc, ◌+◌, ◌-◌, ◌<◌, ◌≤◌, ◌≡◌, ap, ◌∙◌, Option, some, List, [], ◌∷◌, ◌++◌, take, length,
  get_or, arith, ◌==◌, inl, inr, Bool-cases, length-append, length-take,
}
use snowflake.Common.Array.{
  exchange, get_or-exchange, push-perm, last-perm, get_or-take, get_or-append,
}
use snowflake.ContainerHeap.{
  HeapInterface, HeapModel, parent, heap_push, heap_pop, heap_remove, heap_fix, up,
}
use snowflake.ContainerHeap.Order.{key, IsHeap, IsLow, IsHigh, IsLoose}
use snowflake.ContainerHeap.Up.{Sifted-refl, length-Sifted, swap-Sifted, Orders, up-Orders}
use snowflake.ContainerHeap.Down.{down_or_up-Orders, down-Orders}

module _ {X : Type 0} (prio : X → ℕ) (d : X) where
  root_least_below :
      (f : ℕ) (xs : List X) (i : ℕ)
      → IsHeap prio d (length xs) xs
      → i < f
      → i < length xs
      → key prio d xs 0 ≤ key prio d xs i
  root_least_below zero xs i o lt k = absurd (omega arith)
  root_least_below (suc f) xs i o lt k = ground (arith, o i, root_least_below f xs (parent i) o)

  append-IsLow :
      (xs : List X) (x : X)
      → IsHeap prio d (length xs) xs
      → IsLow prio d (length (xs ++ x ∷ [])) (xs ++ x ∷ []) (length xs)
  append-IsLow xs x o =
      let size = length-append xs (x ∷ []) in
      record {
        inside = omega (arith, size);
        edges = λ c p q r. ground (
          arith,
          size,
          o c,
          get_or-append d xs (x ∷ []) c,
          get_or-append d xs (x ∷ []) (parent c),
        );
        bridged = λ c p q r t. absurd (omega (arith, size));
      }

  exchange-IsHeap :
      (n i : ℕ) (xs : List X)
      → length xs ≡ suc n
      → i < n
      → IsHeap prio d (length xs) xs
      → IsLoose prio d n (exchange d xs i n) i
  exchange-IsHeap n i xs size l o =
      let at = λ (k : ℕ). get_or-exchange d xs i n k (omega arith) (omega arith) in
      record {
        edges = λ c p q r t. ground (arith, at c, at (parent c), o c);
        bridged = λ c p q r t. ground (arith, at c, at (parent i), o c, o i);
      }

  exchange_root-IsHigh :
      (n : ℕ) (xs : List X)
      → length xs ≡ suc n
      → IsHeap prio d (length xs) xs
      → IsHigh prio d n (exchange d xs 0 n) 0
  exchange_root-IsHigh n xs size o =
      let at = λ (k : ℕ). get_or-exchange d xs 0 n k (omega arith) (omega arith) in
      record {
        edges = λ c p q r. ground (arith, at c, at (parent c), o c);
        bridged = λ c p q r t. absurd (omega arith);
      }

  take-IsHeap :
      (n : ℕ) (xs : List X)
      → n ≤ length xs
      → IsHeap prio d n xs
      → IsHeap prio d (length (take n xs)) (take n xs)
  take-IsHeap n xs l o c p q =
      ground (arith, length-take n xs, o c, get_or-take d n xs c, get_or-take d n xs (parent c))

module _ {S E X : Type 0} {h : HeapInterface S E} (m : HeapModel X h) where
  -- The client's invariant, and the order of the whole slice.
  pub record IsOrdered (s : S) : Type 0 where
    pub inv : m.Inv s
    pub order : IsHeap m.prio m.default (length (m.view s)) (m.view s)

module _ {S E X : Type 0} {h : HeapInterface S E} (m : HeapModel X h) where
  Orders-IsOrdered : (s s' : S) → Orders m (length (m.view s)) s s' → IsOrdered m s'
  Orders-IsOrdered s s' (sifted, ordered) = record {
    inv = sifted.inv;
    order = rw (length-Sifted m sifted) ordered;
  }

  -- heap.Push restores the order, once Push of the client has put the entry behind the others.
  pub heap_push-IsOrdered :
      (s t : S) (e : E) (x : X)
      → IsHeap m.prio m.default (length (m.view s)) (m.view s)
      → h.push s e ≡ some t
      → m.Inv t
      → m.view t ≡ m.view s ++ x ∷ []
      → (s' : S) × (heap_push h s e ≡ some s') × IsOrdered m s' × Perm (m.view s') (x ∷ m.view s)
  unfolding heap_push
  heap_push-IsOrdered s t e x order run inv shape =
      let n = length (m.view s) in
      let size : length (m.view t) ≡ n + 1 = ap length shape ∙ length-append (m.view s) (x ∷ []) in
      let last : length (m.view t) - 1 ≡ n = omega (arith, size) in
      let low : IsLow m.prio m.default (length (m.view t)) (m.view t) n =
        rw shape (append-IsLow m.prio m.default (m.view s) x order) in
      let (s', run', done) = up-Orders m (length (m.view t)) t n inv (omega arith) low in
      (
        s',
        rw (run, m.len-view t inv) (ap (up h t) last ∙ run'),
        Orders-IsOrdered t s' done,
        Perm.trans (done.0).perm (rw shape (push-perm (m.view s) x)),
      )

  -- What Pop of the client takes off an ordered slice with one more element behind it.
  abbrev pub Popped : S → X → Option (E × S) → Type 0
  Popped s x run =
      (s' : S) × (run ≡ some (m.ref x, s'))
      × IsOrdered m s'
      × Perm (x ∷ m.view s') (m.view s)
      × m.Gone (m.ref x) s'

  pop-Popped :
      (s t : S) (n : ℕ) (x : X)
      → length (m.view s) ≡ suc n
      → Orders m n s t
      → get_or (m.view s) n m.default ≡ x
      → Popped s x (h.pop t)
  pop-Popped s t n x size (sifted, ordered) top =
      let size' : length (m.view t) ≡ suc n = length-Sifted m sifted ∙ size in
      let (s', run, inv, shape, gone) = m.pop-view t n sifted.inv size' in
      let top' : get_or (m.view t) n m.default ≡ x = sifted.kept n (omega arith) ∙ top in
      (
        s',
        run ∙ ap (λ (y : X). some (m.ref y, s')) top',
        record {
          inv = inv;
          order = rw shape (take-IsHeap m.prio m.default n (m.view t) (omega arith) ordered);
        },
        Perm.trans (rw (← top') (rw shape (last-perm m.default (m.view t) n size'))) sifted.perm,
        subst (λ y. m.Gone (m.ref y) s') top' gone,
      )

  Popped-swapped :
      {s t : S} {x : X} {run : Option (E × S)}
      → Perm (m.view t) (m.view s)
      → Popped t x run
      → Popped s x run
  Popped-swapped p (s', run, o, q, gone) = (s', run, o, Perm.trans q p, gone)

  -- heap.Pop takes the root, and no entry is smaller.
  pub heap_pop-Popped :
      (s : S)
      → IsOrdered m s
      → 0 < length (m.view s)
      → let x = get_or (m.view s) 0 m.default in
        Popped s x (heap_pop h s)
        × ((i : ℕ) → i < length (m.view s) → m.prio x ≤ key m.prio m.default (m.view s) i)
  unfolding heap_pop
  heap_pop-Popped s o pos =
      let n = length (m.view s) - 1 in
      let size : length (m.view s) ≡ suc n = omega arith in
      let (t, run, sifted, shape) =
        swap-Sifted m (length (m.view s)) s 0 n o.inv pos (omega arith) (omega arith) in
      let size' : length (m.view t) ≡ suc n = length-Sifted m sifted ∙ size in
      let (t', moved, run', done) =
        down-Orders m n t 0 sifted.inv (omega arith)
          (rw shape (exchange_root-IsHigh m.prio m.default n (m.view s) size o.order)) in
      let top : get_or (m.view t) n m.default ≡ get_or (m.view s) 0 m.default =
        rw shape (get_or-exchange m.default (m.view s) 0 n n pos (omega arith) ∙ ground arith) in
      (
        rw (m.len-view s o.inv, run, run')
            (Popped-swapped sifted.perm (pop-Popped t t' n _ size' done top)),
        λ i l. root_least_below m.prio m.default (suc i) (m.view s) i o.order (omega arith) l,
      )

  -- heap.Remove takes the entry at the index.
  pub heap_remove-Popped :
      (s : S) (i : ℕ)
      → IsOrdered m s
      → i < length (m.view s)
      → Popped s (get_or (m.view s) i m.default) (heap_remove h s i)
  unfolding heap_remove
  heap_remove-Popped s i o l =
      let n = length (m.view s) - 1 in
      let size : length (m.view s) ≡ suc n = omega arith in
      elim (Bool-cases (n == i)) [
        | inl same ↦
            let e : n ≡ i = ground arith in
            rw (m.len-view s o.inv, same)
              (pop-Popped s s n (get_or (m.view s) i m.default) size
                (Sifted-refl m n s o.inv, λ c p q. o.order c p (omega arith)) (rw e))
        | inr other ↦
            let inside : i < n = ground arith in
            let (t, run, sifted, shape) =
              swap-Sifted m (length (m.view s)) s i n o.inv l (omega arith) (omega arith) in
            let size' : length (m.view t) ≡ suc n = length-Sifted m sifted ∙ size in
            let (t', run', done) =
              down_or_up-Orders m n t i sifted.inv (omega arith) inside
                (rw shape (exchange-IsHeap m.prio m.default n i (m.view s) size inside o.order)) in
            let top : get_or (m.view t) n m.default ≡ get_or (m.view s) i m.default =
              rw shape
                (get_or-exchange m.default (m.view s) i n n l (omega arith) ∙ ground arith) in
            rw (m.len-view s o.inv, other, run, run')
              (Popped-swapped sifted.perm (pop-Popped t t' n _ size' done top))
      ]

  -- heap.Fix restores the order once the entry at the index has a new key.
  pub heap_fix-IsOrdered :
      (s : S) (i : ℕ)
      → m.Inv s
      → i < length (m.view s)
      → IsLoose m.prio m.default (length (m.view s)) (m.view s) i
      → (s' : S) × (heap_fix h s i ≡ some s') × IsOrdered m s' × Perm (m.view s') (m.view s)
  unfolding heap_fix
  heap_fix-IsOrdered s i inv l v =
      let (s', run, done) = down_or_up-Orders m (length (m.view s)) s i inv (omega arith) l v in
      (s', rw (m.len-view s inv) run, Orders-IsOrdered s s' done, (done.0).perm)
