-- ===== src/Broker/SnowflakeHeap/Pool.antt =====
-- SnowflakePool: Push, Pop and Remove against the bag of waiting snowflakes.
use mathlib.Core.List.{Perm, map-append}
use snowflake.Common.{
  ℕ, suc, ◌+◌, ◌<◌, ◌≤◌, ◌≡◌, refl, ap, ◌∙◌, Option, none, some, List, [], ◌∷◌, ◌++◌, length,
  get_or, map, arith, ltb, ◌==◌, if◌then◌else◌, inl, inr, Bool-cases, length-append,
}
use snowflake.Common.Array.{get_or-append}
use snowflake.ContainerHeap.Laws.{
  IsOrdered, heap_push-IsOrdered, heap_pop-Popped, heap_remove-Popped,
}
use snowflake.Broker.SnowflakeHeap.{
  Snowflake, SnowflakeHeap, SnowflakePool, set_index, push, allocate, pool_push, pool_pop,
  pool_remove, new_snowflake_pool,
}
use snowflake.Broker.SnowflakeHeap.Index.{
  IsIndexed, Points, entries, entry_of, heap_model, length-entries, index-set_index,
  entry-set_index, get_or-map,
}

-- Every index is a place of the heap and names its snowflake, and the heap is in order.
abbrev pub IsValid : SnowflakePool → Type 0
IsValid sp = IsOrdered (heap_model sp.next) sp.h

-- The waiting snowflakes: the number of clients, and the pointer.
abbrev pub waiting : SnowflakePool → List (ℕ × ℕ)
waiting sp = entries sp.h

pub new_snowflake_pool-IsValid : IsValid new_snowflake_pool × (waiting new_snowflake_pool ≡ [])
unfolding new_snowflake_pool
new_snowflake_pool-IsValid = (
  record {
    inv = record {
      places = λ i l. absurd (omega arith);
      points = λ p l. absurd (omega arith);
      below = λ i l. absurd (omega arith);
    };
    order = λ c p q. absurd (omega arith);
  },
  refl,
)

map-eq :
    {A B : Type 0} (f g : A → B) (d : A) (xs : List A)
    → ((i : ℕ) → i < length xs → f (get_or xs i d) ≡ g (get_or xs i d))
    → map f xs ≡ map g xs
map-eq f g d [] h = refl
map-eq f g d (x ∷ xs) h = rw (h 0 (omega arith), map-eq f g d xs (λ i l. h (suc i) (omega arith)))

module _ (sp : SnowflakePool) (s : Snowflake) (v : IsValid sp) where
  -- The memory behind `allocate`, and behind Push of the heap.
  abbrev memory : ℕ → Snowflake
  memory q = if q == sp.next then s else sp.h.flakes q

  abbrev pushed : SnowflakeHeap
  pushed = record {
    flakes = set_index memory sp.next (some (length sp.h.slots));
    slots = sp.h.slots ++ sp.next ∷ [];
  }

  old-clients :
      (i : ℕ)
      → i < length sp.h.slots
      → (memory (get_or sp.h.slots i 0)).clients ≡ (sp.h.flakes (get_or sp.h.slots i 0)).clients
  old-clients i l = ground (arith, v.inv.below i l)

  allocated-entries : entries (record { flakes = memory; slots = sp.h.slots }) ≡ waiting sp
  allocated-entries =
      map-eq _ _ 0 sp.h.slots λ i l. ap (λ (c : ℕ). (c, get_or sp.h.slots i 0)) (old-clients i l)

  pushed-index :
      (q : ℕ)
      → (pushed.flakes q).index
        ≡ (if q == sp.next then some (length sp.h.slots) else (sp.h.flakes q).index)
  pushed-index q = index-set_index memory sp.next (some (length sp.h.slots)) q ∙ ground arith

  append-Points :
      (q : ℕ) (o : Option ℕ) → Points sp.h.slots q o → Points (sp.h.slots ++ sp.next ∷ []) q o
  append-Points q none h = tt
  append-Points q (some k) (inside, at) = (
    omega (arith, length-append sp.h.slots (sp.next ∷ [])),
    get_or-append 0 sp.h.slots (sp.next ∷ []) k inside ∙ at,
  )

  last : get_or (sp.h.slots ++ sp.next ∷ []) (length sp.h.slots) 0 ≡ sp.next
  last = go sp.h.slots
    where
      go : (xs : List ℕ) → get_or (xs ++ sp.next ∷ []) (length xs) 0 ≡ sp.next
      go [] = refl
      go (x ∷ xs) = go xs

  pushed-IsIndexed : IsIndexed (sp.next + 1) pushed
  pushed-IsIndexed =
      let n = length sp.h.slots in
      let size = length-append sp.h.slots (sp.next ∷ []) in
      let at = get_or-append 0 sp.h.slots (sp.next ∷ []) in
      record {
        places = λ k l.
            let l' : k < n + 1 = omega (arith, size) in
            pushed-index (get_or (sp.h.slots ++ sp.next ∷ []) k 0) ∙ elim (Bool-cases (k == n)) [
              | inl e ↦ let e' : k ≡ n = ground arith in rw e' (ground (arith, last))
              | inr e ↦
                  let l'' : k < n = ground arith in
                  ground (arith, at k l'', v.inv.below k l'', v.inv.places k l'')
            ];
        points = λ q l. elim (Bool-cases (q == sp.next)) [
          | inl new ↦ rw (pushed-index q, new) (omega (arith, size), ground (arith, last))
          | inr old ↦
              rw (pushed-index q, old)
                (append-Points q (sp.h.flakes q).index (v.inv.points q (ground arith)))
        ];
        below = λ k l.
            let l' : k < n + 1 = omega (arith, size) in
            elim (Bool-cases (k == n)) [
              | inl e ↦ let e' : k ≡ n = ground arith in rw e' (omega (arith, last))
              | inr e ↦
                  let l'' : k < n = ground arith in rw (at k l'') (omega (arith, v.inv.below k l''))
            ];
      }

  pushed-entries : entries pushed ≡ waiting sp ++ (s.clients, sp.next) ∷ []
  pushed-entries =
      let f = entry_of pushed in
      let same : map f sp.h.slots ≡ waiting sp = map-eq f (entry_of sp.h) 0 sp.h.slots λ i l.
        ap (λ (c : ℕ). (c, get_or sp.h.slots i 0))
          (entry-set_index memory sp.next (some (length sp.h.slots)) (get_or sp.h.slots i 0)
            ∙ old-clients i l) in
      let new : (pushed.flakes sp.next).clients ≡ s.clients =
        entry-set_index memory sp.next (some (length sp.h.slots)) sp.next ∙ ground arith in
      map-append f sp.h.slots (sp.next ∷ [])
      ∙ ap (λ xs. xs ++ f sp.next ∷ []) same
      ∙ ap (λ (c : ℕ). waiting sp ++ (c, sp.next) ∷ []) new

-- NewSnowflake and Push add one waiting snowflake, and the pool stays valid.
pub add-IsValid :
    (sp : SnowflakePool) (s : Snowflake)
    → IsValid sp
    → let (p, sp') = allocate sp s in
      (sp'' : SnowflakePool) × (pool_push sp' p ≡ some sp'')
      × IsValid sp''
      × Perm (waiting sp'') ((s.clients, p) ∷ waiting sp)
      × (sp''.next ≡ sp.next + 1)
unfolding allocate pool_push push
add-IsValid sp s v =
    let before : SnowflakeHeap = record { flakes = memory sp s v; slots = sp.h.slots } in
    let (h, run, ordered, perm) =
      heap_push-IsOrdered (heap_model (sp.next + 1)) before (pushed sp s v) sp.next
        (s.clients, sp.next) (rw (allocated-entries sp s v) v.order) refl (pushed-IsIndexed sp s v)
        (rw (allocated-entries sp s v) (pushed-entries sp s v)) in
    (
      record { h = h; next = sp.next + 1; poll_interval = sp.poll_interval },
      rw run,
      ordered,
      rw (← allocated-entries sp s v) perm,
      refl,
    )

-- What Pop returns: nothing from an empty pool, else a snowflake with the fewest clients, which is
-- no longer in the heap.
abbrev pub Pops : SnowflakePool → Option ℕ → SnowflakePool → Type 0
Pops sp none sp' = (waiting sp ≡ []) × (sp' ≡ sp)
Pops sp (some p) sp' =
    (c : ℕ) × Perm ((c, p) ∷ waiting sp') (waiting sp)
    × ((i : ℕ) → i < length (waiting sp) → c ≤ (get_or (waiting sp) i (0, 0)).0)
    × ((sp'.h.flakes p).index ≡ none)
    × (sp'.next ≡ sp.next)

-- Pop of a valid pool does not panic, leaves it valid, and takes a least snowflake if there is one.
pub pool_pop-Pops :
    (sp : SnowflakePool)
    → IsValid sp
    → (o : Option ℕ) × (sp' : SnowflakePool) × (pool_pop sp ≡ some (o, sp'))
      × IsValid sp'
      × Pops sp o sp'
unfolding pool_pop
pool_pop-Pops sp v = elim (Bool-cases (ltb 0 (length sp.h.slots))) [
  | inr empty ↦ (none, sp, rw (empty, pool_pop), v, (no_entries sp.h.slots (ground arith), refl))
  | inl some_left ↦
      let pos : 0 < length (waiting sp) = ground (arith, length-entries sp.next sp.h) in
      let ((h, run, ordered, perm, gone), least) =
        heap_pop-Popped (heap_model sp.next) sp.h v pos in
      (
        some (get_or (waiting sp) 0 (0, 0)).1,
        record { h = h; next = sp.next; poll_interval = sp.poll_interval },
        rw (some_left, pool_pop, run),
        ordered,
        ((get_or (waiting sp) 0 (0, 0)).0, perm, least, gone, refl),
      )
]
  where
    no_entries : (xs : List ℕ) → length xs ≡ 0 → map (entry_of sp.h) xs ≡ []
    no_entries [] h = refl
    no_entries (x ∷ xs) h = absurd (omega arith)

-- What Remove leaves: the pool as it was if the snowflake had left the heap, else the pool without it.
abbrev pub Removes : SnowflakePool → ℕ → Option ℕ → SnowflakePool → Type 0
Removes sp p none sp' = sp' ≡ sp
Removes sp p (some i) sp' =
    Perm (((sp.h.flakes p).clients, p) ∷ waiting sp') (waiting sp) × (sp'.next ≡ sp.next)

-- Remove of an allocated snowflake does not panic, leaves the pool valid and the snowflake out of it,
-- and takes nothing else, also when Pop has taken the snowflake before.
pub pool_remove-Removes :
    (sp : SnowflakePool) (p : ℕ)
    → IsValid sp
    → p < sp.next
    → (sp' : SnowflakePool) × (pool_remove sp p ≡ some sp')
      × IsValid sp'
      × Removes sp p (sp.h.flakes p).index sp'
      × ((sp'.h.flakes p).index ≡ none)
unfolding pool_remove
pool_remove-Removes sp p v l = go (sp.h.flakes p).index refl (v.inv.points p l)
  where
    go :
        (o : Option ℕ)
        → (sp.h.flakes p).index ≡ o
        → Points sp.h.slots p o
        → (sp' : SnowflakePool) × (pool_remove sp p ≡ some sp')
          × IsValid sp'
          × Removes sp p o sp'
          × ((sp'.h.flakes p).index ≡ none)
    go none e at = (sp, rw (e, pool_remove), v, refl, e)
    go (some i) e (inside, at) =
        let entry : get_or (waiting sp) i (0, 0) ≡ ((sp.h.flakes p).clients, p) =
          get_or-map (entry_of sp.h) 0 (0, 0) sp.h.slots i inside ∙ ap (entry_of sp.h) at in
        let (h, run, ordered, perm, gone) =
          heap_remove-Popped (heap_model sp.next) sp.h i v
            (rw (← length-entries sp.next sp.h) inside) in
        (
          record { h = h; next = sp.next; poll_interval = sp.poll_interval },
          rw (e, pool_remove, run),
          ordered,
          (rw entry at perm, refl),
          rw entry at gone,
        )
