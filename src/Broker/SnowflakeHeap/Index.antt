-- ===== src/Broker/SnowflakeHeap/Index.antt =====
-- The pool's heap keeps the laws of container/heap, and every snowflake knows its place in it.
use mathlib.Core.Path.{fun_ext}
use snowflake.Common.{
  ℕ, zero, suc, ◌-◌, ◌<◌, ◌≡◌, refl, sym, ap, ◌∙◌, false, Option, none, some, List, [], ◌∷◌, length,
  get_or, set, take, map, arith, ltb, ◌==◌, if◌then◌else◌, inl, inr, Bool-cases, length-map,
  length-take,
}
use snowflake.Common.Array.{
  swap?-exchange, exchange, get_or-exchange, length-exchange, get_elem?-get_or, get_or-take,
}
use snowflake.ContainerHeap.{HeapModel}
use snowflake.Broker.SnowflakeHeap.{
  Snowflake, SnowflakeHeap, set_index, less, swap, pop, heap_interface,
}

-- The place that an index names holds the pointer.
abbrev pub Points : List ℕ → ℕ → Option ℕ → Type 0
Points slots p none = Unit
Points slots p (some i) = (i < length slots) × (get_or slots i 0 ≡ p)

-- The index of each snowflake in the slice is its place, and no other snowflake below `next` has one.
pub record IsIndexed (next : ℕ) (sh : SnowflakeHeap) : Type 0 where
  pub places : (i : ℕ) → i < length sh.slots → (sh.flakes (get_or sh.slots i 0)).index ≡ some i
  pub points : (p : ℕ) → p < next → Points sh.slots p (sh.flakes p).index
  pub below : (i : ℕ) → i < length sh.slots → get_or sh.slots i 0 < next

-- An entry of the heap: the number of clients, and the pointer.
abbrev pub entry_of : SnowflakeHeap → ℕ → ℕ × ℕ
entry_of sh p = ((sh.flakes p).clients, p)

abbrev pub entries : SnowflakeHeap → List (ℕ × ℕ)
entries sh = map (entry_of sh) sh.slots

module _ {A B : Type 0} (f : A → B) where
  pub get_or-map :
      (d : A) (e : B) (xs : List A) (i : ℕ)
      → i < length xs
      → get_or (map f xs) i e ≡ f (get_or xs i d)
  get_or-map d e [] i h = absurd (omega arith)
  get_or-map d e (x ∷ xs) zero h = refl
  get_or-map d e (x ∷ xs) (suc i) h = get_or-map d e xs i (omega arith)

  map-set : (xs : List A) (i : ℕ) (v : A) → map f (set xs i v) ≡ set (map f xs) i (f v)
  map-set [] i v = refl
  map-set (x ∷ xs) zero v = refl
  map-set (x ∷ xs) (suc i) v = ap (◌∷◌ (f x)) (map-set xs i v)

  map-take : (n : ℕ) (xs : List A) → map f (take n xs) ≡ take n (map f xs)
  map-take zero xs = refl
  map-take (suc n) [] = refl
  map-take (suc n) (x ∷ xs) = ap (◌∷◌ (f x)) (map-take n xs)

  map-exchange :
      (d : A) (e : B) (xs : List A) (i j : ℕ)
      → i < length xs
      → j < length xs
      → map f (exchange d xs i j) ≡ exchange e (map f xs) i j
  map-exchange d e xs i j h k =
      rw (map-set (set xs i (get_or xs j d)) j (get_or xs i d), map-set xs i (get_or xs j d))
        (rw (get_or-map d e xs i h, get_or-map d e xs j k))

-- A write to an index changes the clients of no snowflake.
pub entry-set_index :
    (flakes : ℕ → Snowflake) (p : ℕ) (v : Option ℕ) (q : ℕ)
    → (set_index flakes p v q).clients ≡ (flakes q).clients
unfolding set_index
entry-set_index flakes p v q = ground arith

pub index-set_index :
    (flakes : ℕ → Snowflake) (p : ℕ) (v : Option ℕ) (q : ℕ)
    → (set_index flakes p v q).index ≡ (if q == p then v else (flakes q).index)
unfolding set_index
index-set_index flakes p v q = ground arith

swapped : SnowflakeHeap → ℕ → ℕ → SnowflakeHeap
swapped sh i j =
    let slots = exchange 0 sh.slots i j in
    record {
      flakes =
          set_index (set_index sh.flakes (get_or slots i 0) (some i)) (get_or slots j 0) (some j);
      slots = slots;
    }

module _ (sh : SnowflakeHeap) (i j : ℕ) (hi : i < length sh.slots) (hj : j < length sh.slots) where
  swap-swapped : swap sh i j ≡ some (swapped sh i j)
  unfolding swap swapped
  swap-swapped =
      let ys = exchange 0 sh.slots i j in
      let size = length-exchange 0 sh.slots i j in
      rw (
        swap?-exchange 0 sh.slots i j hi hj,
        get_elem?-get_or 0 ys i (omega (arith, size)),
        get_elem?-get_or 0 ys j (omega (arith, size)),
      )

  swapped-index :
      (q : ℕ)
      → ((swapped sh i j).flakes q).index ≡ (
          if q == get_or sh.slots i 0
          then some j
          else if q == get_or sh.slots j 0
          then some i
          else (sh.flakes q).index)
  unfolding swapped
  swapped-index q =
      let slots = exchange 0 sh.slots i j in
      let a = get_or slots i 0 in
      let b = get_or slots j 0 in
      ground (
        arith,
        index-set_index (set_index sh.flakes a (some i)) b (some j) q,
        index-set_index sh.flakes a (some i) q,
        get_or-exchange 0 sh.slots i j i hi hj,
        get_or-exchange 0 sh.slots i j j hi hj,
      )

  swapped-Points :
      (p : ℕ) (o : Option ℕ)
      → (p == get_or sh.slots i 0) ≡ false
      → (p == get_or sh.slots j 0) ≡ false
      → Points sh.slots p o
      → Points (exchange 0 sh.slots i j) p o
  swapped-Points p none a b h = tt
  swapped-Points p (some k) a b (inside, at) =
      let size = length-exchange 0 sh.slots i j in
      (omega (arith, size), ground (arith, get_or-exchange 0 sh.slots i j k hi hj))

  swapped-IsIndexed : (next : ℕ) → IsIndexed next sh → IsIndexed next (swapped sh i j)
  unfolding swapped
  swapped-IsIndexed next v =
      let size = length-exchange 0 sh.slots i j in
      let at = λ (k : ℕ). get_or-exchange 0 sh.slots i j k hi hj in
      record {
        places = λ k l.
            let l' : k < length sh.slots = omega (arith, size) in
            ground (
              arith,
              swapped-index (get_or (exchange 0 sh.slots i j) k 0),
              at k,
              v.places k l',
              v.places i hi,
              v.places j hj,
            );
        points = λ p l. elim (Bool-cases (p == get_or sh.slots i 0)) [
          | inl first ↦ rw (swapped-index p, first) (rw size hj, ground (arith, at j))
          | inr other ↦ elim (Bool-cases (p == get_or sh.slots j 0)) [
            | inl second ↦ rw (swapped-index p, other, second) (rw size hi, ground (arith, at i))
            | inr third ↦
                rw (swapped-index p, other, third)
                  (swapped-Points p (sh.flakes p).index other third (v.points p l))
          ]
        ];
        below = λ k l.
            let l' : k < length sh.slots = omega (arith, size) in
            ground (arith, at k, v.below k l', v.below i hi, v.below j hj);
      }

  swapped-entries : entries (swapped sh i j) ≡ exchange (0, 0) (entries sh) i j
  unfolding swapped
  swapped-entries =
      let ys = exchange 0 sh.slots i j in
      let inner = set_index sh.flakes (get_or ys i 0) (some i) in
      let same : entry_of (swapped sh i j) ≡ entry_of sh = fun_ext λ q.
        ap (λ (n : ℕ). (n, q))
          (entry-set_index inner (get_or ys j 0) (some j) q
            ∙ entry-set_index sh.flakes (get_or ys i 0) (some i) q) in
      rw same (map-exchange (entry_of sh) 0 (0, 0) sh.slots i j hi hj)

-- The pool's heap as a client of container/heap, with `next` snowflakes allocated.
module _ (next : ℕ) where
  pub less-entries :
      (sh : SnowflakeHeap) (i j : ℕ)
      → i < length (entries sh)
      → j < length (entries sh)
      → less sh i j ≡ some (ltb (get_or (entries sh) i (0, 0)).0 (get_or (entries sh) j (0, 0)).0)
  unfolding less
  less-entries sh i j hi hj =
      let size = length-map sh.slots (entry_of sh) in
      let hi' : i < length sh.slots = omega (arith, size) in
      let hj' : j < length sh.slots = omega (arith, size) in
      rw (get_elem?-get_or 0 sh.slots i hi', get_elem?-get_or 0 sh.slots j hj')
        (rw (
          get_or-map (entry_of sh) 0 (0, 0) sh.slots i hi',
          get_or-map (entry_of sh) 0 (0, 0) sh.slots j hj',
        ))

  popped : SnowflakeHeap → ℕ → SnowflakeHeap
  popped sh n = record {
    flakes = set_index sh.flakes (get_or sh.slots n 0) none;
    slots = take n sh.slots;
  }

  pop-popped :
      (sh : SnowflakeHeap) (n : ℕ)
      → length sh.slots ≡ suc n
      → pop sh ≡ some (get_or sh.slots n 0, popped sh n)
  unfolding pop popped
  pop-popped sh n size =
      let last : length sh.slots - 1 ≡ n = omega arith in
      rw (last, get_elem?-get_or 0 sh.slots n (omega arith))

  popped-entries : (sh : SnowflakeHeap) (n : ℕ) → entries (popped sh n) ≡ take n (entries sh)
  unfolding popped
  popped-entries sh n =
      let same : entry_of (popped sh n) ≡ entry_of sh =
        fun_ext
          λ q. ap (λ (k : ℕ). (k, q)) (entry-set_index sh.flakes (get_or sh.slots n 0) none q) in
      rw same (map-take (entry_of sh) n sh.slots)

  take-Points :
      (slots : List ℕ) (n p : ℕ) (o : Option ℕ)
      → length slots ≡ suc n
      → (p == get_or slots n 0) ≡ false
      → Points slots p o
      → Points (take n slots) p o
  take-Points slots n p none size other h = tt
  take-Points slots n p (some k) size other (inside, at) =
      let len = length-take n slots in
      let inner : k < n = ground arith in (omega (arith, len), get_or-take 0 n slots k inner ∙ at)

  popped-IsIndexed :
      (sh : SnowflakeHeap) (n : ℕ)
      → length sh.slots ≡ suc n
      → IsIndexed next sh
      → IsIndexed next (popped sh n)
  unfolding popped
  popped-IsIndexed sh n size v =
      let len = length-take n sh.slots in
      let at = λ (k : ℕ). get_or-take 0 n sh.slots k in
      let last = get_or sh.slots n 0 in
      record {
        places = λ k l. ground (
          arith,
          len,
          at k,
          index-set_index sh.flakes last none (get_or (take n sh.slots) k 0),
          v.places k,
          v.places n,
        );
        points = λ p l. elim (Bool-cases (p == last)) [
          | inl same ↦ rw (index-set_index sh.flakes last none p, same) tt
          | inr other ↦
              rw (index-set_index sh.flakes last none p, other)
                (take-Points sh.slots n p (sh.flakes p).index size other (v.points p l))
        ];
        below = λ k l. ground (arith, len, at k, v.below k);
      }

  -- The laws of swap and pop, on entries.
  pub swap-entries :
      (s : SnowflakeHeap) (i j : ℕ)
      → IsIndexed next s
      → i < length (entries s)
      → j < length (entries s)
      → (s' : SnowflakeHeap) × (swap s i j ≡ some s')
        × IsIndexed next s'
        × (entries s' ≡ exchange (0, 0) (entries s) i j)
  swap-entries s i j v hi hj =
      let size = length-map s.slots (entry_of s) in
      let hi' : i < length s.slots = omega (arith, size) in
      let hj' : j < length s.slots = omega (arith, size) in
      (
        swapped s i j,
        swap-swapped s i j hi' hj',
        swapped-IsIndexed s i j hi' hj' next v,
        swapped-entries s i j hi' hj',
      )

  pub pop-entries :
      (s : SnowflakeHeap) (n : ℕ)
      → IsIndexed next s
      → length (entries s) ≡ suc n
      → (s' : SnowflakeHeap) × (pop s ≡ some ((get_or (entries s) n (0, 0)).1, s'))
        × IsIndexed next s'
        × (entries s' ≡ take n (entries s))
        × ((s'.flakes (get_or (entries s) n (0, 0)).1).index ≡ none)
  unfolding popped
  pop-entries s n v size =
      let len = length-map s.slots (entry_of s) in
      let size' : length s.slots ≡ suc n = omega (arith, len) in
      let last = get_or-map (entry_of s) 0 (0, 0) s.slots n (omega arith) in
      (
        popped s n,
        pop-popped s n size' ∙ ap (λ (x : ℕ × ℕ). some (x.1, popped s n)) (sym last),
        popped-IsIndexed s n size' v,
        popped-entries s n,
        index-set_index s.flakes (get_or s.slots n 0) none (get_or (entries s) n (0, 0)).1
            ∙ ground (arith, last),
      )

  pub length-entries : (s : SnowflakeHeap) → length s.slots ≡ length (entries s)
  length-entries s = sym (length-map s.slots (entry_of s))

  abbrev pub heap_model : HeapModel (ℕ × ℕ) heap_interface
  heap_model = record {
    Inv = IsIndexed next;
    view = entries;
    prio = λ x. x.0;
    default = (0, 0);
    ref = λ x. x.1;
    Gone = λ p s. (s.flakes p).index ≡ none;
    len-view = λ s v. ap some (length-entries s);
    less-view = λ s i j v hi hj. less-entries s i j hi hj;
    swap-view = swap-entries;
    pop-view = pop-entries;
  }
