-- ===== src/Turbotunnel/ClientMap/Ends.antt =====
-- Push, Pop and an update in place keep the index, and the map is a client of container/heap.
use snowflake.Common.{
  ℕ, suc, ◌+◌, ◌-◌, ◌<◌, ◌≡◌, refl, sym, ◌∙◌, Bool, true, false, Option, none, some, [], ◌∷◌, ◌++◌,
  length, set, take, arith, ltb, ◌==◌, if◌then◌else◌, inl, inr, Bool-cases, length-take,
  length-append, length-set, ◌||◌,
}
use snowflake.Common.Bytes.{Bytes, eqb}
use snowflake.Common.Text.{bytes_eq}
use snowflake.Common.GoMap
use snowflake.Common.GoMap.{
  lookup-insert, lookup-delete, insert-IsUnique, delete-IsUnique, length-insert, length-delete,
}
use snowflake.Common.Array.{
  exchange, get_elem?-get_or, get_or-take, get_or-append, get_or-set, get_or_last,
}
use snowflake.ContainerHeap.{HeapModel}
use snowflake.Turbotunnel.ClientMap.{
  ClientRecord, ClientMapInner, len, less, swap, push, close, pop, heap_interface,
}
use snowflake.Turbotunnel.ClientMap.Index.{
  IsIndexed, Points, at, no_record, exchanged, swap-exchanged, exchanged-IsIndexed,
}

-- The state behind Pop.
unfoldable pub popped : ClientMapInner → ℕ → ClientMapInner
popped s n = record s {
  by_age = take n s.by_age;
  by_addr = GoMap.delete (at s.by_age n).addr s.by_addr;
  closed = λ p. p == (at s.by_age n).send_queue || s.closed p;
}

module _ (s : ClientMapInner) (n : ℕ) (v : IsIndexed s) (size : length s.by_age ≡ suc n) where
  pop-popped : pop s ≡ some (at s.by_age n, popped s n)
  unfolding pop popped
  pop-popped =
      let last : length s.by_addr - 1 ≡ n = omega (arith, v.size) in
      rw (
        last,
        get_elem?-get_or no_record s.by_age n (omega arith),
        close,
        v.open_queues n (omega arith),
      )

  take-Points :
      (a : Bytes) (o : Option ℕ)
      → eqb (at s.by_age n).addr a ≡ false
      → Points s.by_age a o
      → Points (take n s.by_age) a o
  take-Points a none other h = tt
  take-Points a (some k) other (inside, here) =
      let inner : k < n = ground (arith, bytes_eq.beq_iff (at s.by_age n).addr a) in
      (omega (arith, length-take n s.by_age), rw (get_or-take no_record n s.by_age k inner) here)

  popped-IsIndexed : IsIndexed (popped s n)
  unfolding popped
  popped-IsIndexed =
      let len = length-take n s.by_age in
      let last = at s.by_age n in
      let kept = λ (k : ℕ). get_or-take no_record n s.by_age k in
      let gone = λ (a : Bytes). lookup-delete last.addr a s.by_addr in
      record {
        size = omega (
          arith,
          len,
          v.size,
          length-delete last.addr n s.by_addr v.unique (v.places n (omega arith)),
        );
        unique = delete-IsUnique last.addr s.by_addr v.unique;
        places = λ k l.
            let l' : k < n = omega (arith, len) in
            rw (kept k l', gone (at s.by_age k).addr)
              (ground (
                arith,
                bytes_eq.beq_iff last.addr (at s.by_age k).addr,
                v.places k (omega arith),
                v.places n (omega arith),
              ));
        points = λ a. elim (Bool-cases (eqb last.addr a)) [
          | inl same ↦ rw (gone a, same) tt
          | inr other ↦
              rw (gone a, other) (take-Points a (GoMap.lookup a s.by_addr) other (v.points a))
        ];
        own = λ k l hk hl same.
            let hk' : k < n = omega (arith, len) in
            let hl' : l < n = omega (arith, len) in
            v.own k l (omega arith) (omega arith) (rw (← kept k hk', ← kept l hl') same);
        below =
            λ k l. let l' : k < n = omega (arith, len) in rw (kept k l') (v.below k (omega arith));
        unmade = λ q l. ground (arith, v.unmade q l, v.below n (omega arith));
        open_queues = λ k l.
            let l' : k < n = omega (arith, len) in
            rw (kept k l') (
              ground (arith, v.own k n (omega arith) (omega arith), v.open_queues k (omega arith)));
      }

-- The record of a new client, and the state behind its Push.
abbrev pub fresh_record : ClientMapInner → Bytes → ℕ → ClientRecord
fresh_record s addr now = record { addr = addr; last_seen = now; send_queue = s.next }

abbrev pub pushed : ClientMapInner → Bytes → ℕ → ClientMapInner
pushed s addr now = record s {
  by_age = s.by_age ++ fresh_record s addr now ∷ [];
  by_addr = GoMap.insert addr (length s.by_age) s.by_addr;
  next = s.next + 1;
}

module _ (s : ClientMapInner) (addr : Bytes) (now : ℕ) (v : IsIndexed s)
    (new : GoMap.lookup addr s.by_addr ≡ none) where
  abbrev fresh : ClientRecord
  fresh = fresh_record s addr now

  pub push-pushed :
      push (record s { next = s.next + 1 }) (fresh_record s addr now) ≡ some (pushed s addr now)
  unfolding push
  push-pushed = rw (new, push) refl

  grown-at :
      (k : ℕ)
      → k < length s.by_age + 1
      → at (s.by_age ++ fresh ∷ []) k ≡ (if k == length s.by_age then fresh else at s.by_age k)
  grown-at k l = elim (Bool-cases (k == length s.by_age)) [
    | inl e ↦
        let same : k ≡ length s.by_age = ground arith in
        rw (e, same) (get_or_last no_record s.by_age fresh)
    | inr e ↦ rw e (get_or-append no_record s.by_age (fresh ∷ []) k (ground arith))
  ]

  append-Points :
      (a : Bytes) (o : Option ℕ) → Points s.by_age a o → Points (s.by_age ++ fresh ∷ []) a o
  append-Points a none h = tt
  append-Points a (some k) (inside, here) = (
    omega (arith, length-append s.by_age (fresh ∷ [])),
    rw (get_or-append no_record s.by_age (fresh ∷ []) k inside) here,
  )

  pub pushed-IsIndexed : IsIndexed (pushed s addr now)
  pushed-IsIndexed =
      let n = length s.by_age in
      let len = length-append s.by_age (fresh ∷ []) in
      let look = λ (a : Bytes). lookup-insert addr a n s.by_addr in
      record {
        size = ground (arith, length-insert addr n s.by_addr, len, v.size);
        unique = insert-IsUnique addr n s.by_addr v.unique;
        places = λ k l.
            let l' : k < n + 1 = omega (arith, len) in
            rw (grown-at k l', look (if k == n then fresh else at s.by_age k).addr)
              (ground (
                arith,
                bytes_eq.beq_iff addr addr,
                bytes_eq.beq_iff addr (at s.by_age k).addr,
                v.places k,
              ));
        points = λ a. elim (Bool-cases (eqb addr a)) [
          | inl same ↦
              rw (look a, same)
                (
                  omega (arith, len),
                  rw (get_or_last no_record s.by_age fresh) ((bytes_eq.beq_iff addr a).0 same),
                )
          | inr other ↦ rw (look a, other) (append-Points a (GoMap.lookup a s.by_addr) (v.points a))
        ];
        own = λ k l hk hl same.
            let hk' : k < n + 1 = omega (arith, len) in
            let hl' : l < n + 1 = omega (arith, len) in
            let same' = rw (grown-at k hk', grown-at l hl') at same in
            ground (arith, v.own k l, v.below k, v.below l);
        below = λ k l.
            let l' : k < n + 1 = omega (arith, len) in
            rw (grown-at k l') (ground (arith, v.below k));
        unmade = λ q l. v.unmade q (omega arith);
        open_queues = λ k l.
            let l' : k < n + 1 = omega (arith, len) in
            rw (grown-at k l') (ground (arith, v.open_queues k, v.unmade s.next));
      }

-- The state in which a record has a new time.
abbrev pub touched : ClientMapInner → ℕ → ℕ → ClientMapInner
touched s i now = record s { by_age = set s.by_age i (record (at s.by_age i) { last_seen = now }) }

module _ (s : ClientMapInner) (i now : ℕ) (l : i < length s.by_age) (v : IsIndexed s) where
  touched-at :
      (k : ℕ)
      → at (touched s i now).by_age k
        ≡ (if i == k then record (at s.by_age i) { last_seen = now } else at s.by_age k)
  touched-at k = get_or-set no_record s.by_age i k (record (at s.by_age i) { last_seen = now }) l

  touched-kept :
      (k : ℕ)
      → ((at (touched s i now).by_age k).addr ≡ (at s.by_age k).addr)
        × ((at (touched s i now).by_age k).send_queue ≡ (at s.by_age k).send_queue)
  touched-kept k = (rw (touched-at k) (ground arith), rw (touched-at k) (ground arith))

  touched-Points :
      (a : Bytes) (o : Option ℕ) → Points s.by_age a o → Points (touched s i now).by_age a o
  touched-Points a none h = tt
  touched-Points a (some k) (inside, here) = (
    omega (arith, length-set s.by_age i (record (at s.by_age i) { last_seen = now })),
    (touched-kept k).0 ∙ here,
  )

  pub touched-IsIndexed : IsIndexed (touched s i now)
  touched-IsIndexed =
      let size = length-set s.by_age i (record (at s.by_age i) { last_seen = now }) in
      record {
        size = v.size ∙ sym size;
        unique = v.unique;
        places = λ k h. rw (touched-kept k).0 (v.places k (omega (arith, size)));
        points = λ a. touched-Points a (GoMap.lookup a s.by_addr) (v.points a);
        own = λ k j hk hj same.
            v.own k j (omega (arith, size)) (omega (arith, size))
              (sym (touched-kept k).1 ∙ same ∙ (touched-kept j).1);
        below = λ k h. rw (touched-kept k).1 (v.below k (omega (arith, size)));
        unmade = v.unmade;
        open_queues = λ k h. rw (touched-kept k).1 (v.open_queues k (omega (arith, size)));
      }

pub less-at :
    (s : ClientMapInner) (i j : ℕ)
    → i < length s.by_age
    → j < length s.by_age
    → less s i j ≡ some (ltb (at s.by_age i).last_seen (at s.by_age j).last_seen)
unfolding less
less-at s i j hi hj =
    rw (get_elem?-get_or no_record s.by_age i hi, get_elem?-get_or no_record s.by_age j hj)

pub len-size : (s : ClientMapInner) → IsIndexed s → len s ≡ some (length s.by_age)
unfolding len
len-size s v = ground (arith, v.size)

-- No client of the address, and its queue closed.
abbrev pub IsGone : ClientRecord → ClientMapInner → Type 0
IsGone r s = (GoMap.lookup r.addr s.by_addr ≡ none) × (s.closed r.send_queue ≡ true)

popped-IsGone : (s : ClientMapInner) (n : ℕ) → IsGone (at s.by_age n) (popped s n)
unfolding popped
popped-IsGone s n =
    let r = at s.by_age n in
    (
      ground (arith, lookup-delete r.addr r.addr s.by_addr, bytes_eq.beq_iff r.addr r.addr),
      ground arith,
    )

-- As a client of container/heap, with the queues that are closed and stay so.
module _ (old : ℕ → Bool) where
  abbrev pub StillIndexed : ClientMapInner → Type 0
  StillIndexed s = IsIndexed s × ((q : ℕ) → old q ≡ true → s.closed q ≡ true)

  pub swap-by_age :
      (s : ClientMapInner) (i j : ℕ)
      → StillIndexed s
      → i < length s.by_age
      → j < length s.by_age
      → (s' : ClientMapInner) × (swap s i j ≡ some s')
        × StillIndexed s'
        × (s'.by_age ≡ exchange no_record s.by_age i j)
  unfolding exchanged
  swap-by_age s i j (v, k) hi hj =
      (exchanged s i j, swap-exchanged s i j hi hj, (exchanged-IsIndexed s i j hi hj v, k), refl)

  pub pop-by_age :
      (s : ClientMapInner) (n : ℕ)
      → StillIndexed s
      → length s.by_age ≡ suc n
      → (s' : ClientMapInner) × (pop s ≡ some (at s.by_age n, s'))
        × StillIndexed s'
        × (s'.by_age ≡ take n s.by_age)
        × IsGone (at s.by_age n) s'
  unfolding popped
  pop-by_age s n (v, k) size = (
    popped s n,
    pop-popped s n v size,
    (popped-IsIndexed s n v size, λ q h. ground (arith, k q h)),
    refl,
    popped-IsGone s n,
  )

  abbrev pub heap_model : HeapModel ClientRecord heap_interface
  heap_model = record {
    Inv = StillIndexed;
    view = λ s. s.by_age;
    prio = λ r. r.last_seen;
    default = no_record;
    ref = λ r. r;
    Gone = IsGone;
    len-view = λ s v. len-size s v.0;
    less-view = λ s i j v hi hj. less-at s i j hi hj;
    swap-view = swap-by_age;
    pop-view = pop-by_age;
  }
