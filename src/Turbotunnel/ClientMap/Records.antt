-- ===== src/Turbotunnel/ClientMap/Records.antt =====
-- SendQueue and removeExpired against the abstract map from addresses to records.
use mathlib.Core.List.{Perm, mem-cons_of_mem, mem_of_ne_of_mem}
use mathlib.Core.List.Perm
use snowflake.Common.{
  ℕ, ◌+◌, ◌<◌, ◌≡◌, ◌↔◌, refl, sym, ap, ◌∙◌, one_value, false, Option, none, some, [], ◌∷◌, ◌++◌,
  length, arith, some_or_none, inl, inr, Bool-cases, if◌then◌else◌, ◌==◌, length-append, length-set,
}
use snowflake.Common.Array.{get_elem?-get_or, get_or-set, get_or_last, get_or-append, push-perm}
use snowflake.Common.Bytes.{Bytes, eqb, eqb_refl}
use snowflake.Common.Text.{bytes_eq}
use snowflake.Common.GoMap
use snowflake.Common.GoMap.{lookup-insert}
use snowflake.ContainerHeap.Order.{IsHeap}
use snowflake.ContainerHeap.Loose.{set-IsLoose}
use snowflake.ContainerHeap.Laws.{heap_push-IsOrdered, heap_fix-IsOrdered}
use snowflake.Turbotunnel.ClientMap.{ClientRecord, ClientMapInner, new_client_map, send_queue}
use snowflake.Turbotunnel.ClientMap.Index.{IsIndexed, at, no_record}
use snowflake.Turbotunnel.ClientMap.Ends.{
  fresh_record, pushed, push-pushed, pushed-IsIndexed, touched, touched-IsIndexed, heap_model,
}
use snowflake.Turbotunnel.ClientMap.Search.{client, client_iff, client-none, client-some}

option_ext : {A : Type 0} (o p : Option A) → ((a : A) → (o ≡ some a) ↔ (p ≡ some a)) → o ≡ p
option_ext none none h = refl
option_ext none (some a) h = (h a).1 refl
option_ext (some a) p h = sym ((h a).0 refl)

-- The index is right, and the slice in order of age.
pub record IsValid (s : ClientMapInner) : Type 0 where
  pub indexed : IsIndexed s
  pub order : IsHeap (λ (r : ClientRecord). r.last_seen) no_record (length s.by_age) s.by_age

module _ (s s' : ClientMapInner) (v : IsIndexed s) (v' : IsIndexed s') where
  client-perm : Perm s'.by_age s.by_age → (a : Bytes) → client s' a ≡ client s a
  client-perm perm a = option_ext (client s' a) (client s a) λ r. (
    λ h.
        let (m, here) = (client_iff s' v' a r).0 h in
        (client_iff s v a r).1 ((Perm.mem_iff perm).0 m, here),
    λ h.
        let (m, here) = (client_iff s v a r).0 h in
        (client_iff s' v' a r).1 ((Perm.mem_iff perm).1 m, here),
  )

  pub client-popped :
      (x : ClientRecord)
      → Perm (x ∷ s'.by_age) s.by_age
      → GoMap.lookup x.addr s'.by_addr ≡ none
      → (a : Bytes) → client s' a ≡ (if eqb x.addr a then none else client s a)
  client-popped x perm gone a = elim (Bool-cases (eqb x.addr a)) [
    | inl same ↦
        let e : x.addr ≡ a = (bytes_eq.beq_iff x.addr a).0 same in
        rw (same, ← e) (client-none s' x.addr gone)
    | inr other ↦ rw other (
        option_ext (client s' a) (client s a) λ r. (
          λ h.
              let (m, here) = (client_iff s' v' a r).0 h in
              (client_iff s v a r).1 ((Perm.mem_iff perm).0 (mem-cons_of_mem x m), here),
          λ h.
              let (m, here) = (client_iff s v a r).0 h in
              let apart : ¬ (r ≡ x) = λ e. ground (arith, bytes_eq.beq_iff x.addr a) in
              (client_iff s' v' a r).1 (mem_of_ne_of_mem apart ((Perm.mem_iff perm).1 m), here),
        ))
  ]

-- The states before the heap is mended.
client-pushed :
    (s : ClientMapInner) (addr : Bytes) (now : ℕ)
    → IsIndexed s
    → (a : Bytes)
    → client (pushed s addr now) a
      ≡ (if eqb addr a then some (fresh_record s addr now) else client s a)
client-pushed s addr now v a =
    let n = length s.by_age in
    let r = fresh_record s addr now in
    let size : length (s.by_age ++ r ∷ []) ≡ n + 1 = length-append s.by_age (r ∷ []) in
    let look = lookup-insert addr a n s.by_addr in
    elim (Bool-cases (eqb addr a)) [
      | inl same ↦
          client-some (pushed s addr now) a n (look ∙ rw same refl) (omega (arith, size))
          ∙ rw (same, get_or_last no_record s.by_age r) refl
      | inr other ↦ elim (some_or_none (GoMap.lookup a s.by_addr)) [
        | inl e ↦
            client-none (pushed s addr now) a (look ∙ rw (other, e) refl)
            ∙ rw (other, client-none s a e) refl
        | inr (i, e) ↦
            let (inside, here) : (i < n) × ((at s.by_age i).addr ≡ a) = rw e at (v.points a) in
            client-some (pushed s addr now) a i (look ∙ rw (other, e) refl) (omega (arith, size))
            ∙ rw
                (
                  other,
                  client-some s a i e inside,
                  get_or-append no_record s.by_age (r ∷ []) i inside,
                )
                refl
      ]
    ]

client-touched :
    (s : ClientMapInner) (i now : ℕ) (l : i < length s.by_age)
    → IsIndexed s
    → (a : Bytes)
    → client (touched s i now) a ≡ (
        if eqb (at s.by_age i).addr a
        then some (record (at s.by_age i) { last_seen = now })
        else client s a)
client-touched s i now l v a =
    let r = record (at s.by_age i) { last_seen = now } in
    let size : length (touched s i now).by_age ≡ length s.by_age = length-set s.by_age i r in
    let changed = λ (k : ℕ). get_or-set no_record s.by_age i k r l in
    elim (Bool-cases (eqb (at s.by_age i).addr a)) [
      | inl same ↦
          let e : (at s.by_age i).addr ≡ a = (bytes_eq.beq_iff (at s.by_age i).addr a).0 same in
          client-some (touched s i now) a i (rw (← e) (v.places i l)) (omega (arith, size))
          ∙ rw same (ap some (changed i ∙ ground arith))
      | inr other ↦ elim (some_or_none (GoMap.lookup a s.by_addr)) [
        | inl e ↦ client-none (touched s i now) a e ∙ rw (other, client-none s a e) refl
        | inr (k, e) ↦
            let (inside, here) : (k < length s.by_age) × ((at s.by_age k).addr ≡ a) =
              rw e at (v.points a) in
            let apart : (i == k) ≡ false =
              ground (arith, bytes_eq.beq_iff (at s.by_age i).addr a) in
            client-some (touched s i now) a k e (omega (arith, size))
            ∙ rw (other, client-some s a k e inside) (ap some (changed k ∙ rw apart refl))
      ]
    ]

-- What SendQueue leaves: the record of the address with the time and the queue, and the others as they were.
abbrev pub Sends : ClientMapInner → Bytes → ℕ → ℕ → ClientMapInner → Type 0
Sends s addr now q s' =
    (a : Bytes)
    → client s' a ≡ (
        if eqb addr a
        then some (record { addr = addr; last_seen = now; send_queue = q })
        else client s a)

-- The queue of the client, or a new one.
abbrev pub queue_of : ClientMapInner → Bytes → ℕ
queue_of s addr = elim (client s addr) [ none ↦ s.next | some r ↦ r.send_queue ]

module _ (s : ClientMapInner) (addr : Bytes) (now : ℕ) (v : IsValid s) where
  Result : Type 0
  Result =
      (s' : ClientMapInner) × (send_queue s addr now ≡ some (queue_of s addr, s'))
      × IsValid s'
      × Sends s addr now (queue_of s addr) s'

  sends_new : GoMap.lookup addr s.by_addr ≡ none → Result
  unfolding Result send_queue
  sends_new new =
      let queue_new : queue_of s addr ≡ s.next = rw (queue_of, client-none s addr new) refl in
      let wider = record s { next = s.next + 1 } in
      let r = fresh_record s addr now in
      let (s', run, ordered, perm) =
        heap_push-IsOrdered (heap_model s.closed) wider (pushed s addr now) r r v.order
          (push-pushed s addr now v.indexed new)
          (pushed-IsIndexed s addr now v.indexed new, λ q h. h) refl in
      let perm' : Perm s'.by_age (pushed s addr now).by_age =
        Perm.trans perm (Perm.symm (push-perm s.by_age r)) in
      (
        s',
        rw (queue_new, send_queue, new, run) refl,
        record { indexed = ordered.inv.0; order = ordered.order },
        λ a.
            client-perm (pushed s addr now) s' (pushed-IsIndexed s addr now v.indexed new)
              ordered.inv.0 perm' a
            ∙ client-pushed s addr now v.indexed a
            ∙ rw queue_new refl,
      )

  sends_old : (i : ℕ) → GoMap.lookup addr s.by_addr ≡ some i → Result
  unfolding Result send_queue
  sends_old i old =
      let (l, here) : (i < length s.by_age) × ((at s.by_age i).addr ≡ addr) =
        rw old at (v.indexed.points addr) in
      let r = record (at s.by_age i) { last_seen = now } in
      let size : length (touched s i now).by_age ≡ length s.by_age = length-set s.by_age i r in
      let inv = touched-IsIndexed s i now l v.indexed in
      let (s', run, ordered, perm) =
        heap_fix-IsOrdered (heap_model s.closed) (touched s i now) i (inv, λ q h. h)
          (omega (arith, size))
          (rw size (
            set-IsLoose (λ (x : ClientRecord). x.last_seen) no_record (length s.by_age) s.by_age i r
              l v.order)) in
      let queue_old : queue_of s addr ≡ (at s.by_age i).send_queue =
        rw (queue_of, client-some s addr i old l) refl in
      let here_is = get_elem?-get_or no_record s.by_age i l in
      (
        s',
        rw (queue_old, send_queue, old, here_is, run) refl,
        record { indexed = ordered.inv.0; order = ordered.order },
        λ a.
            client-perm (touched s i now) s' inv ordered.inv.0 perm a
            ∙ client-touched s i now l v.indexed a
            ∙ rw (queue_old, here) refl,
      )

-- SendQueue on a valid map does not panic, keeps it valid, returns the queue that the client has or a new one, gives
-- the client the time, and leaves the others as they were.
pub send_queue-Sends :
    (s : ClientMapInner) (addr : Bytes) (now : ℕ)
    → IsValid s
    → (s' : ClientMapInner) × (send_queue s addr now ≡ some (queue_of s addr, s'))
      × IsValid s'
      × Sends s addr now (queue_of s addr) s'
unfolding Result
send_queue-Sends s addr now v = elim (some_or_none (GoMap.lookup addr s.by_addr)) [
  | inl new ↦ sends_new s addr now v new
  | inr (i, old) ↦ sends_old s addr now v i old
]

pub new_client_map-IsValid : IsValid new_client_map
unfolding new_client_map GoMap.lookup
new_client_map-IsValid = record {
  indexed = record {
    size = refl;
    unique = tt;
    places = λ i l. absurd (omega arith);
    points = λ a. tt;
    own = λ i j l m e. absurd (omega arith);
    below = λ i l. absurd (omega arith);
    unmade = λ q l. refl;
    open_queues = λ i l. absurd (omega arith);
  };
  order = λ c p l. absurd (omega arith);
}

client-open :
    (s : ClientMapInner) (a : Bytes) (r : ClientRecord)
    → IsIndexed s
    → client s a ≡ some r
    → s.closed r.send_queue ≡ false
client-open s a r v e = elim (some_or_none (GoMap.lookup a s.by_addr)) [
  | inl h ↦ absurd (ground (arith, client-none s a h))
  | inr (i, h) ↦
      let (inside, here) : (i < length s.by_age) × ((at s.by_age i).addr ≡ a) =
        rw h at (v.points a) in
      let is_r : at s.by_age i ≡ r = one_value (client-some s a i h inside) e in
      rw (← is_r) (v.open_queues i inside)
]

-- The queue that SendQueue returns is open.
pub queue-open :
    (s : ClientMapInner) (addr : Bytes) (now q : ℕ) (s' : ClientMapInner)
    → IsValid s'
    → Sends s addr now q s'
    → s'.closed q ≡ false
queue-open s addr now q s' v sends =
    let r : ClientRecord = record { addr = addr; last_seen = now; send_queue = q } in
    client-open s' addr r v.indexed (sends addr ∙ rw (eqb_refl addr) refl)
