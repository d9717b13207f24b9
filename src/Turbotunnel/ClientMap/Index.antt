-- ===== src/Turbotunnel/ClientMap/Index.antt =====
-- The index by address agrees with the slice, and no two clients share a queue.
use snowflake.Common.{
  ℕ, ◌<◌, ◌≤◌, ◌≡◌, refl, ◌∙◌, false, Option, none, some, List, [], length, get_or, arith, ◌==◌,
  if◌then◌else◌, inl, inr, Bool-cases,
}
use snowflake.Common.Bytes.{Bytes, eqb}
use snowflake.Common.Text.{bytes_eq}
use snowflake.Common.GoMap
use snowflake.Common.GoMap.{
  lookup-insert, lookup-delete, IsUnique, insert-IsUnique, delete-IsUnique, length-insert,
  length-delete,
}
use snowflake.Common.Array.{
  swap?-exchange, exchange, get_or-exchange, length-exchange, get_elem?-get_or,
}
use snowflake.Turbotunnel.ClientMap.{ClientRecord, ClientMapInner, swap}

abbrev pub no_record : ClientRecord
no_record = record { addr = []; last_seen = 0; send_queue = 0 }

abbrev pub at : List ClientRecord → ℕ → ClientRecord
at xs i = get_or xs i no_record

-- The place that the map names holds a record of the address.
abbrev pub Points : List ClientRecord → Bytes → Option ℕ → Type 0
Points xs a none = Unit
Points xs a (some i) = (i < length xs) × ((at xs i).addr ≡ a)

pub record IsIndexed (s : ClientMapInner) : Type 0 where
  pub size : length s.by_addr ≡ length s.by_age
  pub unique : IsUnique s.by_addr
  pub places : (i : ℕ) → i < length s.by_age → GoMap.lookup (at s.by_age i).addr s.by_addr ≡ some i
  pub points : (a : Bytes) → Points s.by_age a (GoMap.lookup a s.by_addr)
  pub own :
      (i j : ℕ)
      → i < length s.by_age
      → j < length s.by_age
      → (at s.by_age i).send_queue ≡ (at s.by_age j).send_queue
      → i ≡ j
  pub below : (i : ℕ) → i < length s.by_age → (at s.by_age i).send_queue < s.next
  pub unmade : (q : ℕ) → s.next ≤ q → s.closed q ≡ false
  pub open_queues : (i : ℕ) → i < length s.by_age → s.closed (at s.by_age i).send_queue ≡ false

unfoldable pub exchanged : ClientMapInner → ℕ → ℕ → ClientMapInner
exchanged s i j =
    let ys = exchange no_record s.by_age i j in
    record s {
      by_age = ys;
      by_addr = GoMap.insert (at ys j).addr j (GoMap.insert (at ys i).addr i s.by_addr);
    }

module _ (s : ClientMapInner) (i j : ℕ) (hi : i < length s.by_age) (hj : j < length s.by_age) where
  pub swap-exchanged : swap s i j ≡ some (exchanged s i j)
  unfolding swap exchanged
  swap-exchanged =
      let ys = exchange no_record s.by_age i j in
      let size = length-exchange no_record s.by_age i j in
      rw (
        swap?-exchange no_record s.by_age i j hi hj,
        get_elem?-get_or no_record ys i (omega (arith, size)),
        get_elem?-get_or no_record ys j (omega (arith, size)),
      )

  exchanged-at :
      (k : ℕ)
      → at (exchange no_record s.by_age i j) k
        ≡ (if j == k then at s.by_age i else if i == k then at s.by_age j else at s.by_age k)
  exchanged-at k = get_or-exchange no_record s.by_age i j k hi hj

  exchanged-lookup :
      (a : Bytes)
      → GoMap.lookup a (exchanged s i j).by_addr ≡ (
          if eqb (at s.by_age i).addr a
          then some j
          else if eqb (at s.by_age j).addr a
          then some i
          else GoMap.lookup a s.by_addr)
  unfolding exchanged
  exchanged-lookup a =
      let ys = exchange no_record s.by_age i j in
      let m = GoMap.insert (at ys i).addr i s.by_addr in
      let e : at ys j ≡ at s.by_age i = exchanged-at j ∙ ground arith in
      let f : at ys i ≡ at s.by_age j = exchanged-at i ∙ ground arith in
      lookup-insert (at ys j).addr a j m
      ∙ rw (lookup-insert (at ys i).addr a i s.by_addr, e, f) refl

  exchanged-Points :
      (a : Bytes) (o : Option ℕ)
      → eqb (at s.by_age i).addr a ≡ false
      → eqb (at s.by_age j).addr a ≡ false
      → Points s.by_age a o
      → Points (exchange no_record s.by_age i j) a o
  exchanged-Points a none p q h = tt
  exchanged-Points a (some k) p q (inside, here) =
      let size = length-exchange no_record s.by_age i j in
      (
        omega (arith, size),
        ground (
          arith,
          exchanged-at k,
          bytes_eq.beq_iff (at s.by_age i).addr a,
          bytes_eq.beq_iff (at s.by_age j).addr a,
        ),
      )

  -- The place that a record comes from.
  abbrev from : ℕ → ℕ
  from k = if j == k then i else if i == k then j else k

  exchanged-from :
      (k : ℕ)
      → k < length s.by_age
      → (at (exchange no_record s.by_age i j) k ≡ at s.by_age (from k)) × (from k < length s.by_age)
  exchanged-from k l = (exchanged-at k ∙ ground arith, ground arith)

  module _ (v : IsIndexed s) where
    exchanged-places :
        (k : ℕ)
        → k < length s.by_age
        → GoMap.lookup (at s.by_age (from k)).addr (exchanged s i j).by_addr ≡ some k
    exchanged-places k l =
        let here = at s.by_age (from k) in
        rw (exchanged-lookup here.addr) (
          ground (
            arith,
            (v.places (from k) (exchanged-from k l).1),
            v.places i hi,
            v.places j hj,
            bytes_eq.beq_iff (at s.by_age i).addr here.addr,
            bytes_eq.beq_iff (at s.by_age j).addr here.addr,
          ))

    exchanged-size : length (exchanged s i j).by_addr ≡ length (exchanged s i j).by_age
    unfolding exchanged
    exchanged-size =
        let ys = exchange no_record s.by_age i j in
        let m = GoMap.insert (at ys i).addr i s.by_addr in
        let e : at ys j ≡ at s.by_age i = exchanged-at j ∙ ground arith in
        let f : at ys i ≡ at s.by_age j = exchanged-at i ∙ ground arith in
        ground (
          arith,
          length-insert (at ys j).addr j m,
          length-insert (at ys i).addr i s.by_addr,
          lookup-insert (at ys i).addr (at ys j).addr i s.by_addr,
          v.places i hi,
          v.places j hj,
          v.size,
          length-exchange no_record s.by_age i j,
        )

    pub exchanged-IsIndexed : IsIndexed (exchanged s i j)
    unfolding exchanged
    exchanged-IsIndexed =
        let size = length-exchange no_record s.by_age i j in
        let xs = s.by_age in
        let ys = exchange no_record s.by_age i j in
        let m = GoMap.insert (at ys i).addr i s.by_addr in
        let e : at ys j ≡ at xs i = exchanged-at j ∙ ground arith in
        let f : at ys i ≡ at xs j = exchanged-at i ∙ ground arith in
        record {
          size = exchanged-size;
          unique =
              insert-IsUnique (at ys j).addr j m
                (insert-IsUnique (at ys i).addr i s.by_addr v.unique);
          places = λ k l.
              let l' : k < length xs = omega (arith, size) in
              rw (exchanged-from k l').0 (exchanged-places k l');
          points = λ a. elim (Bool-cases (eqb (at xs i).addr a)) [
            | inl first ↦
                rw (exchanged-lookup a, first)
                  (rw size hj, ground (arith, e, bytes_eq.beq_iff (at xs i).addr a))
            | inr other ↦ elim (Bool-cases (eqb (at xs j).addr a)) [
              | inl second ↦
                  rw (exchanged-lookup a, other, second)
                    (rw size hi, ground (arith, f, bytes_eq.beq_iff (at xs j).addr a))
              | inr third ↦
                  rw (exchanged-lookup a, other, third)
                    (exchanged-Points a (GoMap.lookup a s.by_addr) other third (v.points a))
            ]
          ];
          own = λ k l hk hl same.
              let hk' : k < length xs = omega (arith, size) in
              let hl' : l < length xs = omega (arith, size) in
              let (p, pi) = exchanged-from k hk' in
              let (q, qi) = exchanged-from l hl' in
              let same' : (at xs (from k)).send_queue ≡ (at xs (from l)).send_queue =
                rw (← p, ← q) same in
              ground (arith, v.own (from k) (from l) pi qi same');
          below = λ k l.
              let l' : k < length xs = omega (arith, size) in
              rw (exchanged-from k l').0 (v.below (from k) (exchanged-from k l').1);
          unmade = v.unmade;
          open_queues = λ k l.
              let l' : k < length xs = omega (arith, size) in
              rw (exchanged-from k l').0 (v.open_queues (from k) (exchanged-from k l').1);
        }
