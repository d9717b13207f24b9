-- ===== src/ServerLib/ClientIdMap/Represents.antt =====
-- clientIDMap against its history: the buffer holds the last calls, the table points at them.
use mathlib.Core.Option
use native.Mathlib.Decide.{ℕ_discrete}
use snowflake.Common.{
  ℕ, zero, suc, ◌+◌, ◌%◌, ◌<◌, ◌≡◌, refl, sym, ◌∙◌, Bool, true, Option, none, some, List, [], ◌∷◌,
  length, get_elem?, get_or, set, length-set, get_elem?-set_self, get_elem?-set_ne, ◌==◌, ◌&&◌,
  if◌then◌else◌, arith, inl, inr, Bool-cases,
}
use snowflake.Common.Eq.{Eq}
use snowflake.Common.GoMap
use snowflake.Common.GoMap.{lookup-insert, lookup-delete}
use snowflake.ServerLib.ClientIdMap.{ClientIdMap, forget, set_id}
use snowflake.ServerLib.ClientIdMap.Slots.{
  slot, slot-oldest, slot-zero, slot-other, slot-suc, next_oldest-lt, held,
}

module _ {K A : Type 0} ⦃e : Eq K⦄ where
  -- The age of the last call for a key.
  unfoldable pub first : K → List (K × A) → Option ℕ
  first id [] = none
  first id ((k, a) ∷ h) = if e.beq k id then some 0 else Option.map suc (first id h)

  first-key :
      (id : K) (d : K × A) (h : List (K × A)) {j : ℕ}
      → first id h ≡ some j
      → (j < length h) × ((get_or h j d).0 ≡ id)
  unfolding first
  first-key id d [] p = cc
  first-key id d ((k, a) ∷ h) {j = zero} p = ground (arith, e.beq_iff k id)
  first-key id d ((k, a) ∷ h) {j = suc j} p = ground (arith, first-key id d h {j = j})

module _ {K A : Type 0} ⦃e : Eq K⦄ (d : K × A) where
  pub record Represents (m : ClientIdMap K A) (h : List (K × A)) : Type 0 where
    pub room : m.oldest < length m.entries
    pub stored :
        (i : ℕ)
        → i < length m.entries
        → get_elem? m.entries i ≡ some (get_or h (slot m.oldest (length m.entries) i) d)
    pub found : (id : K) → GoMap.lookup id m.current ≡ held (first id h) m.oldest (length m.entries)

module _ {K : Type 0} ⦃e : Eq K⦄ where
  -- The lookup table once the key of the oldest slot is forgotten.
  forget-lookup :
      (old id : K) (oldest : ℕ) (current : List (K × ℕ))
      → GoMap.lookup id (forget old oldest current) ≡ elim (GoMap.lookup id current) [
        | none ↦ none
        | some i ↦ if e.beq old id && i == oldest then none else some i
      ]
  unfolding forget
  forget-lookup old id oldest current =
      ground (arith, e.beq_iff old id, lookup-delete old id current)

-- A slot that is not the oldest keeps its call, and the oldest slot's call is forgotten.
forgotten :
    (oldest cap : ℕ) (same : Bool) (o : Option ℕ)
    → oldest < cap
    → ((j : ℕ) → o ≡ some j → suc j ≡ cap → same ≡ true)
    → elim (held o oldest cap) [
      | none ↦ none
      | some i ↦ if same && i == oldest then none else some i
    ]
      ≡ held (Option.map suc o) ((oldest + 1) % cap) cap
forgotten oldest cap same none h k = refl
forgotten oldest cap same (some j) h k = ground (arith, k j refl, slot-suc oldest cap h j)

module _ {K A : Type 0} ⦃e : Eq K⦄ (d : K × A) where
  stored-next :
      (m : ClientIdMap K A) (h : List (K × A)) (x : K × A) (i : ℕ)
      → Represents d m h
      → i < length m.entries
      → get_elem? (set m.entries m.oldest x) i
        ≡ some (get_or (x ∷ h) (slot ((m.oldest + 1) % length m.entries) (length m.entries) i) d)
  stored-next m h x i v k = elim (ℕ_discrete i m.oldest) [
    | yes same ↦ rw same (
        get_elem?-set_self m.entries m.oldest x v.room
        ∙ rw (slot-oldest m.oldest (length m.entries) v.room))
    | no other ↦
        get_elem?-set_ne m.entries x (λ p. other (sym p))
        ∙ v.stored i k
        ∙ rw (slot-other m.oldest (length m.entries) v.room i k other)
  ]

  found-next :
      (m : ClientIdMap K A) (h : List (K × A)) (x : K × A) (id : K)
      → Represents d m h
      → let old = get_or h (slot m.oldest (length m.entries) m.oldest) d in
        GoMap.lookup id (GoMap.insert x.0 m.oldest (forget old.0 m.oldest m.current))
        ≡ held (first id (x ∷ h)) ((m.oldest + 1) % length m.entries) (length m.entries)
  unfolding first
  found-next m h x id v = elim (Bool-cases (e.beq x.0 id)) [
    | inl same ↦
        rw (lookup-insert, same)
          (ground (arith, v.room, slot-zero m.oldest (length m.entries) v.room))
    | inr other ↦
        rw (lookup-insert, other)
          (forget-lookup _ id m.oldest m.current
            ∙ rw (v.found id) (
                forgotten m.oldest (length m.entries) _ (first id h) v.room
                  λ j p q. (e.beq_iff _ id).1 (ground (arith, v.room, first-key id d h p))))
  ]

  -- One call of Set.
  pub set_id-Represents :
      (m : ClientIdMap K A) (h : List (K × A)) (id : K) (addr : A)
      → Represents d m h
      → (m' : ClientIdMap K A) × (set_id m id addr ≡ some m')
        × Represents d m' ((id, addr) ∷ h)
        × (length m'.entries ≡ length m.entries)
  unfolding set_id
  set_id-Represents m h id addr v =
      let same = length-set m.entries m.oldest (id, addr) in
      let old = get_or h (slot m.oldest (length m.entries) m.oldest) d in
      (
        record {
          entries = set m.entries m.oldest (id, addr);
          oldest = (m.oldest + 1) % length m.entries;
          current = GoMap.insert id m.oldest (forget old.0 m.oldest m.current);
        },
        rw (v.stored m.oldest v.room) (ground (arith, v.room)),
        record {
          room = rw same (next_oldest-lt m.oldest (length m.entries) v.room);
          stored = λ i k. rw same (stored-next m h (id, addr) i v (rw same at k));
          found = λ j. rw same (found-next m h (id, addr) j v);
        },
        same,
      )
