-- ===== src/ServerLib/ClientIdMap/Recall.antt =====
-- The map against the history of its Set calls: Get finds the address of the last Set of the key,
-- if that is among the last `capacity` calls.
use snowflake.Common.{
  ℕ, zero, suc, ◌<◌, ◌≡◌, refl, ◌∙◌, Bool, true, false, Option, none, some, List, [], ◌∷◌, length,
  get_or, take, length-replicate, ltb, if◌then◌else◌, arith, inl, inr, Option-cases,
}
use snowflake.Common.Eq.{Eq}
use snowflake.Common.GoMap
use snowflake.Common.GoMap.{lookup-insert, lookup-delete}
use snowflake.ServerLib.ClientIdMap.{ClientIdMap, new_client_id_map, set_id, get_id}
use snowflake.ServerLib.ClientIdMap.Slots.{slot, get_elem?-replicate}
use snowflake.ServerLib.ClientIdMap.Represents.{Represents, first, set_id-Represents}

-- What Get answers for the last address that it knows.
abbrev pub answer : {A : Type 0} → A → Option A → A × Bool
answer nil_addr none = (nil_addr, false)
answer nil_addr (some a) = (a, true)

module _ {K A : Type 0} ⦃e : Eq K⦄ where
  -- The last address given to a key.
  pub newest : K → List (K × A) → Option A
  newest id [] = none
  newest id ((k, a) ∷ h) = if e.beq k id then some a else newest id h

  newest-take :
      (id : K) (d : K × A) (cap : ℕ) (h : List (K × A))
      → newest id (take cap h) ≡ elim (first id h) [
        | none ↦ none
        | some j ↦ if ltb j cap then some (get_or h j d).1 else none
      ]
  unfolding newest first
  newest-take id d zero [] = refl
  newest-take id d (suc cap) [] = refl
  newest-take id d zero ((k, a) ∷ h) = ground (arith, newest-take id d zero h)
  newest-take id d (suc cap) ((k, a) ∷ h) = ground (arith, newest-take id d cap h)

module _ {K A : Type 0} ⦃e : Eq K⦄ (zero_id : K) (nil_addr : A) where
  -- The map that the calls of Set make, the last call first.
  pub replay : ℕ → List (K × A) → Option (ClientIdMap K A)
  replay capacity [] = some (new_client_id_map zero_id nil_addr capacity)
  replay capacity ((id, addr) ∷ h) = elim (replay capacity h) [
    | none ↦ none
    | some m ↦ set_id m id addr
  ]

  replay-Represents :
      (capacity : ℕ) (h : List (K × A))
      → 0 < capacity
      → (m : ClientIdMap K A) × (replay capacity h ≡ some m)
        × Represents (zero_id, nil_addr) m h
        × (length m.entries ≡ capacity)
  unfolding replay new_client_id_map first GoMap.lookup
  replay-Represents capacity [] h =
      let len = length-replicate capacity (zero_id, nil_addr) in
      (
        new_client_id_map zero_id nil_addr capacity,
        refl,
        record {
          room = rw len h;
          stored = λ i k. get_elem?-replicate capacity i (zero_id, nil_addr) (rw len at k);
          found = λ id. refl;
        },
        len,
      )
  replay-Represents capacity ((id, addr) ∷ h) k =
      let (m, run, v, len) = replay-Represents capacity h k in
      let (m', run', v', len') = set_id-Represents (zero_id, nil_addr) m h id addr v in
      (m', rw run run', v', len' ∙ len)

  get_id-Represents :
      (m : ClientIdMap K A) (h : List (K × A)) (id : K)
      → Represents (zero_id, nil_addr) m h
      → get_id nil_addr m id ≡ some (answer nil_addr (newest id (take (length m.entries) h)))
  unfolding get_id
  get_id-Represents m h id v =
      let d : K × A = (zero_id, nil_addr) in
      let spec = newest-take id d (length m.entries) h in
      elim (Option-cases (first id h)) [
        | inl p ↦ ground (arith, v.found id, spec)
        | inr (j, p) ↦
            ground (arith, v.room, v.found id, spec, v.stored (slot m.oldest (length m.entries) j))
      ]

  no_entries : (h : List (K × A)) → replay 0 h ≡ some (new_client_id_map zero_id nil_addr 0)
  unfolding replay new_client_id_map set_id
  no_entries [] = refl
  no_entries ((id, addr) ∷ h) = rw (no_entries h, replay)

  -- After any calls of Set no method panics, the buffer has its capacity, and Get answers with the
  -- last address of the key among the last `capacity` calls, if there is one.
  pub get_id-replay :
      (capacity : ℕ) (h : List (K × A)) (id : K)
      → (m : ClientIdMap K A) × (replay capacity h ≡ some m)
        × (length m.entries ≡ capacity)
        × (get_id nil_addr m id ≡ some (answer nil_addr (newest id (take capacity h))))
  unfolding new_client_id_map get_id GoMap.lookup newest
  get_id-replay zero h id = (new_client_id_map zero_id nil_addr 0, no_entries h, refl, refl)
  get_id-replay (suc c) h id =
      let (m, run, v, len) = replay-Represents (suc c) h (omega arith) in
      (m, run, len, rw len at (get_id-Represents m h id v))
