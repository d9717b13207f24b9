-- ===== src/Broker/SnowflakeHeap/Held.antt =====
-- A snowflake that has left the heap stays out of it.
use mathlib.Core.List.{Perm, Mem, mem-cons_self, mem-cons_of_mem, mem_of_ne_of_mem}
use mathlib.Core.List.Perm
use snowflake.Common.Members.{not-Mem, get_or-Mem}
use snowflake.Common.{
  ℕ, ◌+◌, ◌<◌, ◌≤◌, ◌≡◌, refl, ap, sym, ◌∙◌, Option, none, some, ◌∷◌, length, get_or, arith, ltb,
  inl, inr, Bool-cases,
}
use snowflake.Broker.SnowflakeHeap.{SnowflakePool}
use snowflake.Broker.SnowflakeHeap.Index.{Points, entry_of, get_or-map, length-entries}
use snowflake.Broker.SnowflakeHeap.Pool.{IsValid, waiting, Pops, Removes}

-- It was pushed, and Pop or Remove has taken it.
abbrev pub IsHeld : SnowflakePool → ℕ → Type 0
IsHeld sp p = (p < sp.next) × ((sp.h.flakes p).index ≡ none)

module _ (sp : SnowflakePool) (v : IsValid sp) (p : ℕ) where
  entry-at :
      (c i : ℕ)
      → i < length (waiting sp)
      → get_or (waiting sp) i (0, 0) ≡ (c, p)
      → (i < length sp.h.slots) × (get_or sp.h.slots i 0 ≡ p)
  entry-at c i l e =
      let l' : i < length sp.h.slots = omega (arith, length-entries sp.next sp.h) in
      (l', ap (λ (x : ℕ × ℕ). x.1) (sym (get_or-map (entry_of sp.h) 0 (0, 0) sp.h.slots i l') ∙ e))

  none-not_waiting : (c : ℕ) → (sp.h.flakes p).index ≡ none → ¬ Mem (c, p) (waiting sp)
  none-not_waiting c gone =
      not-Mem (0, 0) (c, p) (waiting sp)
        λ i l e. let (l', at) = entry-at c i l e in ground (arith, v.inv.places i l')

  fresh-not_waiting : (c : ℕ) → ¬ (p < sp.next) → ¬ Mem (c, p) (waiting sp)
  fresh-not_waiting c gone =
      not-Mem (0, 0) (c, p) (waiting sp)
        λ i l e. let (l', at) = entry-at c i l e in let b = v.inv.below i l' in ground arith

  indexed-waiting :
      (i : ℕ)
      → (i < length sp.h.slots)
      → (get_or sp.h.slots i 0 ≡ p)
      → Mem ((sp.h.flakes p).clients, p) (waiting sp)
  indexed-waiting i inside at =
      rw (← (get_or-map (entry_of sp.h) 0 (0, 0) sp.h.slots i inside ∙ ap (entry_of sp.h) at))
        (get_or-Mem (0, 0) (waiting sp) i (omega (arith, length-entries sp.next sp.h)))

  -- The snowflake is held exactly if it is allocated and does not wait.
  pub not_waiting-IsHeld : p < sp.next → ((c : ℕ) → ¬ Mem (c, p) (waiting sp)) → IsHeld sp p
  not_waiting-IsHeld l out = (l, go (sp.h.flakes p).index (v.inv.points p l))
    where
      go : (o : Option ℕ) → Points sp.h.slots p o → o ≡ none
      go none at = refl
      go (some i) (inside, at) = absurd (out _ (indexed-waiting i inside at))

module _ (sp sp' : SnowflakePool) (v : IsValid sp) (v' : IsValid sp') where
  -- What left the heap does not come back if no other snowflake than `q` enters it.
  kept :
      (p : ℕ)
      → ((c : ℕ) → Mem (c, p) (waiting sp') → Mem (c, p) (waiting sp))
      → sp.next ≤ sp'.next
      → IsHeld sp p
      → IsHeld sp' p
  kept p sub grows (l, gone) =
      not_waiting-IsHeld sp' v' p (omega arith) λ c m. none-not_waiting sp v p c gone (sub c m)

  pub Pops-IsHeld : (q : ℕ) → Pops sp (some q) sp' → (p : ℕ) → IsHeld sp p → IsHeld sp' p
  Pops-IsHeld q (c, perm, least, gone, n) p =
      kept p (λ d m. (Perm.mem_iff perm).0 (mem-cons_of_mem _ m)) (omega arith)

  -- The snowflake that Pop returns was not held before, and is held after.
  pub Pops-taken : (q : ℕ) → Pops sp (some q) sp' → (¬ IsHeld sp q) × IsHeld sp' q
  Pops-taken q (c, perm, least, gone, n) =
      let m : Mem (c, q) (waiting sp) = (Perm.mem_iff perm).0 mem-cons_self in
      (
        λ held. none-not_waiting sp v q c held.1 m,
        (
          elim (Bool-cases (ltb q sp.next)) [
            | inl l ↦ ground arith
            | inr l ↦ absurd (fresh-not_waiting sp v q c (ground arith) m)
          ],
          gone,
        ),
      )

  pub Removes-IsHeld :
      (q : ℕ) → Removes sp q (sp.h.flakes q).index sp' → (p : ℕ) → IsHeld sp p → IsHeld sp' p
  Removes-IsHeld q r p = go (sp.h.flakes q).index r
    where
      go : (o : Option ℕ) → Removes sp q o sp' → IsHeld sp p → IsHeld sp' p
      go none e = rw e λ h. h
      go (some i) (perm, n) =
          kept p (λ d m. (Perm.mem_iff perm).0 (mem-cons_of_mem _ m)) (omega arith)

  -- A new snowflake is not one that was held.
  pub added-IsHeld :
      (c : ℕ)
      → Perm (waiting sp') ((c, sp.next) ∷ waiting sp)
      → sp'.next ≡ sp.next + 1
      → (p : ℕ) → IsHeld sp p
      → IsHeld sp' p
  added-IsHeld c perm n p (l, gone) =
      kept p
        (λ d m.
          mem_of_ne_of_mem (λ e. let e' = ap (λ (x : ℕ × ℕ). x.1) e in ground arith)
            ((Perm.mem_iff perm).0 m))
        (omega arith) (l, gone)
