-- ===== src/ServerLib/ClientIdMap.antt =====
-- server/lib/turbotunnel.go: the address of each recent ClientID, in a circular buffer.
-- `zero_id` and `nil_addr` are the zero values of the key and of the address. `none` is a panic on
-- an index out of range. The lock makes each method one step.
mod Slots
mod Represents
pub mod Recall
mod Tests
use snowflake.Common.{
  ℕ, ◌+◌, ◌%◌, Bool, true, false, Option, none, some, List, [], length, get_elem?, set, replicate,
  ◌==◌, ◌&&◌, if◌then◌else◌,
}
use snowflake.Common.Eq.{Eq}
use snowflake.Common.GoMap

pub record ClientIdMap (K A : Type 0) : Type 0 where
  pub entries : List (K × A)
  pub oldest : ℕ
  pub current : List (K × ℕ)

module _ {K A : Type 0} (zero_id : K) (nil_addr : A) where
  unfoldable pub new_client_id_map : ℕ → ClientIdMap K A
  new_client_id_map capacity = record {
    entries = replicate capacity (zero_id, nil_addr);
    oldest = 0;
    current = [];
  }

-- `if i, ok := m.current[id]; ok && i == m.oldest { delete(m.current, id) }`
module _ {K : Type 0} ⦃e : Eq K⦄ where
  unfoldable pub forget : K → ℕ → List (K × ℕ) → List (K × ℕ)
  forget id oldest current = elim (GoMap.lookup id current) [
    | none ↦ current
    | some i ↦ if i == oldest then GoMap.delete id current else current
  ]

module _ {K A : Type 0} ⦃e : Eq K⦄ where
  unfoldable pub set_id : ClientIdMap K A → K → A → Option (ClientIdMap K A)
  set_id m client_id addr =
      if length m.entries == 0 then some m else elim (get_elem? m.entries m.oldest) [
        | none ↦ none
        | some old ↦ some (record {
          entries = set m.entries m.oldest (client_id, addr);
          oldest = (m.oldest + 1) % length m.entries;
          current = GoMap.insert client_id m.oldest (forget old.0 m.oldest m.current);
        })
      ]

  unfoldable pub get_id : A → ClientIdMap K A → K → Option (A × Bool)
  get_id nil_addr m client_id = elim (GoMap.lookup client_id m.current) [
    | none ↦ some (nil_addr, false)
    | some i ↦ elim (get_elem? m.entries i) [ none ↦ none | some entry ↦ some (entry.1, true) ]
  ]
