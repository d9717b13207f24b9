-- ===== src/Turbotunnel/ClientMap/Search.antt =====
-- The record of an address, found through the index, is the one record of the address.
use mathlib.Core.List.{Mem}
use native.Mathlib.Decide.{ℕ_discrete}
use snowflake.Common.{
  ℕ, ◌<◌, ◌≡◌, ◌↔◌, refl, Option, none, some, length, get_elem?, arith, some_or_none, inl, inr,
}
use snowflake.Common.Bytes.{Bytes}
use snowflake.Common.Text.{bytes_eq}
use snowflake.Common.GoMap
use snowflake.Common.Members.{Mem_place, get_or-Mem}
use snowflake.Common.Array.{get_elem?-get_or}
use snowflake.Turbotunnel.ClientMap.{ClientRecord, ClientMapInner}
use snowflake.Turbotunnel.ClientMap.Index.{IsIndexed, at, no_record}

-- The abstract map: the record of an address.
unfoldable pub client : ClientMapInner → Bytes → Option ClientRecord
client s a = elim (GoMap.lookup a s.by_addr) [ none ↦ none | some i ↦ get_elem? s.by_age i ]

pub client-none :
    (s : ClientMapInner) (a : Bytes) → GoMap.lookup a s.by_addr ≡ none → client s a ≡ none
unfolding client
client-none s a h = rw (client, h) refl

pub client-some :
    (s : ClientMapInner) (a : Bytes) (i : ℕ)
    → GoMap.lookup a s.by_addr ≡ some i
    → i < length s.by_age
    → client s a ≡ some (at s.by_age i)
unfolding client
client-some s a i h l = rw (client, h) (get_elem?-get_or no_record s.by_age i l)

ClientRecord-set : IsSet (Option ClientRecord)
ClientRecord-set = hlevel ℕ_discrete

module _ (s : ClientMapInner) (v : IsIndexed s) (a : Bytes) (r : ClientRecord) where
  client-found : client s a ≡ some r → Mem r s.by_age × (r.addr ≡ a)
  unfolding client
  client-found h = elim (some_or_none (GoMap.lookup a s.by_addr)) [
    | inl e ↦ absurd (ground arith)
    | inr (i, e) ↦
        let (inside, here) : (i < length s.by_age) × ((at s.by_age i).addr ≡ a) =
          rw e at (v.points a) in
        let same : at s.by_age i ≡ r =
          ground (arith, get_elem?-get_or no_record s.by_age i inside) in
        (rw (← same) (get_or-Mem no_record s.by_age i inside), rw (← same) here)
  ]

  client-held : Mem r s.by_age → r.addr ≡ a → client s a ≡ some r
  unfolding client
  client-held m here =
      Mem_place no_record r s.by_age (ClientRecord-set _ _)
        (λ i inside same.
          ground (arith, v.places i inside, get_elem?-get_or no_record s.by_age i inside))
        m

  pub client_iff : (client s a ≡ some r) ↔ (Mem r s.by_age × (r.addr ≡ a))
  client_iff = (client-found, λ x. client-held x.0 x.1)
