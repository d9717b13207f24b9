-- ===== src/Broker/BridgeList/Load.antt =====
-- LoadBridgeInfo against the file as a whole: all of its lines or none.
use snowflake.Common.{
  Bool, true, false, Option, none, some, List, [], ◌∷◌, if◌then◌else◌, ◌≡◌, refl, some_or_none, inl,
  inr,
}
use snowflake.Common.Bytes.{Bytes, eqb}
use snowflake.Common.Text.{bytes_eq}
use snowflake.Common.GoMap
use snowflake.Common.GoMap.{lookup-insert}
use snowflake.Broker.BridgeList.{
  BridgeInfo, BridgeListHolder, LoadError, bad_line, scan_failed, get_bridge_info, parse_line,
  load_lines, load_bridge_info,
}

module _ (decode : Bytes → Option BridgeInfo) where
  -- The bridges of a file, if each of its lines is good.
  unfoldable pub all_bridges : List Bytes → Option (List (Bytes × BridgeInfo))
  all_bridges [] = some []
  all_bridges (line ∷ lines) = elim (parse_line decode line) [
    | none ↦ none
    | some b ↦ elim (all_bridges lines) [ none ↦ none | some bs ↦ some (b ∷ bs) ]
  ]

-- The last bridge with the fingerprint, or the other one.
unfoldable pub last_bridge :
    Bytes → Option BridgeInfo → List (Bytes × BridgeInfo) → Option BridgeInfo
last_bridge f other [] = other
last_bridge f other ((g, info) ∷ bs) = last_bridge f (if eqb g f then some info else other) bs

-- The map after the insertions, in order.
unfoldable inserted :
    List (Bytes × BridgeInfo) → List (Bytes × BridgeInfo) → List (Bytes × BridgeInfo)
inserted [] m = m
inserted ((g, info) ∷ bs) m = inserted bs (GoMap.insert g info m)

lookup-inserted :
    (f : Bytes) (bs m : List (Bytes × BridgeInfo))
    → GoMap.lookup f (inserted bs m) ≡ last_bridge f (GoMap.lookup f m) bs
unfolding inserted last_bridge
lookup-inserted f [] m = refl
lookup-inserted f ((g, info) ∷ bs) m =
    rw (lookup-inserted f bs (GoMap.insert g info m), lookup-insert g f info m)

abbrev insert_all :
    List (Bytes × BridgeInfo)
    → Option (List (Bytes × BridgeInfo))
    → Option (List (Bytes × BridgeInfo))
insert_all m none = none
insert_all m (some bs) = some (inserted bs m)

load_lines-insert_all :
    (decode : Bytes → Option BridgeInfo) (lines : List Bytes) (m : List (Bytes × BridgeInfo))
    → load_lines decode lines m ≡ insert_all m (all_bridges decode lines)
unfolding all_bridges load_lines inserted
load_lines-insert_all decode [] m = refl
load_lines-insert_all decode (line ∷ lines) m = elim (some_or_none (parse_line decode line)) [
  | inl e ↦ rw (load_lines, all_bridges, e)
  | inr ((g, info), e) ↦
      rw (load_lines, all_bridges, e, load_lines-insert_all decode lines (GoMap.insert g info m))
        (elim (some_or_none (all_bridges decode lines)) [
          | inl h ↦ rw h refl
          | inr (bs, h) ↦ rw (h, inserted) refl
        ])
]

-- The outcome of a load, as the bridges of the file tell.
abbrev pub Loaded :
    BridgeListHolder
    → BridgeListHolder × Option LoadError
    → Bool
    → Option (List (Bytes × BridgeInfo))
    → Type 0
Loaded h r scan_ok none = r ≡ (h, some bad_line)
Loaded h r false (some bs) = r ≡ (h, some scan_failed)
Loaded h r true (some bs) =
    (r.1 ≡ none) × ((f : Bytes) → get_bridge_info r.0 f ≡ last_bridge f none bs)

-- LoadBridgeInfo fails exactly if a line is bad or the scanner stops early, and then keeps the old bridges;
-- else GetBridgeInfo answers with the last bridge of the file that has the fingerprint, and with no other.
pub load_bridge_info-Loaded :
    (decode : Bytes → Option BridgeInfo) (h : BridgeListHolder) (lines : List Bytes)
    (scan_ok : Bool)
    → Loaded h (load_bridge_info decode h lines scan_ok) scan_ok (all_bridges decode lines)
unfolding load_bridge_info get_bridge_info GoMap.lookup
load_bridge_info-Loaded decode h lines scan_ok =
    rw (load_bridge_info, load_lines-insert_all decode lines [])
      (elim (all_bridges decode lines)
        as (λ o.
          Loaded h
            (elim (insert_all [] o) [
              | none ↦ (h, some bad_line)
              | some m ↦
                  if scan_ok then (record { bridge_info = m }, none) else (h, some scan_failed)
            ])
            scan_ok o) [
              | none ↦ refl
              | some bs ↦
                  elim scan_ok
                    as (λ b.
                      Loaded h
                        (if b
                          then (record { bridge_info = inserted bs [] }, none)
                          else (h, some scan_failed))
                        b (some bs)) [ false ↦ refl | true ↦ (refl, λ f. lookup-inserted f bs []) ]
            ])
