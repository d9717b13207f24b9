-- ===== src/Broker/BridgeList.antt =====
-- broker/bridge-list.go: the bridges that the broker knows, by fingerprint.
-- The lines are what bufio.Scanner yields before the end or an error, and `decode` is the JSON decoder with
-- DisallowUnknownFields on one line. The lock makes each method one step.
pub mod Load
mod Tests
use Prim.Native.String.{String}
use snowflake.Common.{Bool, true, false, Option, none, some, List, [], ◌∷◌, if◌then◌else◌}
use snowflake.Common.Bytes.{Bytes}
use snowflake.Common.Text.{bytes_eq}
use snowflake.Common.GoMap
use snowflake.Messages.Client.{fingerprint_from_hex_string}

pub record BridgeInfo : Type 0 where
  pub display_name : String
  pub web_socket_address : String
  pub fingerprint : String

pub data LoadError : Type 0 where
  bad_line scan_failed : LoadError

pub record BridgeListHolder : Type 0 where
  pub bridge_info : List (Bytes × BridgeInfo)

abbrev pub new_bridge_list_holder : BridgeListHolder
new_bridge_list_holder = record { bridge_info = [] }

-- `none` is ErrBridgeNotFound.
unfoldable pub get_bridge_info : BridgeListHolder → Bytes → Option BridgeInfo
get_bridge_info h fingerprint = GoMap.lookup fingerprint h.bridge_info

module _ (decode : Bytes → Option BridgeInfo) where
  -- One line: the key and its bridge.
  unfoldable pub parse_line : Bytes → Option (Bytes × BridgeInfo)
  parse_line line = elim (decode line) [
    | none ↦ none
    | some info ↦ elim (fingerprint_from_hex_string info.fingerprint) [
      | none ↦ none
      | some f ↦ some (f, info)
    ]
  ]

  -- The loop over the lines, on the new map.
  unfoldable pub load_lines :
      List Bytes → List (Bytes × BridgeInfo) → Option (List (Bytes × BridgeInfo))
  load_lines [] m = some m
  load_lines (line ∷ lines) m = elim (parse_line line) [
    | none ↦ none
    | some (f, info) ↦ load_lines lines (GoMap.insert f info m)
  ]

  unfoldable pub load_bridge_info :
      BridgeListHolder → List Bytes → (scan_ok : Bool) → BridgeListHolder × Option LoadError
  load_bridge_info h lines scan_ok = elim (load_lines lines []) [
    | none ↦ (h, some bad_line)
    | some m ↦ if scan_ok then (record { bridge_info = m }, none) else (h, some scan_failed)
  ]
