-- ===== src/Broker/BridgeList/Tests.antt =====
-- A file of two bridges under one fingerprint, and the theorem on it. The decoder reads one byte.
use Prim.Native.String.{String}
use snowflake.Common.{Option, none, some, [], ◌∷◌, if◌then◌else◌, ◌==◌, true}
use snowflake.Common.Bytes.{Bytes}
use snowflake.Messages.Client.{default_bridge_fingerprint}
use snowflake.Broker.BridgeList.{BridgeInfo, new_bridge_list_holder, load_bridge_info}
use snowflake.Broker.BridgeList.Load.{Loaded, load_bridge_info-Loaded, all_bridges}

abbrev bridge : String → BridgeInfo
bridge url = record {
  display_name = "default";
  web_socket_address = url;
  fingerprint = default_bridge_fingerprint;
}

abbrev decode : Bytes → Option BridgeInfo
decode [] = none
decode (b ∷ bs) =
    if b == 1 then some (bridge "wss://a/") else if b == 2 then some (bridge "wss://b/") else none

load_bridge_info-Loaded_example :
    Loaded new_bridge_list_holder
      (load_bridge_info decode new_bridge_list_holder ((1 ∷ []) ∷ (2 ∷ []) ∷ []) true)
      true
      (all_bridges decode ((1 ∷ []) ∷ (2 ∷ []) ∷ []))
load_bridge_info-Loaded_example =
    load_bridge_info-Loaded decode new_bridge_list_holder ((1 ∷ []) ∷ (2 ∷ []) ∷ []) true
