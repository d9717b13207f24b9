-- ===== src/Messages/Sdp.antt =====
-- DeserializeSessionDescription of common/util/util.go. `object` is json.Unmarshal into a map.
use Prim.Native.String.{String}
use snowflake.Common.{Option, none, some, List, if◌then◌else◌}
use snowflake.Common.Text.{str_eq, string_eq}
use snowflake.Common.GoMap
use snowflake.Messages.{Value, text, other}

pub data SdpType : Type 0 where
  offer pranswer answer rollback : SdpType

pub record SessionDescription : Type 0 where
  pub type : SdpType
  pub sdp : String

unfoldable pub sdp_type : String → Option SdpType
sdp_type s =
    if str_eq s "offer"
    then some offer
    else if str_eq s "pranswer"
    then some pranswer
    else if str_eq s "answer"
    then some answer
    else if str_eq s "rollback"
    then some rollback
    else none

-- A member that is there and is a string.
unfoldable pub string_member : String → List (String × Value) → Option String
string_member name parsed = elim (GoMap.lookup name parsed) [
  | none ↦ none
  | some (text s) ↦ some s
  | some other ↦ none
]

unfoldable pub deserialize_session_description :
    (String → Option (List (String × Value))) → String → Option SessionDescription
unfolding sdp_type string_member
deserialize_session_description object msg = elim (object msg) [
  | none ↦ none
  | some parsed ↦ elim (string_member "type" parsed) [
    | none ↦ none
    | some t ↦ elim (string_member "sdp" parsed) [
      | none ↦ none
      | some s ↦ elim (sdp_type t) [
        | none ↦ none
        | some stype ↦ some (record { type = stype; sdp = s })
      ]
    ]
  ]
]
