-- ===== src/Messages/Client.antt =====
-- common/messages/client.go and common/bridgefingerprint/fingerprint.go: the polls of clients.
use Prim.Native.String.{String}
use snowflake.Common.{
  not, Option, none, some, List, [], ◌∷◌, ◌++◌, ◌||◌, ◌&&◌, if◌then◌else◌, ◌==◌, length,
}
use snowflake.Common.Bytes.{Bytes, codes, eqb}
use snowflake.Common.Hex.{hex_decode}
use snowflake.Common.Text.{str_eq}
use snowflake.Common.Result.{Result, ok, ◌>>=◌, ◌>>◌, guard, from_option}
use snowflake.Messages.{
  Codec, Value, DecodeError, bad_json, invalid_nat, no_offer, malformed_sdp, unsupported_version,
  bad_fingerprint, empty_response, normal_nat,
}
use snowflake.Messages.Sdp.{deserialize_session_description}

abbrev pub client_version : String
client_version = "1.0"

abbrev pub default_bridge_fingerprint : String
default_bridge_fingerprint = "2B280B23E1107BB62ABFC40DDCC8824814F80A72"

-- `none` is ErrBridgeFingerprintInvalid.
unfoldable pub fingerprint_from_bytes : Bytes → Option Bytes
fingerprint_from_bytes bytes = if length bytes == 20 || length bytes == 32 then some bytes else none

unfoldable pub fingerprint_from_hex_string : String → Option Bytes
unfolding fingerprint_from_bytes
fingerprint_from_hex_string hex_string = elim (hex_decode (codes hex_string)) [
  | none ↦ none
  | some decoded ↦ fingerprint_from_bytes decoded
]

pub record ClientPollRequest : Type 0 where
  pub offer : String
  pub nat : String
  pub fingerprint : String

pub record ClientPollResponse : Type 0 where
  pub answer : String
  pub error : String

pub record ClientJson : Type 0 where
  pub poll_request : Codec ClientPollRequest ClientPollRequest
  pub poll_response : Codec ClientPollResponse ClientPollResponse
  pub object : String → Option (List (String × Value))

-- bytes.SplitN(data, "\n", 2), with `none` for a single part.
unfoldable pub split_line : Bytes → Option (Bytes × Bytes)
split_line [] = none
split_line (c ∷ s) =
    let rest = split_line s in
    if c == 10
    then some ([], s)
    else elim rest [ none ↦ none | some (line, body) ↦ some (c ∷ line, body) ]

abbrev pub or_default : String → String
or_default fingerprint = if str_eq fingerprint "" then default_bridge_fingerprint else fingerprint

module _ (json : ClientJson) where
  unfoldable pub encode_client_poll_request : ClientPollRequest → Option Bytes
  encode_client_poll_request req =
      elim (json.poll_request.marshal (record req { fingerprint = or_default req.fingerprint })) [
        | none ↦ none
        | some body ↦ some ((codes client_version ++ 10 ∷ []) ++ body)
      ]

  -- The checks behind the JSON.
  unfoldable pub check_client_poll_request :
      ClientPollRequest → Result DecodeError ClientPollRequest
  check_client_poll_request message = do
    guard (not (str_eq message.offer "")) no_offer
    d ← from_option (deserialize_session_description json.object message.offer) malformed_sdp
    let fingerprint = or_default message.fingerprint
    f ← from_option (fingerprint_from_hex_string fingerprint) bad_fingerprint
    nat ← from_option (normal_nat message.nat) invalid_nat
    ok (record { offer = message.offer; nat = nat; fingerprint = fingerprint })

  unfoldable pub decode_client_poll_request : Bytes → Result DecodeError ClientPollRequest
  decode_client_poll_request data' = do
    (line, body) ← from_option (split_line data') unsupported_version
    guard (eqb line (codes client_version)) unsupported_version
    message ← from_option (json.poll_request.unmarshal body) bad_json
    check_client_poll_request message

  unfoldable pub encode_client_poll_response : ClientPollResponse → Option Bytes
  encode_client_poll_response resp = json.poll_response.marshal resp

  unfoldable pub decode_client_poll_response : Bytes → Result DecodeError ClientPollResponse
  decode_client_poll_response data' = do
    message ← from_option (json.poll_response.unmarshal data') bad_json
    guard (not (str_eq message.error "" && str_eq message.answer "")) empty_response
    ok message
