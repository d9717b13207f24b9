-- ===== src/Broker/Http/Tests.antt =====
-- A legacy client at a broker that does not know the default bridge: the handler panics.
use Prim.Native.String.{String}
use snowflake.Common.{Bool, true, false, none, some, [], ◌∷◌, ◌≡◌, ◌&&◌, refl, arith}
use snowflake.Common.GoMap
use snowflake.Common.Hex.{hex_decode}
use snowflake.Common.Text.{str_eq, str_eq_iff}
use snowflake.Messages.{normal_nat}
use snowflake.Messages.Tests.{
  single, single-IsInverse, client_poll, is_client_poll, is_client_poll_sound, client_json,
}
use snowflake.Messages.Client
use snowflake.Messages.Client.{ClientJson, ClientPollResponse}
use snowflake.Messages.Sdp.{deserialize_session_description}
use snowflake.Broker.BridgeList.{get_bridge_info}
use snowflake.Broker.Context.{BrokerContext, new_broker_context}
use snowflake.Broker.Ipc.{answered}
use snowflake.Broker.Http.{Request, is_legacy, client_offers, ipc_client_offers}
use snowflake.Broker.Http.Legacy.{refusal, client_offers-told}

abbrev bridge_error : String
bridge_error = "bridge with requested fingerprint is unknown to the broker"

abbrev is_refusal : ClientPollResponse → Bool
is_refusal r = str_eq r.answer "" && str_eq r.error bridge_error

is_refusal_sound : (r : ClientPollResponse) → is_refusal r ≡ true → r ≡ refusal bridge_error
is_refusal_sound r h = ground (arith, str_eq_iff r.answer "", str_eq_iff r.error bridge_error)

abbrev json : ClientJson
json = record client_json { poll_response = single is_refusal some (refusal bridge_error) }

abbrev no_bridges : BrokerContext
no_bridges = new_broker_context (record { bridge_info = [] }) "snowflake.torproject.net$"

abbrev request : Request
request = record { body = b'{' ∷ b'}' ∷ []; read_fails = false; nat_type = "" }

client_offers-told_example :
    client_offers json
      (λ b. "{}")
      (ipc_client_offers json
        (λ e. "error")
        "hex"
        "fingerprint"
        bridge_error
        no_bridges
        (answered "{}"))
      request
    ≡ none
unfolding is_legacy Client.encode_client_poll_request Client.check_client_poll_request normal_nat
    Client.fingerprint_from_hex_string Client.fingerprint_from_bytes deserialize_session_description
    GoMap.lookup hex_decode new_broker_context get_bridge_info
client_offers-told_example =
    client_offers-told json (single-IsInverse is_client_poll some client_poll is_client_poll_sound)
      (single-IsInverse is_refusal some (refusal bridge_error) is_refusal_sound) (λ b. "{}")
      (λ e. "error") "hex" "fingerprint" bridge_error no_bridges (answered "{}") request
      (b'1' ∷ b'.' ∷ b'0' ∷ 10 ∷ 1 ∷ []) (1 ∷ []) refl (omega arith) refl refl refl
