-- ===== src/ClientLib/Rendezvous/Tests.antt =====
-- A client behind a front that is answered through the broker of its bridge.
use Prim.Native.String.{String}
use snowflake.Common.{Bool, true, some, [], ◌∷◌, ◌≡◌, ◌&&◌, refl, arith}
use snowflake.Common.Bytes.{Bytes, eqb}
use snowflake.Common.GoMap
use snowflake.Common.Hex.{hex_decode}
use snowflake.Common.Result.{ok}
use snowflake.Common.Text.{str_eq, str_eq_iff}
use snowflake.Messages.{normal_nat}
use snowflake.Messages.Tests.{
  single, single-IsInverse, client_poll, is_client_poll, is_client_poll_sound, client_json,
}
use snowflake.Messages.Client
use snowflake.Messages.Client.{ClientJson, ClientPollResponse}
use snowflake.Messages.Sdp
use snowflake.Messages.Sdp.{SessionDescription, deserialize_session_description}
use snowflake.Broker.BridgeList.{get_bridge_info}
use snowflake.Broker.Context.{BrokerContext, new_broker_context}
use snowflake.Broker.Ipc.{answered}
use snowflake.Broker.Http.{client_offers, ipc_client_offers}
use snowflake.ClientLib.Rendezvous.{negotiate}
use snowflake.ClientLib.Rendezvous.Http.{exchange}
use snowflake.ClientLib.Rendezvous.Negotiated.{to_broker, negotiate-client_offers}

abbrev pub answer : ClientPollResponse
answer = record { answer = "{}"; error = "" }

abbrev pub is_the_answer : ClientPollResponse → Bool
is_the_answer r = str_eq r.answer "{}" && str_eq r.error ""

pub is_the_answer_sound : (r : ClientPollResponse) → is_the_answer r ≡ true → r ≡ answer
is_the_answer_sound r h = ground (arith, str_eq_iff r.answer "{}", str_eq_iff r.error "")

abbrev pub json : ClientJson
json = record client_json { poll_response = single is_the_answer some answer }

abbrev key : Bytes
key =
    0x2B ∷ 0x28 ∷ 0x0B ∷ 0x23 ∷ 0xE1 ∷ 0x10 ∷ 0x7B ∷ 0xB6 ∷ 0x2A ∷ 0xBF ∷ 0xC4 ∷ 0x0D ∷ 0xDC ∷ 0xC8
    ∷ 0x82 ∷ 0x48 ∷ 0x14 ∷ 0xF8 ∷ 0x0A ∷ 0x72 ∷ []

abbrev pub context : BrokerContext
context =
    new_broker_context
      (record {
        bridge_info =
            (
              key,
              record {
                display_name = "default";
                web_socket_address = "wss://snowflake.torproject.net/";
                fingerprint = Client.default_bridge_fingerprint;
              },
            )
            ∷ [];
      })
      "snowflake.torproject.net$"

abbrev pub description : SessionDescription
description = record { type = Sdp.offer; sdp = "v=0" }

negotiate-client_offers_example :
    negotiate json
      (λ d. some "{}")
      (exchange
        (λ (url : String) reference. some (url, reference))
        (to_broker (
          client_offers json
            (λ b. "")
            (ipc_client_offers json
              (λ e. "error")
              "hex"
              "fingerprint"
              "bridge"
              context
              (answered "{}"))))
        "snowflake-broker.torproject.net"
        ("front.example" ∷ [])
        7)
      ""
      description
      ""
    ≡ ok description
unfolding Client.encode_client_poll_request Client.check_client_poll_request normal_nat eqb
    Client.fingerprint_from_hex_string Client.fingerprint_from_bytes deserialize_session_description
    GoMap.lookup hex_decode new_broker_context get_bridge_info
negotiate-client_offers_example =
    negotiate-client_offers json (λ (url : String) reference. some (url, reference))
      (λ d. some "{}") (λ b. "") (λ e. "error") "hex" "fingerprint" "bridge" context (answered "{}")
      "snowflake-broker.torproject.net" ("front.example" ∷ []) 7 "snowflake-broker.torproject.net"
      "client" "" "" "{}" description (b'1' ∷ b'.' ∷ b'0' ∷ 10 ∷ 1 ∷ []) (1 ∷ [])
      (single-IsInverse is_client_poll some client_poll is_client_poll_sound)
      (single-IsInverse is_the_answer some answer is_the_answer_sound) refl refl refl (omega arith)
      refl (omega arith)
