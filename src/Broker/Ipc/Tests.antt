-- ===== src/Broker/Ipc/Tests.antt =====
-- A poll and an offer at a broker with one bridge.
use snowflake.Common.{some, [], ◌∷◌, ◌≡◌, refl}
use snowflake.Common.Bytes.{Bytes, codes, eqb}
use snowflake.Common.GoMap
use snowflake.Common.Hex.{hex_decode}
use snowflake.Messages.{normal_nat}
use snowflake.Messages.Tests.{proxy_json, client_json}
use snowflake.Messages.Proxy
use snowflake.Messages.Client
use snowflake.Messages.Sdp.{deserialize_session_description}
use snowflake.Common.Result.{ok}
use snowflake.Broker.SnowflakeHeap
use snowflake.NameMatcher.{is_superset_of, new_name_matcher}
use snowflake.Broker.BridgeList.{BridgeInfo, get_bridge_info}
use snowflake.Broker.Context.{
  BrokerContext, ProxyPoll, new_broker_context, check_proxy_relay_pattern,
}
use snowflake.Broker.Ipc.{
  ClientOffer, respond, proxy_polls_start, proxy_polls_finish, client_offers_start,
}
use snowflake.Broker.Ipc.Relay.{Registers, proxy_polls_start-Registers, client_offers_start-relayed}

abbrev key : Bytes
key =
    0x2B ∷ 0x28 ∷ 0x0B ∷ 0x23 ∷ 0xE1 ∷ 0x10 ∷ 0x7B ∷ 0xB6 ∷ 0x2A ∷ 0xBF ∷ 0xC4 ∷ 0x0D ∷ 0xDC ∷ 0xC8
    ∷ 0x82 ∷ 0x48 ∷ 0x14 ∷ 0xF8 ∷ 0x0A ∷ 0x72 ∷ []

abbrev bridge : BridgeInfo
bridge = record {
  display_name = "default";
  web_socket_address = "wss://snowflake.torproject.net/";
  fingerprint = Client.default_bridge_fingerprint;
}

abbrev context : BrokerContext
context =
    new_broker_context (record { bridge_info = (key, bridge) ∷ [] }) "snowflake.torproject.net$"

abbrev registered : ProxyPoll
registered = record {
  id = "ymbcCMto7KHNGYlp";
  proxy_type = "standalone";
  nat_type = "unrestricted";
  clients = 8;
}

poll_runs : proxy_polls_start proxy_json context (1 ∷ []) ≡ ok registered
unfolding proxy_polls_start check_proxy_relay_pattern Proxy.decode_proxy_poll_request normal_nat eqb
    Proxy.is_known_proxy_type Proxy.is_major_one new_broker_context new_name_matcher is_superset_of
poll_runs = refl

proxy_polls_start-Registers_example : Registers proxy_json context (1 ∷ []) registered
proxy_polls_start-Registers_example =
    proxy_polls_start-Registers proxy_json context (1 ∷ []) registered poll_runs

abbrev body : Bytes
body = b'1' ∷ b'.' ∷ b'0' ∷ 10 ∷ 1 ∷ []

abbrev offer : ClientOffer
offer = record { nat_type = "unknown"; sdp = "{}"; fingerprint = key }

offer_runs :
    client_offers_start client_json (λ e. "error") "hex" "fingerprint" "bridge" context body
    ≡ ok offer
unfolding client_offers_start Client.decode_client_poll_request Client.check_client_poll_request
    normal_nat eqb Client.fingerprint_from_hex_string Client.fingerprint_from_bytes
    deserialize_session_description GoMap.lookup hex_decode new_broker_context get_bridge_info
    Client.split_line
offer_runs = refl

client_offers_start-relayed_example :
    (req : Client.ClientPollRequest) × (fingerprint : Bytes) × (info : BridgeInfo)
    × (Client.decode_client_poll_request client_json body ≡ ok req)
    × (hex_decode (codes req.fingerprint) ≡ some fingerprint)
    × (get_bridge_info context.bridge_list fingerprint ≡ some info)
    × (proxy_polls_finish proxy_json context registered (some offer)
        ≡ respond proxy_json (record {
          status = "client match";
          offer = req.offer;
          nat = req.nat;
          next_poll = 20_000;
          relay_url = info.web_socket_address;
        }))
unfolding new_broker_context SnowflakeHeap.new_snowflake_pool
client_offers_start-relayed_example =
    client_offers_start-relayed client_json proxy_json (λ e. "error") "hex" "fingerprint" "bridge"
      context context body offer registered refl offer_runs
