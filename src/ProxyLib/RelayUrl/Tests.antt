-- ===== src/ProxyLib/RelayUrl/Tests.antt =====
-- A proxy of the default pattern and the default relay.
use Prim.Native.String.{String}
use snowflake.Common.{false, Option, none, some, [], ◌∷◌, ◌++◌, ◌≡◌, ◌↔◌, ◌⊎◌, refl, not, arith}
use snowflake.Common.Bytes.{Bytes, eqb, has_suffix}
use snowflake.Common.Result.{ok}
use snowflake.Messages.{normal_nat}
use snowflake.Messages.Tests.{proxy_json}
use snowflake.Messages.Proxy
use snowflake.NameMatcher.{is_superset_of, is_member, new_name_matcher}
use snowflake.Broker.Context.{
  BrokerContext, ProxyPoll, new_broker_context, check_proxy_relay_pattern,
}
use snowflake.Broker.Ipc.{proxy_polls_start}
use snowflake.ProxyLib.RelayUrl.{
  Url, check_is_relay_url_acceptable, is_remote_address, v4_in_v6_prefix,
}
use snowflake.ProxyLib.RelayUrl.Ranges.{is_reserved, number, is_remote_address-ranges}
use snowflake.ProxyLib.RelayUrl.Accepts.{
  IsAcceptable, check_is_relay_url_acceptable_iff, AcceptsRelay, proxy_polls_start-AcceptsRelay,
}

is_remote_address-ranges_example :
    (is_remote_address (100 ∷ 64 ∷ 0 ∷ 1 ∷ []) ≡ not (is_reserved (number 100 64 0 1)))
    × (is_remote_address (v4_in_v6_prefix ++ 100 ∷ 64 ∷ 0 ∷ 1 ∷ [])
        ≡ not (is_reserved (number 100 64 0 1)))
is_remote_address-ranges_example =
    is_remote_address-ranges 100 64 0 1 (omega arith) (omega arith) (omega arith) (omega arith)

abbrev relay : Url
relay = record { scheme = "wss"; hostname = "snowflake.torproject.net" }

abbrev relay_url : String
relay_url = "wss://snowflake.torproject.net/"

abbrev parse_url : String → Option Url
parse_url s = some relay

abbrev parse_ip : String → Option Bytes
parse_ip s = none

check_is_relay_url_acceptable_iff_example :
    (check_is_relay_url_acceptable parse_url parse_ip "snowflake.torproject.net$" false false
        relay_url
      ≡ ok tt)
    ↔ ((◌≡◌ {A = String} relay_url "")
        ⊎ IsAcceptable parse_url parse_ip "snowflake.torproject.net$" false false relay_url)
check_is_relay_url_acceptable_iff_example =
    check_is_relay_url_acceptable_iff parse_url parse_ip "snowflake.torproject.net$" false false
      relay_url

abbrev context : BrokerContext
context = new_broker_context (record { bridge_info = [] }) "snowflake.torproject.net$"

abbrev registered : ProxyPoll
registered = record {
  id = "ymbcCMto7KHNGYlp";
  proxy_type = "standalone";
  nat_type = "unrestricted";
  clients = 8;
}

poll_runs : proxy_polls_start proxy_json context (1 ∷ []) ≡ ok registered
unfolding proxy_polls_start check_proxy_relay_pattern Proxy.decode_proxy_poll_request normal_nat eqb
    Proxy.is_known_proxy_type Proxy.is_major_one new_broker_context new_name_matcher is_superset_of
poll_runs = refl

proxy_polls_start-AcceptsRelay_example :
    AcceptsRelay proxy_json (1 ∷ []) parse_url parse_ip relay_url
unfolding is_member new_name_matcher new_broker_context has_suffix eqb
proxy_polls_start-AcceptsRelay_example =
    proxy_polls_start-AcceptsRelay proxy_json context (1 ∷ []) registered parse_url parse_ip
      relay_url relay poll_runs refl refl refl refl
