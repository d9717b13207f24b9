-- ===== src/Broker/Ipc/Relay.antt =====
-- What a client offers and what a proxy accepts decide which relay the proxy is sent to.
use Prim.Native.String.{String}
use snowflake.Common.{◌/◌, true, some, ◌≡◌, refl, arith, inl, inr, some_or_none}
use snowflake.Common.Bytes.{Bytes, codes}
use snowflake.Common.Hex.{hex_decode}
use snowflake.Common.Result.{ok, ok_or_err}
use snowflake.NameMatcher.{new_name_matcher, is_superset_of, is_member}
use snowflake.NameMatcher.Superset.{superset_iff}
use snowflake.Messages.{DecodeError}
use snowflake.Messages.Proxy.{ProxyJson, ProxyPollRequest, decode_proxy_poll_request}
use snowflake.Messages.Client.{
  ClientJson, ClientPollRequest, decode_client_poll_request, fingerprint_from_bytes,
}
use snowflake.Messages.Valid.{IsProxyPoll, decode_proxy_poll_request-IsProxyPoll}
use snowflake.Broker.BridgeList.{BridgeInfo, get_bridge_info}
use snowflake.Broker.Context.{BrokerContext, ProxyPoll, get_pool, check_proxy_relay_pattern}
use snowflake.Broker.Ipc.{
  ClientOffer, respond, proxy_polls_start, proxy_polls_finish, client_offers_start,
}

fingerprint_same : (b f : Bytes) → fingerprint_from_bytes b ≡ some f → f ≡ b
unfolding fingerprint_from_bytes
fingerprint_same b f h = ground arith

-- Of a poll that ProxyPolls registers: what was decoded, and its relay pattern accepts every name that the
-- broker's pattern allows.
abbrev pub Registers : ProxyJson → BrokerContext → Bytes → ProxyPoll → Type 0
Registers json ctx body poll =
    (req : ProxyPollRequest) × (pattern : String) × (decode_proxy_poll_request json body ≡ ok req)
    × IsProxyPoll req
    × (req.accepted_relay_pattern ≡ some pattern)
    × ((name : Bytes)
        → is_member (new_name_matcher (codes ctx.allowed_relay_pattern)) name ≡ true
        → is_member (new_name_matcher (codes pattern)) name ≡ true)
    × (poll.id ≡ req.sid)
    × (poll.nat_type ≡ req.nat)

-- ProxyPolls registers only well-formed polls, of proxies that accept every relay that the broker allows.
pub proxy_polls_start-Registers :
    (json : ProxyJson) (ctx : BrokerContext) (body : Bytes) (poll : ProxyPoll)
    → proxy_polls_start json ctx body ≡ ok poll
    → Registers json ctx body poll
unfolding proxy_polls_start check_proxy_relay_pattern
proxy_polls_start-Registers json ctx body poll h =
    elim (ok_or_err (decode_proxy_poll_request json body)) [
      | inl (e, run) ↦ ground arith
      | inr (req, run) ↦ elim (some_or_none req.accepted_relay_pattern) [
        | inl none_given ↦ ground arith
        | inr (pattern, given) ↦
            let allowed : is_superset_of (new_name_matcher (codes pattern))
                  (new_name_matcher (codes ctx.allowed_relay_pattern))
                ≡ true =
              ground arith in
            (
              req,
              pattern,
              run,
              decode_proxy_poll_request-IsProxyPoll json body req run,
              given,
              (superset_iff (new_name_matcher (codes pattern))
                    (new_name_matcher (codes ctx.allowed_relay_pattern))).0
                  allowed,
              ground arith,
              ground arith,
            )
      ]
    ]

-- An offer that ClientOffers has accepted gets the proxy to the relay that the client has named: if the bridge list is
-- still the same, the second half of ProxyPolls answers with the offer and the NAT type that were decoded from the
-- request, and with the address of the bridge that the bridge list has under the fingerprint whose hexadecimal digits
-- are in the request, whatever happened to the pools in between.
pub client_offers_start-relayed :
    (json : ClientJson) (proxy_json : ProxyJson) (describe : DecodeError → String)
    (hex_error fingerprint_error bridge_error : String) (ctx later : BrokerContext) (body : Bytes)
    (offer : ClientOffer) (poll : ProxyPoll)
    → later.bridge_list ≡ ctx.bridge_list
    → client_offers_start json describe hex_error fingerprint_error bridge_error ctx body ≡ ok offer
    → (req : ClientPollRequest) × (fingerprint : Bytes) × (info : BridgeInfo)
      × (decode_client_poll_request json body ≡ ok req)
      × (hex_decode (codes req.fingerprint) ≡ some fingerprint)
      × (get_bridge_info ctx.bridge_list fingerprint ≡ some info)
      × (proxy_polls_finish proxy_json later poll (some offer)
          ≡ respond proxy_json (record {
            status = "client match";
            offer = req.offer;
            nat = req.nat;
            next_poll = (get_pool later poll).poll_interval / 1_000_000;
            relay_url = info.web_socket_address;
          }))
unfolding client_offers_start proxy_polls_finish
client_offers_start-relayed json proxy_json describe hex_error fingerprint_error bridge_error ctx
      later body offer poll same h =
    elim (ok_or_err (decode_client_poll_request json body)) [
      | inl (e, run) ↦ ground arith
      | inr (req, run) ↦ elim (some_or_none (hex_decode (codes req.fingerprint))) [
        | inl none_given ↦ ground arith
        | inr (bytes, decoded) ↦ elim (some_or_none (fingerprint_from_bytes bytes)) [
          | inl bad ↦ ground arith
          | inr (f, good) ↦ elim (some_or_none (get_bridge_info ctx.bridge_list f)) [
            | inl unknown ↦ ground arith
            | inr (info, found) ↦
                let offered : record { nat_type = req.nat; sdp = req.offer; fingerprint = f }
                    ≡ offer =
                  ground arith in
                let whole = fingerprint_same bytes f good in
                let again : fingerprint_from_bytes f ≡ some f = rw (← whole) at good in
                (
                  req,
                  bytes,
                  info,
                  run,
                  decoded,
                  rw (← whole) found,
                  rw (← offered, proxy_polls_finish, again, same, found) refl,
                )
          ]
        ]
      ]
    ]
