-- ===== src/Broker/Http/Polls.antt =====
-- The response of ProxyPolls to the body of a poll.
use Prim.Native.String.{String}
use snowflake.Common.{
  ℕ, Bool, true, false, Option, none, some, ◌/◌, ◌≡◌, refl, inl, inr, Bool-cases, if◌then◌else◌,
}
use snowflake.Common.Bytes.{Bytes, codes}
use snowflake.Common.Result.{ok}
use snowflake.NameMatcher.{new_name_matcher, is_superset_of}
use snowflake.Messages.Client.{fingerprint_from_bytes}
use snowflake.Messages.Proxy.{
  ProxyJson, ProxyPollRequest, ProxyPollResponse, version, is_known_proxy_type, proxy_unknown,
  decode_proxy_poll_request,
}
use snowflake.Broker.BridgeList.{BridgeInfo, get_bridge_info}
use snowflake.Broker.Context.{BrokerContext, ProxyPoll, get_pool, check_proxy_relay_pattern}
use snowflake.Broker.Ipc.{
  ClientOffer, respond, max_poll_interval, proxy_polls_start, proxy_polls_finish,
}
use snowflake.Broker.Http.{ipc_proxy_polls}

-- What the broker answers to a poll: a refusal of its relay pattern, no match, or the offer of a client with the
-- address of its bridge.
abbrev pub refused : ProxyPollResponse
refused = record {
  status = "incorrect relay pattern";
  offer = "";
  nat = "";
  next_poll = max_poll_interval;
  relay_url = "";
}

abbrev pub idle : (interval : ℕ) → ProxyPollResponse
idle interval = record {
  status = "no match";
  offer = "";
  nat = "";
  next_poll = interval / 1_000_000;
  relay_url = "";
}

abbrev pub matched : (interval : ℕ) → ClientOffer → BridgeInfo → ProxyPollResponse
matched interval o info = record {
  status = "client match";
  offer = o.sdp;
  nat = o.nat_type;
  next_poll = interval / 1_000_000;
  relay_url = info.web_socket_address;
}

abbrev pub allows : BrokerContext → (pattern : String) → Bool
allows ctx pattern =
    is_superset_of (new_name_matcher (codes pattern))
      (new_name_matcher (codes ctx.allowed_relay_pattern))

abbrev pub reply_of :
    (allowed : Bool) (interval : ℕ) → Option (ClientOffer × BridgeInfo) → ProxyPollResponse
reply_of false interval offer = refused
reply_of true interval none = idle interval
reply_of true interval (some (o, info)) = matched interval o info

-- An offer with the bridge that the broker has for it.
abbrev pub IsOffer : BrokerContext → Option (ClientOffer × BridgeInfo) → Type 0
IsOffer ctx none = Unit
IsOffer ctx (some (o, info)) =
    (fingerprint_from_bytes o.fingerprint ≡ some o.fingerprint)
    × (get_bridge_info ctx.bridge_list o.fingerprint ≡ some info)
    × (¬ (o.sdp ≡ ""))
    × (¬ (o.nat_type ≡ ""))

abbrev pub offer_only : Option (ClientOffer × BridgeInfo) → Option ClientOffer
offer_only none = none
offer_only (some (o, info)) = some o

abbrev pub poll_of : ProxyPollRequest → ProxyPoll
poll_of req = record {
  id = req.sid;
  proxy_type = req.type;
  nat_type = req.nat;
  clients = req.clients;
}

abbrev pub registered : (nat sid proxy_type : String) → ℕ → String → ProxyPollRequest
registered nat sid proxy_type (clients) pattern = record {
  sid = sid;
  version = version;
  type = if is_known_proxy_type proxy_type then proxy_type else proxy_unknown;
  nat = nat;
  clients = clients;
  accepted_relay_pattern = some pattern;
}

module _ (json : ProxyJson) where
  finish_lem :
      (later : BrokerContext) (poll : ProxyPoll) (offer : Option (ClientOffer × BridgeInfo))
      → IsOffer later offer
      → proxy_polls_finish json later poll (offer_only offer)
        ≡ respond json (reply_of true (get_pool later poll).poll_interval offer)
  unfolding proxy_polls_finish
  finish_lem later poll none good = refl
  finish_lem later poll (some (o, info)) (known, found, sdp, nat) =
      rw (proxy_polls_finish, known, found) refl

  pub ipc_proxy_polls_lem :
      (ctx later : BrokerContext) (clients : ℕ) (nat sid proxy_type pattern : String)
      (offer : Option (ClientOffer × BridgeInfo)) (body : Bytes)
      → decode_proxy_poll_request json body ≡ ok (registered nat sid proxy_type clients pattern)
      → IsOffer later offer
      → ipc_proxy_polls json ctx later (offer_only offer) body
        ≡ respond json (
            reply_of
              (allows ctx pattern)
              (get_pool later
                (poll_of (registered nat sid proxy_type clients pattern))).poll_interval
              offer)
  unfolding ipc_proxy_polls proxy_polls_start proxy_polls_finish check_proxy_relay_pattern
  ipc_proxy_polls_lem ctx later clients nat sid proxy_type pattern offer body decoded good =
      elim (Bool-cases (allows ctx pattern)) [
        | inl e ↦
            rw (ipc_proxy_polls, proxy_polls_start, decoded, check_proxy_relay_pattern, e)
              (finish_lem later (poll_of (registered nat sid proxy_type clients pattern)) offer
                good)
        | inr e ↦
            rw (ipc_proxy_polls, proxy_polls_start, decoded, check_proxy_relay_pattern, e) refl
      ]
