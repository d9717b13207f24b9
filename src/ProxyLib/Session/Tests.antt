-- ===== src/ProxyLib/Session/Tests.antt =====
-- A proxy that has taken on a client.
use Prim.Native.String.{String}
use snowflake.Common.{false, Option, none, some, List, [], ◌∷◌, ◌%◌, ◌+◌, ◌≤◌, ◌≡◌, refl}
use snowflake.Common.Bytes.{Bytes, eqb}
use snowflake.Common.GoMap
use snowflake.Common.Members.{All}
use snowflake.Messages.{Value, text}
use snowflake.Messages.Proxy.{ProxyPollResponse}
use snowflake.Messages.Sdp
use snowflake.Messages.Sdp.{SessionDescription, deserialize_session_description}
use snowflake.NameMatcher.{new_name_matcher, is_member}
use snowflake.ProxyLib.RelayUrl.{Url, check_is_relay_url_acceptable}
use snowflake.ProxyLib.Session.{
  spawned, running, Session, same, add, new_session, spawn, Proxy, started, begin, move, Steps,
  stay, go,
}
use snowflake.ProxyLib.Session.Decisions.{SnowflakeProxy, accept_offer}
use snowflake.ProxyLib.Session.Tokens.{polls, losses, served, Steps-tokens}
use snowflake.ProxyLib.Session.Relays.{IsAcceptable, Steps-IsAcceptable}
use snowflake.ProxyLib.Session.Unlimited.{Steps-served}

abbrev sf : SnowflakeProxy
sf = record {
  poll_interval = 5_000_000_000;
  min_poll_interval = 1_000_000_000;
  relay_url = "wss://snowflake.torproject.net/";
  relay_domain_name_pattern = "snowflake.torproject.net$";
  allow_proxying_to_private_addresses = false;
  allow_non_tls_relay = false;
}

abbrev object : String → Option (List (String × Value))
object s = some (("type", text "offer") ∷ ("sdp", text "v=0") ∷ [])

abbrev parse_url : String → Option Url
parse_url s = some (record { scheme = "wss"; hostname = "01.snowflake.torproject.net" })

abbrev parse_ip : String → Option Bytes
parse_ip s = none

abbrev accept : ProxyPollResponse → Option SessionDescription
accept = accept_offer object parse_url parse_ip sf

abbrev resp : ProxyPollResponse
resp = record {
  status = "client match";
  offer = "{}";
  nat = "unknown";
  next_poll = 20_000;
  relay_url = "wss://01.snowflake.torproject.net/";
}

abbrev description : SessionDescription
description = record { type = Sdp.offer; sdp = "v=0" }

accepted : accept resp ≡ some description
unfolding accept_offer deserialize_session_description GoMap.lookup check_is_relay_url_acceptable
    new_name_matcher is_member eqb
accepted = refl

abbrev client : Session
client = record new_session { main = spawned; worker = running; relay = resp.relay_url }

abbrev taken : Proxy accept
taken = record { tokens = 1; sessions = client ∷ []; crashed = false }

taken_steps : Steps accept (started accept) taken
unfolding add
taken_steps =
    let p : Proxy accept = record { tokens = 1; sessions = new_session ∷ []; crashed = false } in
    go p taken (go (started accept) p stay (begin refl tt))
      (move [] [] new_session client same refl refl (spawn resp description refl accepted))

Steps-tokens_example :
    (taken.tokens
      ≡ (polls taken.sessions + losses taken.sessions + served taken.sessions)
        % 18446744073709551616)
    × (polls taken.sessions ≤ 1)
Steps-tokens_example = Steps-tokens accept taken taken_steps

Steps-IsAcceptable_example : All (IsAcceptable object parse_url parse_ip sf) taken.sessions
Steps-IsAcceptable_example = Steps-IsAcceptable object parse_url parse_ip sf taken taken_steps

Steps-served_example :
    (p : Proxy accept) × Steps accept (started accept) p
    × (served p.sessions ≡ 1000)
    × (p.tokens ≡ 1000)
Steps-served_example = Steps-served accept resp description accepted 1000
