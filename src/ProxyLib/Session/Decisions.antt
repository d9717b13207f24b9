-- ===== src/ProxyLib/Session/Decisions.antt =====
-- What runSession of proxy/lib/snowflake.go makes of a poll response, and datachannelHandler of its relay URL.
-- A duration is a number of nanoseconds, an int64 that is kept as a natural number below 2^64.
use Prim.Native.String.{String}
use snowflake.Common.{
  ℕ, ◌*◌, ◌%◌, max, Bool, Option, none, some, List, if◌then◌else◌, ◌==◌, ◌||◌, leb,
}
use snowflake.Common.Bytes.{Bytes}
use snowflake.Common.Text.{str_eq}
use snowflake.Common.Result.{Result, ok, err}
use snowflake.Messages.{Value}
use snowflake.Messages.Proxy.{ProxyPollResponse}
use snowflake.Messages.Sdp.{SessionDescription, deserialize_session_description}
use snowflake.ProxyLib.RelayUrl.{Url, RelayError, check_is_relay_url_acceptable}

pub record SnowflakeProxy : Type 0 where
  pub poll_interval : ℕ
  pub min_poll_interval : ℕ
  pub relay_url : String
  pub relay_domain_name_pattern : String
  pub allow_proxying_to_private_addresses : Bool
  pub allow_non_tls_relay : Bool

-- time.Duration(NextPoll) * time.Millisecond
abbrev pub milliseconds : ℕ → ℕ
milliseconds n = (n * 1_000_000) % 18446744073709551616

-- What the ticker is reset to; a duration from 2^63 on is negative.
unfoldable pub next_interval : SnowflakeProxy → ProxyPollResponse → ℕ
next_interval sf resp = max sf.min_poll_interval (
    if milliseconds resp.next_poll == 0 || leb 9223372036854775808 (milliseconds resp.next_poll)
    then sf.poll_interval
    else milliseconds resp.next_poll)

-- datachannelHandler: the relay that it connects to.
unfoldable pub relay_of : SnowflakeProxy → String → String
relay_of sf relay_url = if str_eq relay_url "" then sf.relay_url else relay_url

module _ (object : String → Option (List (String × Value))) (parse_url : String → Option Url)
    (parse_ip : String → Option Bytes) (sf : SnowflakeProxy) where
  abbrev pub acceptable : String → Result RelayError (Unit {0})
  acceptable relay_url =
      check_is_relay_url_acceptable parse_url parse_ip sf.relay_domain_name_pattern
        sf.allow_proxying_to_private_addresses sf.allow_non_tls_relay relay_url

  -- The goroutine of runSession, up to the peer connection.
  unfoldable pub accept_offer : ProxyPollResponse → Option SessionDescription
  accept_offer resp =
      if str_eq resp.offer ""
      then none
      else elim (deserialize_session_description object resp.offer) [
        | none ↦ none
        | some offer ↦
            if str_eq resp.relay_url ""
            then some offer
            else elim (acceptable resp.relay_url) [ err e ↦ none | ok u ↦ some offer ]
      ]
