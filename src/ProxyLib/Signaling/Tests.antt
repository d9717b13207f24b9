-- ===== src/ProxyLib/Signaling/Tests.antt =====
-- A proxy that gets the offer of a client, and answers it.
use Prim.Native.String.{String}
use snowflake.Common.{
  none, some, [], ◌∷◌, ◌≡◌, refl, arith, inl, inr, if◌then◌else◌, Bool-cases, true, false,
}
use snowflake.Common.Bytes.{Bytes, codes, eqb, eqb_refl, has_prefix}
use snowflake.Common.GoMap
use snowflake.Common.Result.{ok}
use snowflake.Common.Text.{str_eq_iff}
use snowflake.Messages.{IsInverse}
use snowflake.Messages.Sdp
use snowflake.Messages.Sdp.{SessionDescription, deserialize_session_description}
use snowflake.Messages.Tests.{
  single-IsInverse, proxy_json, poll, is_poll, is_poll_sound, match, is_match, is_match_sound,
  answer, is_answer, is_answer_sound, is_success, is_success_sound,
}
use snowflake.Messages.Proxy
use snowflake.Messages.Proxy.{ProxyJson, ProxyPollResponse}
use snowflake.Messages.Client
use snowflake.NameMatcher.{is_superset_of, new_name_matcher}
use snowflake.Broker.SnowflakeHeap
use snowflake.Broker.BridgeList.{BridgeInfo, get_bridge_info}
use snowflake.Broker.Context.{BrokerContext, new_broker_context, lookup_answer}
use snowflake.Broker.Ipc.{ClientOffer, proxy_answers_start}
use snowflake.Broker.Http
use snowflake.Broker.Http.{ipc_proxy_polls, ipc_proxy_answers, validate_sdp}
use snowflake.ProxyLib.Signaling.{poll_offer, send_answer}
use snowflake.ProxyLib.Signaling.Polled.{to_broker, poll_offer-proxy_polls}
use snowflake.ProxyLib.Signaling.Answered.{to_slow_broker, send_answer-proxy_answers}

abbrev key : Bytes
key =
    0x2B ∷ 0x28 ∷ 0x0B ∷ 0x23 ∷ 0xE1 ∷ 0x10 ∷ 0x7B ∷ 0xB6 ∷ 0x2A ∷ 0xBF ∷ 0xC4 ∷ 0x0D ∷ 0xDC ∷ 0xC8
    ∷ 0x82 ∷ 0x48 ∷ 0x14 ∷ 0xF8 ∷ 0x0A ∷ 0x72 ∷ []

abbrev bridge : BridgeInfo
bridge = record {
  display_name = "default";
  web_socket_address = "wss://snowflake.torproject.net/";
  fingerprint = Client.default_bridge_fingerprint;
}

abbrev context : BrokerContext
context =
    new_broker_context (record { bridge_info = (key, bridge) ∷ [] }) "snowflake.torproject.net$"

-- The answer is to be found in the map, and the pool is polled without a pause.
abbrev later : BrokerContext
later = record context {
  unrestricted_pool = SnowflakeHeap.set_poll_interval context.unrestricted_pool 0;
}

abbrev offer : ClientOffer
offer = record { nat_type = "restricted"; sdp = "{}"; fingerprint = key }

abbrev path : String → String → String
path url reference = reference

not_empty : ¬ (poll.sid ≡ "")
not_empty e = ground (arith, (str_eq_iff poll.sid "").1 e)

poll_offer-proxy_polls_example :
    poll_offer path
      (to_broker (Http.proxy_polls (ipc_proxy_polls proxy_json context later (some offer))))
      proxy_json
      "snowflake-broker.torproject.net"
      11
      "unrestricted"
      "ymbcCMto7KHNGYlp"
      "standalone"
      "snowflake.torproject.net$"
    ≡ ok match
unfolding Proxy.encode_poll_request new_broker_context SnowflakeHeap.new_snowflake_pool
    SnowflakeHeap.set_poll_interval get_bridge_info Client.fingerprint_from_bytes is_superset_of
    new_name_matcher Proxy.is_known_proxy_type GoMap.lookup eqb
poll_offer-proxy_polls_example =
    poll_offer-proxy_polls proxy_json path "snowflake-broker.torproject.net" context later 11
      "unrestricted" "ymbcCMto7KHNGYlp" "standalone" "snowflake.torproject.net$"
      (some (offer, bridge)) (1 ∷ []) (1 ∷ [])
      (single-IsInverse is_poll Proxy.as_read poll is_poll_sound)
      (single-IsInverse is_match some match is_match_sound) not_empty (inr (inr refl)) (omega arith)
      (
        refl,
        refl,
        (λ e. ground (arith, (str_eq_iff "{}" "").1 e)),
        λ e. ground (arith, (str_eq_iff "restricted" "").1 e),
      )
      refl (omega arith) refl (omega arith)

-- What is written for an answer has the text that the broker looks for.
abbrev candidate : Bytes
candidate = codes "a=candidate"

abbrev json : ProxyJson
json = record proxy_json {
  answer_request = record {
    marshal = λ r. if is_answer r then some candidate else none;
    unmarshal = λ b. if eqb b candidate then some answer else none;
  };
}

json-IsInverse : IsInverse json.answer_request some
json-IsInverse r b h = elim (Bool-cases (is_answer r)) [
  | inl e ↦ rw (is_answer_sound r e) (ground (arith, eqb_refl candidate))
  | inr e ↦ ground arith
]

abbrev waiting : BrokerContext
waiting = record context {
  id_to_snowflake = (answer.sid, record { restricted = false; ptr = 0 }) ∷ [];
}

abbrev description : SessionDescription
description = record { type = Sdp.answer; sdp = "v=0" }

send_answer-proxy_answers_example :
    (send_answer path
        (to_slow_broker (Http.proxy_answers (ipc_proxy_answers json waiting true)))
        json
        (λ d. some "an answer")
        "snowflake-broker.torproject.net"
        "ymbcCMto7KHNGYlp"
        description
      ≡ ok tt)
    × (proxy_answers_start json waiting candidate
        ≡ ok (1 ∷ [], some (record { restricted = false; ptr = 0 }, "an answer")))
unfolding Proxy.encode_answer Proxy.encode_answer_response lookup_answer GoMap.lookup validate_sdp
    deserialize_session_description Http.contains has_prefix eqb
send_answer-proxy_answers_example =
    send_answer-proxy_answers json path "snowflake-broker.torproject.net" (λ d. some "an answer")
      waiting true "ymbcCMto7KHNGYlp" "an answer" description
      (record { type = Sdp.offer; sdp = "v=0" }) candidate (1 ∷ []) json-IsInverse
      (single-IsInverse is_success some (record { status = "success" }) is_success_sound) not_empty
      (λ e. ground (arith, (str_eq_iff "an answer" "").1 e)) refl refl refl (omega arith) refl
      (omega arith)
