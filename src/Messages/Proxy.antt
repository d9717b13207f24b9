-- ===== src/Messages/Proxy.antt =====
-- common/messages/proxy.go: the polls and answers of proxies.
use Prim.Native.String.{String}
use snowflake.Common.{
  ℕ, Bool, true, false, not, Option, none, some, List, [], ◌∷◌, ◌||◌, ◌&&◌, if◌then◌else◌, ◌==◌,
  ltb, ◌^◌,
}
use snowflake.Common.Bytes.{Bytes, codes, eqb}
use snowflake.Common.Text.{str_eq}
use snowflake.Common.Result.{Result, ok, err, ◌>>=◌, ◌>>◌, guard, from_option}
use snowflake.Messages.{
  ℤ, pos, negsuc, Codec, Value, DecodeError, bad_json, unknown_version, no_session_id, invalid_nat,
  invalid_data, no_offer, extra_info, no_sid_or_answer, malformed_sdp, status, normal_nat,
}
use snowflake.Messages.Sdp.{deserialize_session_description}

abbrev pub version : String
version = "1.3"

abbrev pub proxy_unknown : String
proxy_unknown = "unknown"

-- KnownProxyTypes[t]
unfoldable pub is_known_proxy_type : String → Bool
is_known_proxy_type t =
    str_eq t "standalone"
    || (str_eq t "webext" || (str_eq t "badge" || (str_eq t "iptproxy" || str_eq t "bloco")))

pub record ProxyPollRequest : Type 0 where
  pub sid : String
  pub version : String
  pub type : String
  pub nat : String
  pub clients : ℕ
  pub accepted_relay_pattern : Option String

pub record AuxProxyPollRequest : Type 0 where
  pub sid : String
  pub version : String
  pub type : String
  pub nat : String
  pub clients : ℤ
  pub accepted_relay_pattern : Option String

pub record ProxyPollResponse : Type 0 where
  pub status : String
  pub offer : String
  pub nat : String
  pub next_poll : ℕ
  pub relay_url : String

pub record ProxyAnswerRequest : Type 0 where
  pub version : String
  pub sid : String
  pub answer : String

pub record ProxyAnswerResponse : Type 0 where
  pub status : String

pub record ProxyJson : Type 0 where
  pub poll_request : Codec ProxyPollRequest AuxProxyPollRequest
  pub poll_response : Codec ProxyPollResponse ProxyPollResponse
  pub answer_request : Codec ProxyAnswerRequest ProxyAnswerRequest
  pub answer_response : Codec ProxyAnswerResponse ProxyAnswerResponse
  pub object : String → Option (List (String × Value))

-- strings.Split(s, ".")[0]
unfoldable pub before_dot : Bytes → Bytes
before_dot [] = []
before_dot (c ∷ s) = if c == b'.' then [] else c ∷ before_dot s

unfoldable pub is_major_one : String → Bool
unfolding before_dot
is_major_one v = eqb (before_dot (codes v)) (codes "1")

-- What encoding/json reads of a request that it has written: Clients is an int64 there.
abbrev pub as_read : ProxyPollRequest → Option AuxProxyPollRequest
as_read req =
    if ltb req.clients (2 ^ 63)
    then some (record {
      sid = req.sid;
      version = req.version;
      type = req.type;
      nat = req.nat;
      clients = pos req.clients;
      accepted_relay_pattern = req.accepted_relay_pattern;
    })
    else none

-- uint64(max(n, 0))
abbrev pub to_clients : ℤ → ℕ
to_clients (pos n) = n
to_clients (negsuc n) = 0

module _ (json : ProxyJson) where
  unfoldable pub encode_proxy_poll_request_with_relay_prefix :
      (sid proxy_type nat_type : String) → ℕ → (relay_pattern : String) → Option Bytes
  encode_proxy_poll_request_with_relay_prefix sid proxy_type nat_type clients relay_pattern =
      json.poll_request.marshal (record {
        sid = sid;
        version = version;
        type = proxy_type;
        nat = nat_type;
        clients = clients;
        accepted_relay_pattern = some relay_pattern;
      })

  unfoldable pub encode_proxy_poll_request : (sid proxy_type nat_type : String) → ℕ → Option Bytes
  unfolding encode_proxy_poll_request_with_relay_prefix
  encode_proxy_poll_request sid proxy_type nat_type clients =
      encode_proxy_poll_request_with_relay_prefix sid proxy_type nat_type clients ""

  -- Encode of a ProxyPollRequest
  unfoldable pub encode_poll_request : ProxyPollRequest → Option Bytes
  encode_poll_request req = json.poll_request.marshal (record req { version = version })

  unfoldable pub decode_proxy_poll_request : Bytes → Result DecodeError ProxyPollRequest
  decode_proxy_poll_request data' = do
    aux ← from_option (json.poll_request.unmarshal data') bad_json
    guard (is_major_one aux.version) unknown_version
    guard (not (str_eq aux.sid "")) no_session_id
    nat ← from_option (normal_nat aux.nat) invalid_nat
    ok (record {
      sid = aux.sid;
      version = aux.version;
      type = if is_known_proxy_type aux.type then aux.type else proxy_unknown;
      nat = nat;
      clients = to_clients aux.clients;
      accepted_relay_pattern = aux.accepted_relay_pattern;
    })

  -- The sid, type, NAT type, clients, relay prefix, and whether there was one.
  unfoldable pub decode_proxy_poll_request_with_relay_prefix :
      Bytes → Result DecodeError (String × String × String × ℕ × String × Bool)
  decode_proxy_poll_request_with_relay_prefix data' = do
    message ← decode_proxy_poll_request data'
    ok (elim message.accepted_relay_pattern [
      | none ↦ (message.sid, message.type, message.nat, message.clients, "", false)
      | some p ↦ (message.sid, message.type, message.nat, message.clients, p, true)
    ])

  unfoldable pub encode_poll_response_with_relay_url :
      String → Bool → (nat_type relay_url fail_reason : String) → Option Bytes
  encode_poll_response_with_relay_url offer true nat_type relay_url fail_reason =
      json.poll_response.marshal (record {
        status = "client match";
        offer = offer;
        nat = nat_type;
        next_poll = 0;
        relay_url = relay_url;
      })
  encode_poll_response_with_relay_url offer false nat_type relay_url fail_reason =
      json.poll_response.marshal
        (record { status = fail_reason; offer = ""; nat = ""; next_poll = 0; relay_url = "" })

  unfoldable pub encode_poll_response : String → Bool → String → Option Bytes
  unfolding encode_poll_response_with_relay_url
  encode_poll_response offer success nat_type =
      encode_poll_response_with_relay_url offer success nat_type "" "no match"

  -- The message is returned beside the error of an unknown status.
  unfoldable pub decode_proxy_poll_response :
      Bytes → Result DecodeError (ProxyPollResponse × Option DecodeError)
  decode_proxy_poll_response data' = do
    message ← from_option (json.poll_response.unmarshal data') bad_json
    guard (not (str_eq message.status "")) invalid_data
    let matched = str_eq message.status "client match"
    guard (not (matched && str_eq message.offer "")) no_offer
    ok (
      record message {
        offer = if matched then message.offer else "";
        nat = if str_eq message.nat "" then "unknown" else message.nat;
      },
      if matched || str_eq message.status "no match" then none else some (status message.status),
    )

  -- The offer, the NAT type and the relay URL.
  unfoldable pub decode_poll_response_with_relay_url :
      Bytes → Result DecodeError (String × String × String)
  decode_poll_response_with_relay_url data' = do
    (message, e) ← decode_proxy_poll_response data'
    elim e [ none ↦ ok (message.offer, message.nat, message.relay_url) | some x ↦ err x ]

  unfoldable pub decode_poll_response : Bytes → Result DecodeError (String × String)
  decode_poll_response data' = do
    (offer, nat, relay_url) ← decode_poll_response_with_relay_url data'
    guard (str_eq relay_url "") extra_info
    ok (offer, nat)

  unfoldable pub encode_answer_request : (answer sid : String) → Option Bytes
  encode_answer_request answer sid =
      json.answer_request.marshal (record { version = version; sid = sid; answer = answer })

  -- Encode of a ProxyAnswerRequest
  unfoldable pub encode_answer : ProxyAnswerRequest → Option Bytes
  encode_answer req = json.answer_request.marshal (record req { version = version })

  unfoldable pub decode_proxy_answer_request : Bytes → Result DecodeError ProxyAnswerRequest
  decode_proxy_answer_request data' = do
    message ← from_option (json.answer_request.unmarshal data') bad_json
    guard (is_major_one message.version) unknown_version
    guard (not (str_eq message.sid "" || str_eq message.answer "")) no_sid_or_answer
    d ← from_option (deserialize_session_description json.object message.answer) malformed_sdp
    ok message

  -- The answer and the sid.
  unfoldable pub decode_answer_request : Bytes → Result DecodeError (String × String)
  decode_answer_request data' = do
    message ← decode_proxy_answer_request data'
    ok (message.answer, message.sid)

  unfoldable pub encode_answer_response : Bool → Option Bytes
  encode_answer_response true = json.answer_response.marshal (record { status = "success" })
  encode_answer_response false = json.answer_response.marshal (record { status = "client gone" })

  unfoldable pub decode_proxy_answer_response : Bytes → Result DecodeError ProxyAnswerResponse
  decode_proxy_answer_response data' = from_option (json.answer_response.unmarshal data') bad_json

  unfoldable pub decode_answer_response : Bytes → Result DecodeError Bool
  unfolding decode_proxy_answer_response
  decode_answer_response data' = do
    message ← decode_proxy_answer_response data'
    guard (not (str_eq message.status "")) invalid_data
    ok (str_eq message.status "success")
