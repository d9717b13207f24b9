-- ===== src/ProxyLib/Signaling.antt =====
-- SignalingServer of proxy/lib/snowflake.go: how a proxy polls the broker and sends an answer.
-- net/url and net/http are parameters: `resolve` is ResolveReference with String, and `round_trip` is NewRequest with
-- the transport, `none` for an error of them. The text of a session description is a parameter too.
pub mod Polled
pub mod Answered
mod Tests
use Prim.Native.String.{String}
use snowflake.Common.{ℕ, ◌*◌, ◌/◌, Option, none, some, ◌==◌}
use snowflake.Common.Bytes.{Bytes}
use snowflake.Common.Stream.{HttpResponse, ReadError, limited_read}
use snowflake.Common.Result.{Result, ok, err, ◌>>=◌, ◌>>◌, guard, from_option}
use snowflake.Messages.{DecodeError}
use snowflake.Messages.Sdp.{SessionDescription}
use snowflake.Messages.Proxy.{
  ProxyJson, ProxyPollResponse, encode_poll_request, encode_answer, decode_proxy_poll_response,
  decode_answer_response,
}

pub data SignalingError : Type 0 where
  not_encoded not_sent read_failed client_timeout : SignalingError
  status_code : ℕ → SignalingError
  bad_response : DecodeError → SignalingError

abbrev pub read_limit : ℕ
read_limit = 100_000

-- What is read beside an error is dropped by the callers.
abbrev pub read_whole : Bytes × Option ReadError → Result SignalingError Bytes
read_whole (p, none) = ok p
read_whole (p, some e) = err read_failed

abbrev pub or_bad : {A : Type 0} → Result DecodeError A → Result SignalingError A
or_bad (ok a) = ok a
or_bad (err e) = err (bad_response e)

-- A message beside an error is dropped.
abbrev pub without_error :
    ProxyPollResponse × Option DecodeError → Result SignalingError ProxyPollResponse
without_error (message, none) = ok message
without_error (message, some e) = err (bad_response e)

-- Rounded down to 8.
abbrev pub num_clients : (tokens : ℕ) → ℕ
num_clients tokens = (tokens / 8) * 8

module _ {Url : Type 0} (resolve : Url → (reference : String) → String)
    (round_trip : (path : String) → Bytes → Option HttpResponse) where
  unfoldable pub post : (path : String) → Bytes → Result SignalingError Bytes
  unfolding limited_read
  post path payload = do
    resp ← from_option (round_trip path payload) not_sent
    guard (resp.status_code == 200) (status_code resp.status_code)
    read_whole (limited_read resp.body read_limit)

  -- `tokens` and `nat_type` are the variables of the package.
  unfoldable pub poll_offer :
      ProxyJson
      → Url
      → (tokens : ℕ) (nat_type sid proxy_type accepted_relay_pattern : String)
      → Result SignalingError ProxyPollResponse
  unfolding post
  poll_offer json url tokens nat_type sid proxy_type accepted_relay_pattern = do
    body ←
        from_option
          (encode_poll_request json (record {
            sid = sid;
            version = "";
            type = proxy_type;
            nat = nat_type;
            clients = num_clients tokens;
            accepted_relay_pattern = some accepted_relay_pattern;
          }))
          not_encoded
    resp ← post (resolve url "proxy") body
    poll_response ← or_bad (decode_proxy_poll_response json resp)
    without_error poll_response

  unfoldable pub send_answer :
      ProxyJson
      → (serialize : SessionDescription → Option String) → Url
      → (sid : String) → SessionDescription
      → Result SignalingError (Unit {0})
  unfolding post
  send_answer json serialize url sid ld = do
    answer ← from_option (serialize ld) not_encoded
    body ←
        from_option (encode_answer json (record { version = ""; sid = sid; answer = answer }))
          not_encoded
    resp ← post (resolve url "answer") body
    success ← or_bad (decode_answer_response json resp)
    guard success client_timeout
