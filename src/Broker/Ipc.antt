-- ===== src/Broker/Ipc.antt =====
-- broker/ipc.go: what ProxyPolls, ClientOffers and ProxyAnswers decide and answer, split where they block.
-- The part before the blocking point is a `start`, the part behind it a `finish`; Broker.Exchange has the steps
-- between them. Metrics and logs are left out. encoding/json and the texts of decode errors are parameters.
pub mod Relay
mod Tests
use Prim.Native.String.{String}
use snowflake.Common.{ℕ, ◌/◌, Bool, true, false, Option, none, some, List, [], ◌∷◌, not}
use snowflake.Common.Bytes.{Bytes, codes}
use snowflake.Common.Text.{str_eq}
use snowflake.Common.Hex.{hex_decode}
use snowflake.Common.Result.{Result, ok, err, ◌>>=◌, ◌>>◌, guard, from_option}
use snowflake.Messages.{DecodeError}
use snowflake.Messages.Proxy.{
  ProxyJson, ProxyPollResponse, decode_proxy_poll_request, decode_proxy_answer_request,
  encode_answer_response,
}
use snowflake.Messages.Client.{
  ClientJson, ClientPollResponse, decode_client_poll_request, encode_client_poll_response,
  fingerprint_from_bytes,
}
use snowflake.Broker.BridgeList.{get_bridge_info}
use snowflake.Broker.Context.{
  Ref, BrokerContext, ProxyPoll, get_pool, check_proxy_relay_pattern, lookup_answer,
}

pub data IpcError : Type 0 where
  bad_request internal bridge_not_found : IpcError

pub record ClientOffer : Type 0 where
  pub nat_type : String
  pub sdp : String
  pub fingerprint : Bytes

-- How the wait of a client ends.
pub data Outcome : Type 0 where
  no_proxies timed_out : Outcome
  answered : String → Outcome

-- A start that answers at once is an `err` of what the handler returns.
abbrev pub Reply : Type 0
Reply = Result IpcError Bytes

abbrev pub or_error : {A : Type 0} → Option A → Reply → Result Reply A
or_error (some a) reply = ok a
or_error none reply = err reply

abbrev pub or_else : {E A : Type 0} → Result E A → (E → Reply) → Result Reply A
or_else (ok a) reply = ok a
or_else (err e) reply = err (reply e)

abbrev pub str_timed_out : String
str_timed_out = "timed out waiting for answer!"

abbrev pub str_no_proxies : String
str_no_proxies = "no snowflake proxies currently available"

-- MaxPollInterval.Milliseconds()
abbrev pub max_poll_interval : ℕ
max_poll_interval = 3_600_000

module _ (json : ProxyJson) where
  -- `resp.Encode()`
  abbrev pub respond : ProxyPollResponse → Reply
  respond resp = from_option (json.poll_response.marshal resp) internal

  unfoldable pub proxy_polls_start : BrokerContext → Bytes → Result Reply ProxyPoll
  proxy_polls_start ctx body = do
    req ← or_else (decode_proxy_poll_request json body) (λ e. err bad_request)
    guard (check_proxy_relay_pattern ctx req.accepted_relay_pattern) (
        respond (record {
          status = "incorrect relay pattern";
          offer = "";
          nat = "";
          next_poll = max_poll_interval;
          relay_url = "";
        }))
    ok (record { id = req.sid; proxy_type = req.type; nat_type = req.nat; clients = req.clients })

  -- `none` is the nil offer.
  unfoldable pub proxy_polls_finish : BrokerContext → ProxyPoll → Option ClientOffer → Reply
  proxy_polls_finish ctx poll none = respond (record {
    status = "no match";
    offer = "";
    nat = "";
    next_poll = (get_pool ctx poll).poll_interval / 1_000_000;
    relay_url = "";
  })
  proxy_polls_finish ctx poll (some offer) = do
    fingerprint ← from_option (fingerprint_from_bytes offer.fingerprint) bad_request
    info ← from_option (get_bridge_info ctx.bridge_list fingerprint) bridge_not_found
    respond (record {
      status = "client match";
      offer = offer.sdp;
      nat = offer.nat_type;
      next_poll = (get_pool ctx poll).poll_interval / 1_000_000;
      relay_url = info.web_socket_address;
    })

  -- The reply, and the send that follows it.
  unfoldable pub proxy_answers_start :
      BrokerContext → Bytes → Result Reply (Bytes × Option (Ref × String))
  proxy_answers_start ctx body = do
    req ← or_else (decode_proxy_answer_request json body) (λ e. err bad_request)
    guard (not (str_eq req.answer "")) (err bad_request)
    elim (lookup_answer ctx req.sid) [
      | none ↦ or_error (encode_answer_response json false) (err internal) >>= λ b. ok (b, none)
      | some r ↦ or_error (encode_answer_response json true) (err internal) >>= λ b.
          ok (b, some (r, req.answer))
    ]

module _ (json : ClientJson) where
  unfoldable pub send_client_response : ClientPollResponse → Reply
  send_client_response resp = from_option (encode_client_poll_response json resp) internal

  abbrev pub client_error : String → Reply
  client_error e = send_client_response (record { answer = ""; error = e })

  -- `describe` is err.Error() of a decode error; the other texts are those of the other errors.
  unfoldable pub client_offers_start :
      (describe : DecodeError → String) (hex_error fingerprint_error bridge_error : String)
      → BrokerContext
      → Bytes
      → Result Reply ClientOffer
  client_offers_start describe hex_error fingerprint_error bridge_error ctx body = do
    req ← or_else (decode_client_poll_request json body) (λ e. client_error (describe e))
    bytes ← or_error (hex_decode (codes req.fingerprint)) (client_error hex_error)
    fingerprint ← or_error (fingerprint_from_bytes bytes) (client_error fingerprint_error)
    info ← or_error (get_bridge_info ctx.bridge_list fingerprint) (client_error bridge_error)
    ok (record { nat_type = req.nat; sdp = req.offer; fingerprint = fingerprint })

  unfoldable pub client_offers_finish : Outcome → Reply
  client_offers_finish no_proxies = client_error str_no_proxies
  client_offers_finish timed_out = client_error str_timed_out
  client_offers_finish (answered a) = send_client_response (record { answer = a; error = "" })
