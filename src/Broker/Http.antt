-- ===== src/Broker/Http.antt =====
-- broker/http.go: the handlers of the HTTP endpoints, around the methods of broker/ipc.go.
-- A request body is the bytes that were sent and whether reading them failed; `text_of` is Go's string(body). A
-- response is the status and the body, and `none` is a panic or no response at all. Headers of responses and failed
-- writes are left out.
pub mod Legacy
pub mod Offers
pub mod Polls
mod Tests
use Prim.Native.String.{String}
use snowflake.Common.{
  ℕ, Bool, true, false, Option, none, some, List, [], ◌∷◌, ltb, length, ◌==◌, ◌||◌, ◌&&◌,
  if◌then◌else◌,
}
use snowflake.Common.Bytes.{Bytes, codes, has_prefix}
use snowflake.Common.Text.{str_eq, utf8}
use snowflake.Common.Result.{Result, ok, err}
use snowflake.Messages.{DecodeError}
use snowflake.Messages.Client.{
  ClientJson, ClientPollResponse, encode_client_poll_request, decode_client_poll_response,
}
use snowflake.Messages.Proxy.{ProxyJson}
use snowflake.Broker.Context.{BrokerContext}
use snowflake.Broker.Ipc.{
  IpcError, bad_request, internal, bridge_not_found, Outcome, Reply, str_timed_out, str_no_proxies,
  client_offers_start, client_offers_finish, ClientOffer, proxy_polls_start, proxy_polls_finish,
  proxy_answers_start,
}

pub record Request : Type 0 where
  pub body : Bytes
  pub read_fails : Bool
  -- r.Header.Get("Snowflake-NAT-Type")
  pub nat_type : String

pub record Response : Type 0 where
  pub status : ℕ
  pub body : Bytes

abbrev pub read_limit : ℕ
read_limit = 100_000

-- io.ReadAll of http.MaxBytesReader
unfoldable pub read_body : Request → Option Bytes
read_body r = if r.read_fails || ltb read_limit (length r.body) then none else some r.body

abbrev pub only_status : ℕ → Response
only_status n = record { status = n; body = [] }

abbrev pub ok_response : Bytes → Response
ok_response b = record { status = 200; body = b }

unfoldable pub write_reply : Reply → Response
write_reply (ok response) = ok_response response
write_reply (err bad_request) = only_status 400
write_reply (err internal) = only_status 500
write_reply (err bridge_not_found) = only_status 500

-- proxyPolls, with IPC.ProxyPolls as `ipc`.
unfoldable pub proxy_polls : (Bytes → Reply) → Request → Response
unfolding read_body write_reply
proxy_polls ipc r = elim (read_body r) [
  | none ↦ only_status 400
  | some body ↦ write_reply (ipc body)
]

-- bytes.Contains
unfoldable pub contains : Bytes → Bytes → Bool
contains [] part = has_prefix [] part
contains (c ∷ s) part = has_prefix (c ∷ s) part || contains s part

unfoldable pub validate_sdp : Bytes → Bool
validate_sdp sdp = contains sdp (codes "a=candidate")

-- Nothing is written before the call returns.
abbrev pub write_returned : Option Reply → Option Response
write_returned none = none
write_returned (some reply) = some (write_reply reply)

-- proxyAnswers, with IPC.ProxyAnswers as `ipc`; none is a call that does not return.
unfoldable pub proxy_answers : (Bytes → Option Reply) → Request → Option Response
unfolding read_body write_reply validate_sdp
proxy_answers ipc r = elim (read_body r) [
  | none ↦ some (only_status 400)
  | some body ↦ if validate_sdp body then write_returned (ipc body) else some (only_status 400)
]

unfoldable pub is_legacy : Bytes → Bool
is_legacy [] = false
is_legacy (c ∷ body) = c == b'{'

-- The switch on the error of the response to a legacy client.
unfoldable pub legacy_response : ClientPollResponse → Option Response
legacy_response resp =
    if str_eq resp.error ""
    then some (ok_response (utf8 resp.answer))
    else (if str_eq resp.error str_no_proxies
        then some (only_status 503)
        else (if str_eq resp.error str_timed_out then some (only_status 504) else none))

module _ (json : ClientJson) where
  unfoldable pub reply_legacy : Reply → Option Response
  unfolding legacy_response
  reply_legacy (err e) = some (only_status 500)
  reply_legacy (ok response) = elim (decode_client_poll_response json response) [
    | err e ↦ some (only_status 500)
    | ok resp ↦ legacy_response resp
  ]

  unfoldable pub reply_plain : Reply → Option Response
  reply_plain (err e) = some (only_status 500)
  reply_plain (ok response) = some (ok_response response)

  -- clientOffers, with IPC.ClientOffers as `ipc`.
  unfoldable pub client_offers :
      (text_of : Bytes → String) → (Bytes → Reply) → Request → Option Response
  unfolding read_body is_legacy reply_legacy reply_plain
  client_offers text_of ipc r = elim (read_body r) [
    | none ↦ some (only_status 400)
    | some body ↦ elim (is_legacy body) [
      | false ↦ reply_plain (ipc body)
      | true ↦
          elim (encode_client_poll_request json
            (record { offer = text_of body; nat = r.nat_type; fingerprint = "" })) [
              | none ↦ some (only_status 500)
              | some shimmed ↦ reply_legacy (ipc shimmed)
            ]
    ]
  ]

-- ClientOffers of broker/ipc.go as a whole: how the wait of an accepted offer ends is the argument `outcome`.
unfoldable pub ipc_client_offers :
    ClientJson
    → (describe : DecodeError → String) (hex_error fingerprint_error bridge_error : String)
    → BrokerContext
    → Outcome
    → Bytes
    → Reply
unfolding client_offers_start client_offers_finish
ipc_client_offers json describe hex_error fingerprint_error bridge_error ctx outcome body =
    elim (client_offers_start json describe hex_error fingerprint_error bridge_error ctx body) [
      | err reply ↦ reply
      | ok offer ↦ client_offers_finish json outcome
    ]

-- ProxyPolls of broker/ipc.go as a whole: the offer that the poll gets is the argument `offer`, and `later` is the
-- context behind the wait for it.
unfoldable pub ipc_proxy_polls :
    ProxyJson → (ctx later : BrokerContext) → Option ClientOffer → Bytes → Reply
unfolding proxy_polls_start proxy_polls_finish
ipc_proxy_polls json ctx later offer body = elim (proxy_polls_start json ctx body) [
  | err reply ↦ reply
  | ok poll ↦ proxy_polls_finish json later poll offer
]

-- ProxyAnswers of broker/ipc.go as a whole: whether the answer that it sends is ever received is the argument
-- `received`. The send stands before the return, so that a call whose answer nobody receives does not return: none.
unfoldable pub ipc_proxy_answers :
    ProxyJson → BrokerContext → (received : Bool) → Bytes → Option Reply
unfolding proxy_answers_start
ipc_proxy_answers json ctx received body = elim (proxy_answers_start json ctx body) [
  | err reply ↦ some reply
  | ok (response, none) ↦ some (ok response)
  | ok (response, some send) ↦ if received then some (ok response) else none
]
