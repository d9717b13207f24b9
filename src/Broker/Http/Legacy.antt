-- ===== src/Broker/Http/Legacy.antt =====
-- The answers to legacy clients, which send an offer alone and read the status.
use Prim.Native.String.{String}
use snowflake.Common.{
  true, false, Option, none, some, [], ◌∷◌, ◌≤◌, ◌≡◌, refl, ap, arith, some_or_none, inl, inr,
  Bool-cases, if_either, ◌∙◌, if◌then◌else◌, length, ltb, ◌||◌,
}
use snowflake.Common.Bytes.{Bytes, codes}
use snowflake.Common.Text.{str_eq, utf8}
use snowflake.Common.Hex.{hex_decode}
use snowflake.Common.Result.{ok, err, ok_or_err}
use snowflake.Messages.{DecodeError, IsInverse, normal_nat}
use snowflake.Messages.Sdp.{deserialize_session_description}
use snowflake.Messages.Client.{
  fingerprint_from_bytes, fingerprint_from_hex_string, ClientJson, ClientPollRequest,
  ClientPollResponse, default_bridge_fingerprint, or_default, encode_client_poll_request,
  encode_client_poll_response, decode_client_poll_response, decode_client_poll_request,
  check_client_poll_request,
}
use snowflake.Messages.RoundTrip.{decode-encode_client_poll_request}
use snowflake.Broker.BridgeList.{get_bridge_info}
use snowflake.Broker.Context.{BrokerContext}
use snowflake.Broker.Ipc.{
  Outcome, no_proxies, timed_out, answered, str_timed_out, str_no_proxies, client_offers_start,
  client_offers_finish, send_client_response,
}
use snowflake.Broker.Http.{
  Request, Response, read_limit, read_body, only_status, ok_response, is_legacy, legacy_response,
  reply_legacy, client_offers, ipc_client_offers,
}

-- How a legacy client is told of a response: none is a panic, of a text of an error that it does not know.
abbrev pub told : ClientPollResponse → Option Response
told resp =
    if str_eq resp.error ""
    then (if str_eq resp.answer ""
        then some (only_status 500)
        else some (ok_response (utf8 resp.answer)))
    else (if str_eq resp.error str_no_proxies
        then some (only_status 503)
        else (if str_eq resp.error str_timed_out then some (only_status 504) else none))

abbrev pub refusal : String → ClientPollResponse
refusal e = record { answer = ""; error = e }

abbrev pub response_of : Outcome → ClientPollResponse
response_of no_proxies = refusal str_no_proxies
response_of timed_out = refusal str_timed_out
response_of (answered a) = record { answer = a; error = "" }

abbrev pub default_key : Bytes
default_key =
    0x2B ∷ 0x28 ∷ 0x0B ∷ 0x23 ∷ 0xE1 ∷ 0x10 ∷ 0x7B ∷ 0xB6 ∷ 0x2A ∷ 0xBF ∷ 0xC4 ∷ 0x0D ∷ 0xDC ∷ 0xC8
    ∷ 0x82 ∷ 0x48 ∷ 0x14 ∷ 0xF8 ∷ 0x0A ∷ 0x72 ∷ []

default_key_lem : hex_decode (codes default_bridge_fingerprint) ≡ some default_key
unfolding hex_decode
default_key_lem = refl

default_key-fingerprint : fingerprint_from_bytes default_key ≡ some default_key
unfolding fingerprint_from_bytes
default_key-fingerprint = refl

-- The response to a legacy offer: it depends on the checks of the offer and the NAT type, on whether the default
-- bridge is known, and on how the wait ends.
abbrev pub response_for :
    ClientJson
    → (DecodeError → String)
    → (bridge_error : String) → BrokerContext
    → Outcome
    → (offer nat : String) → ClientPollResponse
response_for json describe bridge_error ctx outcome offer nat =
    elim (check_client_poll_request json
      (record { offer = offer; nat = nat; fingerprint = default_bridge_fingerprint })) [
        | err e ↦ refusal (describe e)
        | ok message ↦ elim (get_bridge_info ctx.bridge_list default_key) [
          | none ↦ refusal bridge_error
          | some info ↦ response_of outcome
        ]
      ]

pub check-fingerprint :
    (json : ClientJson) (message req : ClientPollRequest)
    → check_client_poll_request json message ≡ ok req
    → req.fingerprint ≡ or_default message.fingerprint
unfolding check_client_poll_request
check-fingerprint json message req h =
    elim (some_or_none (deserialize_session_description json.object message.offer)) [
      | inl e ↦ ground arith
      | inr (d, e) ↦
          elim (some_or_none (fingerprint_from_hex_string (or_default message.fingerprint))) [
            | inl f ↦ ground arith
            | inr (fp, f) ↦ elim (some_or_none (normal_nat message.nat)) [
              | inl g ↦ ground arith
              | inr (n, g) ↦ ground arith
            ]
          ]
    ]

pub read_body_lem :
    (r : Request) → r.read_fails ≡ false → length r.body ≤ read_limit → read_body r ≡ some r.body
unfolding read_body
read_body_lem r readable short =
    if_either (λ (o : Option Bytes). o ≡ some r.body)
      (r.read_fails || ltb read_limit (length r.body)) _ _ (λ h. absurd (ground arith)) λ h. refl

module _ (json : ClientJson) where
  pub finish_lem :
      (o : Outcome) → client_offers_finish json o ≡ send_client_response json (response_of o)
  unfolding client_offers_finish
  finish_lem no_proxies = refl
  finish_lem timed_out = refl
  finish_lem (answered a) = refl

  replied :
      IsInverse json.poll_response some
      → (resp : ClientPollResponse) (b : Bytes) → json.poll_response.marshal resp ≡ some b
      → reply_legacy json (send_client_response json resp) ≡ told resp
  unfolding reply_legacy send_client_response encode_client_poll_response
      decode_client_poll_response legacy_response
  replied inv resp b h =
      rw (h, reply_legacy, inv resp b h)
        (elim (Bool-cases (str_eq resp.error "")) [
          | inl e ↦ elim (Bool-cases (str_eq resp.answer "")) [
            | inl f ↦ simp (e, f)
            | inr f ↦ simp (e, f)
          ]
          | inr e ↦ simp e
        ])

  offers_lem :
      (describe : DecodeError → String) (hex_error fingerprint_error bridge_error : String)
      (ctx : BrokerContext) (outcome : Outcome) (offer nat : String) (body : Bytes)
      → decode_client_poll_request json body
        ≡ check_client_poll_request json
            (record { offer = offer; nat = nat; fingerprint = default_bridge_fingerprint })
      → ipc_client_offers json describe hex_error fingerprint_error bridge_error ctx outcome body
        ≡ send_client_response json (response_for json describe bridge_error ctx outcome offer nat)
  unfolding ipc_client_offers client_offers_start
  offers_lem describe hex_error fingerprint_error bridge_error ctx outcome offer nat body decoded =
      let message : ClientPollRequest = record {
        offer = offer;
        nat = nat;
        fingerprint = default_bridge_fingerprint;
      } in
      elim (ok_or_err (check_client_poll_request json message)) [
        | inl (e, h) ↦ rw (ipc_client_offers, client_offers_start, decoded, response_for, h) refl
        | inr (req, h) ↦
            let f : req.fingerprint ≡ default_bridge_fingerprint =
              check-fingerprint json message req h in
            elim (some_or_none (get_bridge_info ctx.bridge_list default_key)) [
              | inl g ↦
                  rw
                    (
                      ipc_client_offers, client_offers_start, decoded, response_for, h, f,
                      default_key_lem, default_key-fingerprint, g,
                    )
                    refl
              | inr (info, g) ↦
                  rw
                    (
                      ipc_client_offers, client_offers_start, decoded, response_for, h, f,
                      default_key_lem, default_key-fingerprint, g,
                    )
                    (finish_lem outcome)
            ]
      ]

  -- An offer that a legacy client sends, of at most 100,000 bytes from `{` on, if encoding/json reads the messages as
  -- it has written them: the client is told of the response to the offer with the default bridge, 200 with the bytes of the answer in UTF-8,
  -- 500 for an empty answer, 503 without a proxy and 504 after the timeout; and the handler panics if the offer, the
  -- NAT type or the bridge is refused with any other text.
  pub client_offers-told :
      IsInverse json.poll_request some
      → IsInverse json.poll_response some
      → (text_of : Bytes → String) (describe : DecodeError → String)
        (hex_error fingerprint_error bridge_error : String) (ctx : BrokerContext)
        (outcome : Outcome) (r : Request) (shimmed response : Bytes)
      → r.read_fails ≡ false
      → length r.body ≤ read_limit
      → is_legacy r.body ≡ true
      → encode_client_poll_request json
          (record { offer = text_of r.body; nat = r.nat_type; fingerprint = "" })
        ≡ some shimmed
      → json.poll_response.marshal
          (response_for json describe bridge_error ctx outcome (text_of r.body) r.nat_type)
        ≡ some response
      → client_offers json text_of
          (ipc_client_offers json describe hex_error fingerprint_error bridge_error ctx outcome)
          r
        ≡ told (response_for json describe bridge_error ctx outcome (text_of r.body) r.nat_type)
  unfolding client_offers
  client_offers-told inverse inv text_of describe hex_error fingerprint_error bridge_error ctx
        outcome r shimmed response readable short legacy encoded marshalled =
      let decoded =
        decode-encode_client_poll_request json inverse
          (record { offer = text_of r.body; nat = r.nat_type; fingerprint = "" }) shimmed encoded in
      rw (client_offers, read_body_lem r readable short, legacy, encoded)
        (ap (reply_legacy json) (
            offers_lem describe hex_error fingerprint_error bridge_error ctx outcome
              (text_of r.body) r.nat_type shimmed decoded)
          ∙ replied inv
              (response_for json describe bridge_error ctx outcome (text_of r.body) r.nat_type)
              response marshalled)
