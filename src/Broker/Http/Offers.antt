-- ===== src/Broker/Http/Offers.antt =====
-- The response of ClientOffers to the body of an offer.
use Prim.Native.String.{String}
use snowflake.Common.{
  Bool, true, false, none, some, ◌≡◌, refl, arith, some_or_none, inl, inr, sym, ◌∙◌,
}
use snowflake.Common.Bytes.{Bytes, codes}
use snowflake.Common.Hex.{hex_decode}
use snowflake.Common.Result.{ok, err, ok_or_err}
use snowflake.Messages.{DecodeError}
use snowflake.Messages.Sdp.{deserialize_session_description}
use snowflake.Messages.Client.{
  ClientJson, ClientPollRequest, ClientPollResponse, or_default, fingerprint_from_bytes,
  fingerprint_from_hex_string, decode_client_poll_request, check_client_poll_request,
}
use snowflake.Broker.BridgeList.{get_bridge_info}
use snowflake.Broker.Context.{BrokerContext}
use snowflake.Broker.Ipc.{Outcome, client_offers_start, send_client_response}
use snowflake.Broker.Http.{ipc_client_offers}
use snowflake.Broker.Http.Legacy.{refusal, response_of, check-fingerprint, finish_lem}

-- The bridge of a fingerprint in hexadecimal.
abbrev pub is_known_bridge : BrokerContext → String → Bool
is_known_bridge ctx fingerprint = elim (fingerprint_from_hex_string fingerprint) [
  | none ↦ false
  | some f ↦ elim (get_bridge_info ctx.bridge_list f) [ none ↦ false | some info ↦ true ]
]

-- The response to an offer: it depends on the checks of the request, on whether its bridge is known, and on how the
-- wait ends.
abbrev pub response_to :
    ClientJson
    → (DecodeError → String)
    → (bridge_error : String) → BrokerContext
    → Outcome
    → ClientPollRequest
    → ClientPollResponse
response_to json describe bridge_error ctx outcome request =
    elim (check_client_poll_request json request) [
      | err e ↦ refusal (describe e)
      | ok req ↦ elim (is_known_bridge ctx request.fingerprint) [
        | false ↦ refusal bridge_error
        | true ↦ response_of outcome
      ]
    ]

check-hex :
    (json : ClientJson) (message req : ClientPollRequest)
    → check_client_poll_request json message ≡ ok req
    → (bytes : Bytes) × (f : Bytes) × (hex_decode (codes (or_default message.fingerprint))
        ≡ some bytes)
      × (fingerprint_from_bytes bytes ≡ some f)
unfolding check_client_poll_request fingerprint_from_hex_string
check-hex json message req h =
    elim (some_or_none (deserialize_session_description json.object message.offer)) [
      | inl e ↦ ground arith
      | inr (d, e) ↦ elim (some_or_none (hex_decode (codes (or_default message.fingerprint)))) [
        | inl g ↦ ground arith
        | inr (bytes, g) ↦ elim (some_or_none (fingerprint_from_bytes bytes)) [
          | inl k ↦ ground arith
          | inr (f, k) ↦ (bytes, f, g, k)
        ]
      ]
    ]

module _ (json : ClientJson) where
  pub offers_response :
      (describe : DecodeError → String) (hex_error fingerprint_error bridge_error : String)
      (ctx : BrokerContext) (outcome : Outcome) (message : ClientPollRequest) (body : Bytes)
      → decode_client_poll_request json body ≡ check_client_poll_request json message
      → message.fingerprint ≡ or_default message.fingerprint
      → ipc_client_offers json describe hex_error fingerprint_error bridge_error ctx outcome body
        ≡ send_client_response json (response_to json describe bridge_error ctx outcome message)
  unfolding ipc_client_offers client_offers_start fingerprint_from_hex_string
  offers_response describe hex_error fingerprint_error bridge_error ctx outcome message body decoded
        named =
      elim (ok_or_err (check_client_poll_request json message)) [
        | inl (e, h) ↦ rw (ipc_client_offers, client_offers_start, decoded, response_to, h) refl
        | inr (req, h) ↦
            let same : req.fingerprint ≡ message.fingerprint =
              check-fingerprint json message req h ∙ sym named in
            let (bytes, f, g, k) = check-hex json message req h in
            let g' : hex_decode (codes message.fingerprint) ≡ some bytes = rw (← named) at g in
            elim (some_or_none (get_bridge_info ctx.bridge_list f)) [
              | inl e ↦
                  rw
                    (
                      ipc_client_offers, client_offers_start, decoded, response_to, h, same, g', k,
                      is_known_bridge, fingerprint_from_hex_string, e,
                    )
                    refl
              | inr (info, e) ↦
                  rw
                    (
                      ipc_client_offers, client_offers_start, decoded, response_to, h, same, g', k,
                      is_known_bridge, fingerprint_from_hex_string, e,
                    )
                    (finish_lem json outcome)
            ]
      ]
