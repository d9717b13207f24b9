-- ===== src/ClientLib/Rendezvous/Negotiated.antt =====
-- A client and the broker together: what Negotiate returns for what ClientOffers of the broker decides.
use Prim.Native.String.{String}
use snowflake.Common.{
  ℕ, true, false, Option, none, some, List, [], ◌∷◌, ◌++◌, ◌≤◌, ◌≡◌, refl, arith, some_or_none, inl,
  inr, length, Bool-cases,
}
use snowflake.Common.Bytes.{Bytes, codes}
use snowflake.Common.Stream.{HttpResponse, limited_read_whole}
use snowflake.Common.Text.{str_eq}
use snowflake.Common.Result.{Result, ok, err, from_option}
use snowflake.Messages.{DecodeError, IsInverse, empty_response}
use snowflake.Messages.Sdp.{SessionDescription, deserialize_session_description}
use snowflake.Messages.Client.{
  ClientJson, ClientPollRequest, ClientPollResponse, or_default, encode_client_poll_request,
  decode_client_poll_response, encode_client_poll_response, client_version,
}
use snowflake.Messages.RoundTrip.{decode-encode_client_poll_request}
use snowflake.Broker.Context.{BrokerContext}
use snowflake.Broker.Ipc.{Outcome, Reply, send_client_response}
use snowflake.Broker.Http
use snowflake.Broker.Http.{client_offers, ipc_client_offers}
use snowflake.Broker.Http.Legacy.{read_body_lem}
use snowflake.Broker.Http.Offers.{response_to, offers_response}
use snowflake.ClientLib.Rendezvous.{
  RendezvousError, NegotiateError, bad_response, broker_error, bad_answer, negotiate,
  prepare_poll_request,
}
use snowflake.ClientLib.Rendezvous.Http.{HttpRequest, exchange, post, fronted}

-- What the client makes of a response.
abbrev pub negotiated : ClientJson → ClientPollResponse → Result NegotiateError SessionDescription
negotiated json resp = elim (str_eq resp.error "") [
  | false ↦ err (broker_error resp.error)
  | true ↦ elim (str_eq resp.answer "") [
    | true ↦ err (bad_response empty_response)
    | false ↦ from_option (deserialize_session_description json.object resp.answer) bad_answer
  ]
]

-- A broker behind the transport, whose response arrives whole, or where a panic closes the connection.
abbrev pub delivered : Option Http.Response → Option HttpResponse
delivered none = none
delivered (some r) = some (record {
  status_code = r.status;
  has_location = false;
  body = record { bytes = r.body; fails = false };
})

abbrev pub to_broker : (Http.Request → Option Http.Response) → HttpRequest → Option HttpResponse
to_broker handler req =
    delivered (handler (record { body = req.body; read_fails = false; nat_type = "" }))

not_legacy :
    (json : ClientJson) (req : ClientPollRequest) (b : Bytes)
    → encode_client_poll_request json req ≡ some b
    → Http.is_legacy b ≡ false
unfolding encode_client_poll_request Http.is_legacy
not_legacy json req b h =
    elim (some_or_none
      (json.poll_request.marshal (record req { fingerprint = or_default req.fingerprint }))) [
        | inl e ↦ ground arith
        | inr (body, e) ↦
            let parts : (codes client_version ++ 10 ∷ []) ++ body ≡ b = ground arith in
            rw (← parts) refl
      ]

module _ {Url : Type 0} (resolve : Url → (reference : String) → Option (String × String)) where
  exchange_delivered :
      (handler : Http.Request → Option Http.Response) (url : Url) (fronts : List String)
      (random : ℕ) (host rest : String) (body response : Bytes)
      → resolve url "client" ≡ some (host, rest)
      → handler (record { body = body; read_fails = false; nat_type = "" })
        ≡ some (Http.ok_response response)
      → length response ≤ 100_000
      → exchange resolve (to_broker handler) url fronts random body ≡ ok response
  unfolding exchange post fronted
  exchange_delivered handler url [] random host rest body response found handled short =
      rw (exchange, post, found, handled, limited_read_whole response 100_000 short) refl
  exchange_delivered handler url (f ∷ fronts) random host rest body response found handled short =
      rw (exchange, post, found, handled, limited_read_whole response 100_000 short) refl

pub or_default_twice : (f : String) → or_default f ≡ or_default (or_default f)
or_default_twice f = elim (Bool-cases (str_eq f "")) [ inl e ↦ rw e refl | inr e ↦ rw (e, e) refl ]

module _ (json : ClientJson) where
  pub negotiate_lem :
      (serialize : SessionDescription → Option String) (run : Bytes → Result RendezvousError Bytes)
      (bridge_fingerprint nat : String) (offer : SessionDescription) (resp : ClientPollResponse)
      (body response : Bytes)
      → IsInverse json.poll_response some
      → prepare_poll_request json serialize run offer nat bridge_fingerprint ≡ some body
      → run body ≡ ok response
      → json.poll_response.marshal resp ≡ some response
      → negotiate json serialize run bridge_fingerprint offer nat ≡ negotiated json resp
  unfolding negotiate decode_client_poll_response
  negotiate_lem serialize run bridge_fingerprint nat offer resp body response inv prepared ran
        marshalled =
      rw (negotiate, prepared, ran, inv resp response marshalled)
        (elim (Bool-cases (str_eq resp.error "")) [
          | inl e ↦ elim (Bool-cases (str_eq resp.answer "")) [
            | inl f ↦ rw (negotiated, e, f) refl
            | inr f ↦ rw (negotiated, e, f) (rw e refl)
          ]
          | inr e ↦ rw (negotiated, e) (rw e refl)
        ])

  plain_offers :
      (text_of : Bytes → String) (ipc : Bytes → Reply) (body : Bytes) (resp : ClientPollResponse)
      (response : Bytes)
      → length body ≤ 100_000
      → Http.is_legacy body ≡ false
      → ipc body ≡ send_client_response json resp
      → json.poll_response.marshal resp ≡ some response
      → client_offers json text_of ipc (record { body = body; read_fails = false; nat_type = "" })
        ≡ some (Http.ok_response response)
  unfolding client_offers send_client_response encode_client_poll_response Http.reply_plain
  plain_offers text_of ipc body resp response short plain replied marshalled =
      rw
        (
          client_offers,
          read_body_lem (record { body = body; read_fails = false; nat_type = "" }) refl short,
          plain,
          replied,
          send_client_response,
          encode_client_poll_response,
          marshalled,
        )
        refl

  -- A client that negotiates over HTTP, with or without a front, with a broker that its transport reaches, if
  -- encoding/json reads the messages as it has written them, and request and response have at most 100,000 bytes: it
  -- gets the session description that the proxy has answered with; else the error that the broker gives, for a
  -- request that the broker refuses, a bridge that it does not know, a lack of proxies or a timeout; an error of an
  -- empty response for an empty answer; and another for an answer that is no session description.
  pub negotiate-client_offers :
      {Url : Type 0} (resolve : Url → (reference : String) → Option (String × String))
      (serialize : SessionDescription → Option String) (text_of : Bytes → String)
      (describe : DecodeError → String) (hex_error fingerprint_error bridge_error : String)
      (ctx : BrokerContext) (outcome : Outcome) (url : Url) (fronts : List String) (random : ℕ)
      (host rest bridge_fingerprint nat text : String) (offer : SessionDescription)
      (body response : Bytes)
      → IsInverse json.poll_request some
      → IsInverse json.poll_response some
      → resolve url "client" ≡ some (host, rest)
      → serialize offer ≡ some text
      → let request : ClientPollRequest = record {
        offer = text;
        nat = nat;
        fingerprint = bridge_fingerprint;
      } in
        let resp =
          response_to json describe bridge_error ctx outcome
            (record request { fingerprint = or_default bridge_fingerprint }) in
        encode_client_poll_request json request ≡ some body
        → length body ≤ 100_000
        → json.poll_response.marshal resp ≡ some response
        → length response ≤ 100_000
        → negotiate json serialize
            (exchange resolve
              (to_broker (
                client_offers json text_of (
                  ipc_client_offers json describe hex_error fingerprint_error bridge_error ctx
                    outcome)))
              url
              fronts
              random)
            bridge_fingerprint
            offer
            nat
          ≡ negotiated json resp
  unfolding prepare_poll_request
  negotiate-client_offers resolve serialize text_of describe hex_error fingerprint_error
        bridge_error ctx outcome url fronts random host rest bridge_fingerprint nat text offer body
        response inverse inv found serialized encoded short marshalled short_response =
      let request : ClientPollRequest = record {
        offer = text;
        nat = nat;
        fingerprint = bridge_fingerprint;
      } in
      let message : ClientPollRequest = record request {
        fingerprint = or_default bridge_fingerprint;
      } in
      let resp = response_to json describe bridge_error ctx outcome message in
      let ipc =
        ipc_client_offers json describe hex_error fingerprint_error bridge_error ctx outcome in
      let replied : ipc body ≡ send_client_response json resp =
        offers_response json describe hex_error fingerprint_error bridge_error ctx outcome message
          body (decode-encode_client_poll_request json inverse request body encoded)
          (or_default_twice bridge_fingerprint) in
      negotiate_lem serialize
        (exchange resolve (to_broker (client_offers json text_of ipc)) url fronts random)
        bridge_fingerprint nat offer resp body response inv
        (rw (prepare_poll_request, serialized) encoded)
        (exchange_delivered resolve (client_offers json text_of ipc) url fronts random host rest
          body response found
          (plain_offers text_of ipc body resp response short (not_legacy json request body encoded)
            replied marshalled)
          short_response)
        marshalled
