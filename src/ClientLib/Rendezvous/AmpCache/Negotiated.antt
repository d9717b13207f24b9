-- ===== src/ClientLib/Rendezvous/AmpCache/Negotiated.antt =====
-- A client behind an AMP cache and the broker together.
use Prim.Native.String.{String}
use snowflake.Common.{
  ℕ, false, Option, none, some, List, ◌++◌, ◌≤◌, ◌≡◌, refl, ap, arith, length, take-all, ◌∙◌, ◌==◌,
}
use snowflake.Common.Bytes.{Bytes}
use snowflake.Common.Hex.{AreBytes}
use snowflake.Common.Stream.{HttpResponse, read_all_limited}
use snowflake.Common.Result.{ok}
use snowflake.Amp.{Encoding, IsEncoding}
use snowflake.Amp.Path.{encode_path, no_slash}
use snowflake.Amp.Armor.Framed.{is_plain}
use snowflake.Amp.Armor.Rounds.{joined}
use snowflake.Amp.Cache.{Libraries, Url}
use snowflake.Amp.Decoder.{Token, armor_decode}
use snowflake.Amp.Decoder.RoundTrip.{IsTokenizer}
use snowflake.Messages.{DecodeError, IsInverse}
use snowflake.Messages.Sdp.{SessionDescription}
use snowflake.Messages.Client.{
  ClientJson, ClientPollRequest, or_default, encode_client_poll_request,
  encode_client_poll_response,
}
use snowflake.Messages.RoundTrip.{decode-encode_client_poll_request}
use snowflake.Broker.Context.{BrokerContext}
use snowflake.Broker.Http.{ipc_client_offers}
use snowflake.Broker.Http.Offers.{response_to, offers_response}
use snowflake.ClientLib.Rendezvous.{negotiate, prepare_poll_request}
use snowflake.ClientLib.Rendezvous.Negotiated.{negotiated, negotiate_lem, or_default_twice}
use snowflake.Broker.Ipc.{Outcome, send_client_response}
use snowflake.Broker.Amp.{route, amp_client_offers}
use snowflake.Broker.Amp.Served.{amp_client_offers-Served}
use snowflake.ClientLib.Rendezvous.Http.{HttpRequest}
use snowflake.ClientLib.Rendezvous.AmpCache.{Target, target, get, decode_limited, exchange}

-- A document that arrives whole.
abbrev pub arrived : Bytes → HttpResponse
arrived document = record {
  status_code = 200;
  has_location = false;
  body = record { bytes = document; fails = false };
}

whole :
    (b : Bytes)
    → length b ≤ 100_000
    → read_all_limited (record { bytes = b; fails = false }) 100_001 ≡ (b, none)
unfolding read_all_limited
whole b short = rw (take-all 100_001 b (omega arith)) refl

module _ (lib : Libraries) (path_encoding armor_encoding : Encoding)
    (tokenize : Bytes → List Token × Option ℕ) (resolve : Url → (path : Bytes) → Url)
    (request_of : Target → Option (String × String))
    (round_trip : HttpRequest → Option HttpResponse) where
  exchange-arrived :
      (broker_url : Url) (cache : Option Url) (fronts : List String) (random : ℕ)
      (cache_breaker poll document response : Bytes) (t : Target) (req : HttpRequest)
      → target lib path_encoding armor_encoding tokenize resolve request_of round_trip broker_url
          cache cache_breaker poll
        ≡ some t
      → get lib path_encoding armor_encoding tokenize resolve request_of round_trip t fronts random
        ≡ some req
      → round_trip req ≡ some (arrived document)
      → length document ≤ 100_000
      → armor_decode armor_encoding (tokenize document) ≡ ok response
      → exchange lib path_encoding armor_encoding tokenize resolve request_of round_trip broker_url
          cache fronts random cache_breaker poll
        ≡ ok response
  unfolding exchange decode_limited
  exchange-arrived broker_url cache fronts random cache_breaker poll document response t req
        targeted requested got short decoded =
      let long : (length document == 100_001) ≡ false = ground arith in
      rw (exchange, targeted, requested, got)
        (ap (decode_limited lib path_encoding armor_encoding tokenize resolve request_of round_trip)
            (whole document short)
          ∙ rw (decode_limited, decoded, long) refl)

  -- A client that negotiates with a broker through an AMP cache, or without one, and with or without a front: if the
  -- request can be made and brings back the document that the broker serves for its poll, of at most 100,000 bytes, and if
  -- base64, the tokenizer and encoding/json read their parts as documented, Negotiate returns what it returns over HTTP.
  pub negotiate-amp_client_offers :
      (json : ClientJson) (serialize : SessionDescription → Option String)
      (describe : DecodeError → String) (hex_error fingerprint_error bridge_error : String)
      (ctx : BrokerContext) (outcome : Outcome) (pieces : Bytes → List Bytes) (broker_url : Url)
      (cache : Option Url) (fronts : List String) (random : ℕ) (cache_breaker : Bytes) (t : Target)
      (req : HttpRequest) (bridge_fingerprint nat text : String) (offer : SessionDescription)
      (body response : Bytes)
      → IsInverse json.poll_request some
      → IsInverse json.poll_response some
      → IsEncoding no_slash path_encoding
      → IsEncoding is_plain armor_encoding
      → IsTokenizer tokenize
      → ((d : Bytes) → joined (pieces d) ≡ armor_encoding.encode d)
      → AreBytes body
      → AreBytes response
      → serialize offer ≡ some text
      → let request : ClientPollRequest = record {
        offer = text;
        nat = nat;
        fingerprint = bridge_fingerprint;
      } in
        let resp =
          response_to json describe bridge_error ctx outcome
            (record request { fingerprint = or_default bridge_fingerprint }) in
        let document =
          (amp_client_offers json path_encoding pieces
            (ipc_client_offers json describe hex_error fingerprint_error bridge_error ctx outcome)
            (route ++ encode_path path_encoding cache_breaker body)).body in
        encode_client_poll_request json request ≡ some body
        → json.poll_response.marshal resp ≡ some response
        → target lib path_encoding armor_encoding tokenize resolve request_of round_trip broker_url
            cache cache_breaker body
          ≡ some t
        → get lib path_encoding armor_encoding tokenize resolve request_of round_trip t fronts
            random
          ≡ some req
        → round_trip req ≡ some (arrived document)
        → length document ≤ 100_000
        → negotiate json serialize
            (exchange lib path_encoding armor_encoding tokenize resolve request_of round_trip
              broker_url cache fronts random cache_breaker)
            bridge_fingerprint
            offer
            nat
          ≡ negotiated json resp
  unfolding prepare_poll_request send_client_response encode_client_poll_response
  negotiate-amp_client_offers json serialize describe hex_error fingerprint_error bridge_error ctx
        outcome pieces broker_url cache fronts random cache_breaker t req bridge_fingerprint nat
        text offer body response inverse inv path_laws armor_laws laws cut poll_bytes response_bytes
        serialized encoded marshalled targeted requested got short =
      let request : ClientPollRequest = record {
        offer = text;
        nat = nat;
        fingerprint = bridge_fingerprint;
      } in
      let message : ClientPollRequest = record request {
        fingerprint = or_default bridge_fingerprint;
      } in
      let resp = response_to json describe bridge_error ctx outcome message in
      let ipc =
        ipc_client_offers json describe hex_error fingerprint_error bridge_error ctx outcome in
      let answered : ipc body ≡ ok response =
        offers_response json describe hex_error fingerprint_error bridge_error ctx outcome message
          body (decode-encode_client_poll_request json inverse request body encoded)
          (or_default_twice bridge_fingerprint)
        ∙ rw (send_client_response, encode_client_poll_response, marshalled) refl in
      let served =
        amp_client_offers-Served json path_encoding armor_encoding path_laws armor_laws tokenize
          laws pieces cut ipc cache_breaker body response poll_bytes response_bytes answered in
      let run =
        exchange lib path_encoding armor_encoding tokenize resolve request_of round_trip broker_url
          cache fronts random cache_breaker in
      negotiate_lem json serialize run bridge_fingerprint nat offer resp body response inv
        (rw (prepare_poll_request, serialized) encoded)
        (exchange-arrived broker_url cache fronts random cache_breaker body
          (amp_client_offers json path_encoding pieces ipc
            (route ++ encode_path path_encoding cache_breaker body)).body
          response t req targeted requested got short served.1)
        marshalled
