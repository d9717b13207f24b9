-- ===== src/ClientLib/Rendezvous.antt =====
-- client/lib/rendezvous.go: how a client sends its offer to the broker and reads the answer, and what it tells of
-- its NAT. The rendezvous method and encoding/json are parameters, the text of a session description too.
pub mod NatPolicy
pub mod Http
pub mod AmpCache
pub mod Negotiated
mod Tests
use Prim.Native.String.{String}
use snowflake.Common.{Option, none, some}
use snowflake.Common.Bytes.{Bytes}
use snowflake.Common.Text.{str_eq}
use snowflake.Common.Result.{Result, ok, err, ◌>>=◌, ◌>>◌, guard, from_option}
use snowflake.Messages.{DecodeError}
use snowflake.Messages.Sdp.{SessionDescription, deserialize_session_description}
use snowflake.Messages.Client.{ClientJson, encode_client_poll_request, decode_client_poll_response}

pub data RendezvousError : Type 0 where
  bad_url round_trip_failed unexpected_status read_failed bad_document : RendezvousError

pub data NegotiateError : Type 0 where
  not_encoded : NegotiateError
  not_exchanged : RendezvousError → NegotiateError
  bad_response : DecodeError → NegotiateError
  -- the error that the broker has sent
  broker_error : String → NegotiateError
  bad_answer : NegotiateError

abbrev pub or_fail : {E A : Type 0} → Result E A → (E → NegotiateError) → Result NegotiateError A
or_fail (ok a) f = ok a
or_fail (err e) f = err (f e)

-- `exchange` is Exchange of the rendezvous method.
module _ (json : ClientJson) (serialize : SessionDescription → Option String)
    (exchange : Bytes → Result RendezvousError Bytes) where
  unfoldable pub prepare_poll_request :
      SessionDescription → (nat_type bridge_fingerprint : String) → Option Bytes
  prepare_poll_request offer nat_type bridge_fingerprint = elim (serialize offer) [
    | none ↦ none
    | some offer_sdp ↦
        encode_client_poll_request json
          (record { offer = offer_sdp; nat = nat_type; fingerprint = bridge_fingerprint })
  ]

  unfoldable pub negotiate :
      (bridge_fingerprint : String)
      → SessionDescription
      → (nat_type_to_send : String) → Result NegotiateError SessionDescription
  unfolding prepare_poll_request
  negotiate bridge_fingerprint offer nat_type_to_send = do
    enc_req ←
        from_option (prepare_poll_request offer nat_type_to_send bridge_fingerprint) not_encoded
    enc_resp ← or_fail (exchange enc_req) not_exchanged
    resp ← or_fail (decode_client_poll_response json enc_resp) bad_response
    guard (str_eq resp.error "") (broker_error resp.error)
    from_option (deserialize_session_description json.object resp.answer) bad_answer
