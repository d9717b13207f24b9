-- ===== src/Messages/RoundTrip.antt =====
-- What is sent is what is received: decoding after encoding.
use Prim.Native.String.{String}
use snowflake.Common.{
  ℕ, Bool, true, false, some, [], ◌∷◌, ◌||◌, if◌then◌else◌, ◌≡◌, refl, arith, ◌^◌, ◌<◌, ◌++◌,
  some_or_none, inl, inr,
}
use snowflake.Common.Bytes.{Bytes, codes, eqb, eqb_refl}
use snowflake.Common.Text.{str_eq, str_eq_iff}
use snowflake.Common.Result.{ok, err, ◌>>=◌, from_option}
use snowflake.Messages.{
  pos, IsInverse, invalid_nat, status, normal_nat, no_offer, invalid_data, no_sid_or_answer,
  malformed_sdp,
}
use snowflake.Messages.Proxy
use snowflake.Messages.Client.{
  ClientJson, ClientPollRequest, client_version, split_line, encode_client_poll_request,
  decode_client_poll_request, check_client_poll_request, or_default,
}
use snowflake.Messages.Sdp.{deserialize_session_description}
use snowflake.Messages.Proxy.{ProxyJson, ProxyPollRequest}

-- What DecodeProxyPollRequestWithRelayPrefix returns for what EncodeProxyPollRequestWithRelayPrefix has
-- written: the same values, with the NAT type unknown for the empty one and the proxy type unknown for one
-- that is not known, or an error for another NAT type. The session id is not empty and the number of
-- clients is below 2^63.
pub decode-encode_proxy_poll_request :
    (json : ProxyJson)
    → IsInverse json.poll_request Proxy.as_read
    → (sid proxy_type nat_type : String) (clients : ℕ) (relay_pattern : String) (b : Bytes)
    → ¬ (sid ≡ "")
    → clients < 2 ^ 63
    → Proxy.encode_proxy_poll_request_with_relay_prefix json sid proxy_type nat_type clients
        relay_pattern
      ≡ some b
    → Proxy.decode_proxy_poll_request_with_relay_prefix json b ≡ (
        from_option (normal_nat nat_type) invalid_nat >>= λ nat. ok (
          sid,
          if Proxy.is_known_proxy_type proxy_type then proxy_type else Proxy.proxy_unknown,
          nat,
          clients,
          relay_pattern,
          true,
        ))
unfolding Proxy.decode_proxy_poll_request_with_relay_prefix
    Proxy.encode_proxy_poll_request_with_relay_prefix Proxy.decode_proxy_poll_request
    Proxy.is_major_one Proxy.before_dot eqb
decode-encode_proxy_poll_request json inv sid proxy_type nat_type clients relay_pattern b hs hc h =
    let e : json.poll_request.unmarshal b
        ≡ some (record {
          sid = sid;
          version = Proxy.version;
          type = proxy_type;
          nat = nat_type;
          clients = pos clients;
          accepted_relay_pattern = some relay_pattern;
        }) =
      ground (arith, inv _ b h) in
    let q : str_eq sid "" ≡ false = ground (arith, str_eq_iff sid "") in rw (e, q) (ground arith)

-- What DecodePollResponseWithRelayURL returns for what EncodePollResponseWithRelayURL has written: the offer,
-- the NAT type and the relay URL of a match with an offer; an error for a match without an offer; else
-- nothing if the reason is "no match", and the reason as an error if it is another non-empty one. An empty
-- NAT type is read as unknown.
pub decode-encode_poll_response :
    (json : ProxyJson)
    → IsInverse json.poll_response some
    → (offer : String) (success : Bool) (nat_type relay_url fail_reason : String) (b : Bytes)
    → Proxy.encode_poll_response_with_relay_url json offer success nat_type relay_url fail_reason
      ≡ some b
    → Proxy.decode_poll_response_with_relay_url json b ≡ (
        if success
        then if str_eq offer ""
          then err no_offer
          else ok (offer, if str_eq nat_type "" then "unknown" else nat_type, relay_url)
        else if str_eq fail_reason ""
        then err invalid_data
        else if str_eq fail_reason "client match"
        then err no_offer
        else if str_eq fail_reason "no match"
        then ok ("", "unknown", "")
        else err (status fail_reason))
unfolding Proxy.decode_poll_response_with_relay_url Proxy.encode_poll_response_with_relay_url
    Proxy.decode_proxy_poll_response
decode-encode_poll_response json inv offer true nat_type relay_url fail_reason b h =
    rw (inv _ b h) (ground (arith, str_eq))
decode-encode_poll_response json inv offer false nat_type relay_url fail_reason b h =
    rw (inv _ b h) (ground (arith, str_eq))

-- What DecodeAnswerResponse returns for what EncodeAnswerResponse has written is the flag.
pub decode-encode_answer_response :
    (json : ProxyJson)
    → IsInverse json.answer_response some
    → (success : Bool) (b : Bytes) → Proxy.encode_answer_response json success ≡ some b
    → Proxy.decode_answer_response json b ≡ ok success
unfolding Proxy.decode_answer_response Proxy.encode_answer_response
    Proxy.decode_proxy_answer_response
decode-encode_answer_response json inv true b h = rw (inv _ b h)
decode-encode_answer_response json inv false b h = rw (inv _ b h)

-- What DecodeAnswerRequest returns for what EncodeAnswerRequest has written: the answer and the sid, or an
-- error if one of them is empty or the answer is no session description.
pub decode-encode_answer_request :
    (json : ProxyJson)
    → IsInverse json.answer_request some
    → (answer sid : String) (b : Bytes) → Proxy.encode_answer_request json answer sid ≡ some b
    → Proxy.decode_answer_request json b ≡ (
        if str_eq sid "" || str_eq answer ""
        then err no_sid_or_answer
        else from_option (deserialize_session_description json.object answer) malformed_sdp >>= λ d.
            ok (answer, sid))
unfolding Proxy.decode_answer_request Proxy.encode_answer_request Proxy.decode_proxy_answer_request
    Proxy.is_major_one Proxy.before_dot eqb
decode-encode_answer_request json inv answer sid b h = rw (inv _ b h) (ground arith)

split_line-version :
    (body : Bytes)
    → split_line ((codes client_version ++ 10 ∷ []) ++ body) ≡ some (codes client_version, body)
unfolding split_line
split_line-version body = refl

-- What DecodeClientPollRequest returns for what EncodeClientPollRequest has written: the checks of the
-- decoded JSON, on the same request with the default fingerprint for an empty one.
pub decode-encode_client_poll_request :
    (json : ClientJson)
    → IsInverse json.poll_request some
    → (req : ClientPollRequest) (b : Bytes) → encode_client_poll_request json req ≡ some b
    → decode_client_poll_request json b
      ≡ check_client_poll_request json (record req { fingerprint = or_default req.fingerprint })
unfolding encode_client_poll_request decode_client_poll_request
decode-encode_client_poll_request json inv req b h =
    elim (some_or_none
      (json.poll_request.marshal (record req { fingerprint = or_default req.fingerprint }))) [
        | inl e ↦ ground arith
        | inr (body, e) ↦
            let parts : (codes client_version ++ 10 ∷ []) ++ body ≡ b = ground arith in
            rw (← parts, split_line-version body, eqb_refl (codes client_version), inv _ body e)
      ]
