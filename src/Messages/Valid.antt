-- ===== src/Messages/Valid.antt =====
-- What the decoders accept: every message that the handlers of the broker see is well-formed.
use Prim.Native.String.{String}
use snowflake.Common.{true, none, some, ◌≡◌, arith, some_or_none, inl, inr, ◌⊎◌, length}
use snowflake.Common.Bytes.{Bytes, codes}
use snowflake.Common.Hex.{hex_decode}
use snowflake.Common.Text.{str_eq_iff}
use snowflake.Common.Result.{ok}
use snowflake.Messages.{normal_nat, nat_unknown, nat_restricted, nat_unrestricted}
use snowflake.Messages.Proxy.{
  ProxyJson, ProxyPollRequest, decode_proxy_poll_request, is_major_one, is_known_proxy_type,
  proxy_unknown,
}
use snowflake.Messages.Client.{
  ClientJson, ClientPollRequest, split_line, decode_client_poll_request, check_client_poll_request,
  or_default, fingerprint_from_hex_string, fingerprint_from_bytes,
}
use snowflake.Messages.Sdp.{deserialize_session_description}

-- One of the three NAT types.
abbrev pub IsNat : String → Type 0
IsNat nat = (nat ≡ nat_unknown) ⊎ ((nat ≡ nat_restricted) ⊎ (nat ≡ nat_unrestricted))

pub normal_nat-IsNat : (nat n : String) → normal_nat nat ≡ some n → IsNat n
unfolding normal_nat
normal_nat-IsNat nat n h = ground (
  arith,
  str_eq_iff nat nat_unknown,
  str_eq_iff nat nat_restricted,
  str_eq_iff nat nat_unrestricted,
)

-- A poll of a proxy that has a session, a version 1, one of the NAT types, and a known type or "unknown".
abbrev pub IsProxyPoll : ProxyPollRequest → Type 0
IsProxyPoll req =
    (¬ (req.sid ≡ ""))
    × (is_major_one req.version ≡ true)
    × IsNat req.nat
    × ((is_known_proxy_type req.type ≡ true) ⊎ (req.type ≡ proxy_unknown))

-- DecodeProxyPollRequest accepts a message only if it has a session id, the major version 1 and one of the
-- three NAT types, and the type that it returns is known or "unknown".
pub decode_proxy_poll_request-IsProxyPoll :
    (json : ProxyJson) (b : Bytes) (req : ProxyPollRequest)
    → decode_proxy_poll_request json b ≡ ok req
    → IsProxyPoll req
unfolding decode_proxy_poll_request
decode_proxy_poll_request-IsProxyPoll json b req h =
    elim (some_or_none (json.poll_request.unmarshal b)) [
      | inl e ↦ ground arith
      | inr (aux, e) ↦ elim (some_or_none (normal_nat aux.nat)) [
        | inl f ↦ ground arith
        | inr (n, f) ↦ ground (arith, str_eq_iff aux.sid "", normal_nat-IsNat aux.nat n f)
      ]
    ]

fingerprint-length :
    (s : String) (fp : Bytes)
    → fingerprint_from_hex_string s ≡ some fp
    → (length fp ≡ 20) ⊎ (length fp ≡ 32)
unfolding fingerprint_from_hex_string fingerprint_from_bytes
fingerprint-length s fp h = elim (some_or_none (hex_decode (codes s))) [
  | inl e ↦ ground arith
  | inr (d, e) ↦ ground arith
]

-- A poll of a client that offers a session description, has one of the NAT types, and names a bridge by the
-- hexadecimal digits of 20 or 32 bytes.
abbrev pub IsClientPoll : ClientJson → ClientPollRequest → Type 0
IsClientPoll json req =
    (¬ (req.offer ≡ ""))
    × IsNat req.nat
    × ((fp : Bytes) × (fingerprint_from_hex_string req.fingerprint ≡ some fp)
        × ((length fp ≡ 20) ⊎ (length fp ≡ 32)))
    × ¬ (deserialize_session_description json.object req.offer ≡ none)

check-IsClientPoll :
    (json : ClientJson) (message req : ClientPollRequest)
    → check_client_poll_request json message ≡ ok req
    → IsClientPoll json req
unfolding check_client_poll_request
check-IsClientPoll json message req h =
    elim (some_or_none (deserialize_session_description json.object message.offer)) [
      | inl e ↦ ground arith
      | inr (d, e) ↦
          elim (some_or_none (fingerprint_from_hex_string (or_default message.fingerprint))) [
            | inl f ↦ ground arith
            | inr (fp, f) ↦ elim (some_or_none (normal_nat message.nat)) [
              | inl g ↦ ground arith
              | inr (n, g) ↦
                  let l = fingerprint-length (or_default message.fingerprint) fp f in
                  (
                    ground (arith, str_eq_iff message.offer ""),
                    ground (arith, normal_nat-IsNat message.nat n g),
                    (fp, ground arith, l),
                    ground arith,
                  )
            ]
          ]
    ]

-- DecodeClientPollRequest accepts a message only if its offer is a session description, its NAT type one of
-- the three, and its fingerprint, the default one included, the hexadecimal digits of 20 or 32 bytes.
pub decode_client_poll_request-IsClientPoll :
    (json : ClientJson) (b : Bytes) (req : ClientPollRequest)
    → decode_client_poll_request json b ≡ ok req
    → IsClientPoll json req
unfolding decode_client_poll_request
decode_client_poll_request-IsClientPoll json b req h = elim (some_or_none (split_line b)) [
  | inl e ↦ ground arith
  | inr ((line, body), e) ↦ elim (some_or_none (json.poll_request.unmarshal body)) [
    | inl f ↦ ground arith
    | inr (message, f) ↦ check-IsClientPoll json message req (ground arith)
  ]
]
