-- ===== src/ProxyLib/RelayUrl/Accepts.antt =====
-- What the check of relay URLs accepts, and that it accepts the relays that the broker lets a proxy be sent to.
use Prim.Native.String.{String}
use snowflake.Common.{
  ◌≡◌, refl, ◌⊎◌, ◌↔◌, inl, inr, Bool, true, false, Option, none, some, ◌||◌, arith, Bool-cases,
  if_either, some_or_none,
}
use snowflake.Common.Bytes.{Bytes, codes}
use snowflake.Common.Text.{str_eq, str_eq_iff}
use snowflake.Common.Result.{Result, ok, err, guard, ◌>>◌}
use snowflake.NameMatcher.{new_name_matcher, is_member}
use snowflake.Messages.Proxy.{ProxyJson, ProxyPollRequest, decode_proxy_poll_request}
use snowflake.Broker.Context.{BrokerContext, ProxyPoll}
use snowflake.Broker.Ipc.{proxy_polls_start}
use snowflake.Broker.Ipc.Relay.{proxy_polls_start-Registers}
use snowflake.ProxyLib.RelayUrl.{
  Url, RelayError, private_ip, non_tls, not_web_socket, host_mismatch, is_remote_address,
  check_is_relay_url_acceptable,
}

refused : {E : Type 0} {e : E} → ◌≡◌ {A = Result E (Unit {0})} (err e) (ok tt) → ⊥
refused h = ground arith

-- A guard that passes.
guarded :
    {E : Type 0} (b : Bool) (e : E) (rest : Result E (Unit {0}))
    → (guard b e >> rest) ≡ ok tt
    → (b ≡ true) × (rest ≡ ok tt)
guarded true e rest h = (refl, h)
guarded false e rest h = absurd (refused h)

passed : {E : Type 0} (b : Bool) (e : E) → guard b e ≡ ok tt → b ≡ true
passed true e h = refl
passed false e h = absurd (refused h)

module _ (parse_url : String → Option Url) (parse_ip : String → Option Bytes) (pattern : String)
    (allow_private_ips allow_non_tls_relay : Bool) where
  -- The host is a name, or an address that is remote, unless private ones are allowed.
  abbrev pub IsHost : Url → Type 0
  IsHost u =
      (allow_private_ips ≡ true)
      ⊎ ((parse_ip u.hostname ≡ none)
          ⊎ ((ip : Bytes) × (parse_ip u.hostname ≡ some ip) × (is_remote_address ip ≡ true)))

  abbrev pub IsScheme : Url → Type 0
  IsScheme u = (u.scheme ≡ "wss") ⊎ ((u.scheme ≡ "ws") × (allow_non_tls_relay ≡ true))

  abbrev pub IsAcceptable : String → Type 0
  IsAcceptable relay_url =
      (u : Url) × (parse_url relay_url ≡ some u)
      × IsHost u
      × IsScheme u
      × (is_member (new_name_matcher (codes pattern)) (codes u.hostname) ≡ true)

  abbrev host_test : Url → Bool
  host_test u =
      allow_private_ips
      || elim (parse_ip u.hostname) [ none ↦ true | some ip ↦ is_remote_address ip ]

  host_test_iff : (u : Url) → (host_test u ≡ true) ↔ IsHost u
  host_test_iff u = elim (some_or_none (parse_ip u.hostname)) [
    | inl e ↦ (λ h. inr (inl e), λ h. rw e (ground arith))
    | inr (ip, e) ↦ (
      λ h. elim (Bool-cases allow_private_ips) [
        | inl f ↦ inl f
        | inr f ↦ inr (inr (ip, e, rw (e, f) at h))
      ],
      λ h. elim h [
        | inl f ↦ rw f refl
        | inr (inl f) ↦ rw f (ground arith)
        | inr (inr (k, f, g)) ↦ rw (f, g) (ground arith)
      ],
    )
  ]

  scheme :
      (u : Url)
      → (allow_non_tls_relay || str_eq u.scheme "wss") ≡ true
      → (str_eq u.scheme "wss" || str_eq u.scheme "ws") ≡ true
      → IsScheme u
  scheme u tls web_socket = elim (Bool-cases (str_eq u.scheme "wss")) [
    | inl e ↦ inl ((str_eq_iff u.scheme "wss").0 e)
    | inr e ↦ inr ((str_eq_iff u.scheme "ws").0 (rw e at web_socket), ground arith)
  ]

  IsAcceptable-ok :
      (relay_url : String)
      → IsAcceptable relay_url
      → check_is_relay_url_acceptable parse_url parse_ip pattern allow_private_ips
          allow_non_tls_relay relay_url
        ≡ ok tt
  unfolding check_is_relay_url_acceptable
  IsAcceptable-ok relay_url (u, parsed, host, scheme, member) =
      let test = (host_test_iff u).1 host in
      let tls : (allow_non_tls_relay || str_eq u.scheme "wss") ≡ true = elim scheme [
        | inl e ↦ rw ((str_eq_iff u.scheme "wss").1 e) (ground arith)
        | inr (e, f) ↦ rw f refl
      ] in
      let web_socket : (str_eq u.scheme "wss" || str_eq u.scheme "ws") ≡ true = elim scheme [
        | inl e ↦ rw ((str_eq_iff u.scheme "wss").1 e) refl
        | inr (e, f) ↦ rw ((str_eq_iff u.scheme "ws").1 e) (ground arith)
      ] in
      if_either (λ (r : Result RelayError (Unit {0})). r ≡ ok tt) (str_eq relay_url "") _ _
        (λ e. refl) λ e. rw (parsed, test, tls, web_socket, member) refl

  ok-IsAcceptable :
      (relay_url : String)
      → check_is_relay_url_acceptable parse_url parse_ip pattern allow_private_ips
          allow_non_tls_relay relay_url
        ≡ ok tt
      → (relay_url ≡ "") ⊎ IsAcceptable relay_url
  unfolding check_is_relay_url_acceptable
  ok-IsAcceptable relay_url h = elim (Bool-cases (str_eq relay_url "")) [
    | inl e ↦ inl ((str_eq_iff relay_url "").0 e)
    | inr e ↦ elim (some_or_none (parse_url relay_url)) [
      | inl f ↦ absurd (refused (rw (e, f) at h))
      | inr (u, f) ↦
          let (host, h₁) = guarded (host_test u) private_ip _ (rw (e, f) at h) in
          let (tls, h₂) = guarded (allow_non_tls_relay || str_eq u.scheme "wss") non_tls _ h₁ in
          let (web_socket, h₃) =
            guarded (str_eq u.scheme "wss" || str_eq u.scheme "ws") not_web_socket _ h₂ in
          inr (u, f, (host_test_iff u).0 host, scheme u tls web_socket, passed _ host_mismatch h₃)
    ]
  ]

  -- The check accepts a relay exactly if none is named, or its URL is one with a host that is a name or a remote
  -- address, or any host if private ones are allowed, with the scheme wss, or ws if that is allowed, and with a host that
  -- the pattern accepts.
  pub check_is_relay_url_acceptable_iff :
      (relay_url : String)
      → (check_is_relay_url_acceptable parse_url parse_ip pattern allow_private_ips
            allow_non_tls_relay relay_url
          ≡ ok tt)
        ↔ ((relay_url ≡ "") ⊎ IsAcceptable relay_url)
  unfolding check_is_relay_url_acceptable
  check_is_relay_url_acceptable_iff relay_url = (
    ok-IsAcceptable relay_url,
    λ h. elim h [
      | inl e ↦ rw ((str_eq_iff relay_url "").1 e) refl
      | inr a ↦ IsAcceptable-ok relay_url a
    ],
  )

-- What a proxy that polled with this body accepts by the pattern that it has sent.
abbrev pub AcceptsRelay :
    ProxyJson → Bytes → (String → Option Url) → (String → Option Bytes) → String → Type 0
AcceptsRelay json body parse_url parse_ip relay_url =
    (req : ProxyPollRequest) × (pattern : String) × (decode_proxy_poll_request json body ≡ ok req)
    × (req.accepted_relay_pattern ≡ some pattern)
    × (check_is_relay_url_acceptable parse_url parse_ip pattern false false relay_url ≡ ok tt)

-- If the broker has registered the poll of a proxy, the proxy accepts, by the pattern of its poll and with the strictest
-- settings, every relay with the scheme wss and a name as its host that the pattern of the broker accepts.
pub proxy_polls_start-AcceptsRelay :
    (json : ProxyJson) (ctx : BrokerContext) (body : Bytes) (poll : ProxyPoll)
    (parse_url : String → Option Url) (parse_ip : String → Option Bytes) (relay_url : String)
    (u : Url)
    → proxy_polls_start json ctx body ≡ ok poll
    → parse_url relay_url ≡ some u
    → u.scheme ≡ "wss"
    → parse_ip u.hostname ≡ none
    → is_member (new_name_matcher (codes ctx.allowed_relay_pattern)) (codes u.hostname) ≡ true
    → AcceptsRelay json body parse_url parse_ip relay_url
proxy_polls_start-AcceptsRelay json ctx body poll parse_url parse_ip relay_url u run parsed secure
      named member =
    let (req, pattern, decoded, valid, given, superset, same_id, same_nat) =
      proxy_polls_start-Registers json ctx body poll run in
    (
      req,
      pattern,
      decoded,
      given,
      IsAcceptable-ok parse_url parse_ip pattern false false relay_url
          (u, parsed, inr (inl named), inl secure, superset (codes u.hostname) member),
    )
