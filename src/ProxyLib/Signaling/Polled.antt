-- ===== src/ProxyLib/Signaling/Polled.antt =====
-- A proxy and the broker together: what pollOffer returns for what ProxyPolls of the broker decides.
use Prim.Native.String.{String}
use snowflake.Common.{
  ℕ, Bool, true, false, Option, none, some, ◌^◌, ◌≤◌, ◌<◌, ◌≡◌, refl, arith, inl, inr, length, ◌∙◌,
}
use snowflake.Common.Bytes.{Bytes, eqb}
use snowflake.Common.Stream.{HttpResponse, limited_read_whole}
use snowflake.Common.Text.{str_eq, str_eq_iff}
use snowflake.Common.Result.{Result, ok, err, ◌>>=◌}
use snowflake.Messages.{pos, IsInverse, status, normal_nat}
use snowflake.Messages.Valid.{IsNat}
use snowflake.Messages.Proxy.{
  ProxyJson, ProxyPollRequest, ProxyPollResponse, version, as_read, encode_poll_request,
  decode_proxy_poll_request, decode_proxy_poll_response, is_major_one, before_dot,
}
use snowflake.Broker.BridgeList.{BridgeInfo}
use snowflake.Broker.Context.{BrokerContext, get_pool}
use snowflake.Broker.Ipc.{ClientOffer}
use snowflake.Broker.Http
use snowflake.Broker.Http.{ipc_proxy_polls}
use snowflake.Broker.Http.Legacy.{read_body_lem}
use snowflake.Broker.Http.Polls.{
  idle, matched, allows, reply_of, IsOffer, offer_only, poll_of, registered, ipc_proxy_polls_lem,
}
use snowflake.ProxyLib.Signaling.{
  SignalingError, bad_response, num_clients, or_bad, without_error, post, poll_offer,
}

-- What the proxy makes of it.
abbrev pub polled :
    (allowed : Bool) (interval : ℕ)
    → Option (ClientOffer × BridgeInfo)
    → Result SignalingError ProxyPollResponse
polled false interval offer = err (bad_response (status "incorrect relay pattern"))
polled true interval none = ok (record (idle interval) { nat = "unknown" })
polled true interval (some (o, info)) = ok (matched interval o info)

abbrev pub to_broker :
    (Http.Request → Http.Response) → (path : String) → Bytes → Option HttpResponse
to_broker handler path body =
    let r = handler (record { body = body; read_fails = false; nat_type = "" }) in
    some (record {
      status_code = r.status;
      has_location = false;
      body = record { bytes = r.body; fails = false };
    })

pub post_delivered :
    {Url : Type 0} (resolve : Url → (reference : String) → String)
    (handler : Http.Request → Http.Response) (path : String) (body response : Bytes)
    → handler (record { body = body; read_fails = false; nat_type = "" })
      ≡ Http.ok_response response
    → length response ≤ 100_000
    → post resolve (to_broker handler) path body ≡ ok response
unfolding post
post_delivered resolve handler path body response handled short =
    rw (post, handled, limited_read_whole response 100_000 short) refl

abbrev registered' : (nat sid proxy_type : String) → ℕ → String → ProxyPollRequest
registered' nat sid proxy_type tokens pattern =
    record (registered nat sid proxy_type (num_clients tokens) pattern) { type = proxy_type }

as_read_lem :
    (req : ProxyPollRequest)
    → req.clients < 2 ^ 63
    → as_read req
      ≡ some (record {
        sid = req.sid;
        version = req.version;
        type = req.type;
        nat = req.nat;
        clients = pos req.clients;
        accepted_relay_pattern = req.accepted_relay_pattern;
      })
as_read_lem req h = ground arith

normal_nat_lem : (nat : String) → IsNat nat → normal_nat nat ≡ some nat
unfolding normal_nat
normal_nat_lem nat (inl e) = rw e refl
normal_nat_lem nat (inr (inl e)) = rw e refl
normal_nat_lem nat (inr (inr e)) = rw e refl

module _ (json : ProxyJson) where
  decode-encode_request :
      (tokens : ℕ) (nat sid proxy_type pattern : String) (body : Bytes)
      → IsInverse json.poll_request as_read
      → ¬ (sid ≡ "")
      → IsNat nat
      → tokens < 2 ^ 63
      → encode_poll_request json (record {
        sid = sid;
        version = "";
        type = proxy_type;
        nat = nat;
        clients = num_clients tokens;
        accepted_relay_pattern = some pattern;
      })
        ≡ some body
      → decode_proxy_poll_request json body
        ≡ ok (registered nat sid proxy_type (num_clients tokens) pattern)
  unfolding encode_poll_request decode_proxy_poll_request is_major_one before_dot normal_nat eqb
  decode-encode_request tokens nat sid proxy_type pattern body inv hs hn ht h =
      let sent : ProxyPollRequest = registered' nat sid proxy_type tokens pattern in
      let e : json.poll_request.unmarshal body
          ≡ some (record {
            sid = sid;
            version = version;
            type = proxy_type;
            nat = nat;
            clients = pos (num_clients tokens);
            accepted_relay_pattern = some pattern;
          }) =
        inv sent body h ∙ as_read_lem sent (omega arith) in
      let q : str_eq sid "" ≡ false = ground (arith, str_eq_iff sid "") in
      rw (decode_proxy_poll_request, e, q, normal_nat_lem nat hn) refl

  decode_reply :
      (allowed : Bool) (interval : ℕ) (ctx : BrokerContext)
      (offer : Option (ClientOffer × BridgeInfo)) (response : Bytes)
      → IsInverse json.poll_response some
      → IsOffer ctx offer
      → json.poll_response.marshal (reply_of allowed interval offer) ≡ some response
      → (or_bad (decode_proxy_poll_response json response) >>= without_error)
        ≡ polled allowed interval offer
  unfolding decode_proxy_poll_response
  decode_reply false interval ctx offer response inv good h = rw (inv _ response h) refl
  decode_reply true interval ctx none response inv good h = rw (inv _ response h) refl
  decode_reply true interval ctx (some (o, info)) response inv good h =
      let q : str_eq o.sdp "" ≡ false = ground (arith, str_eq_iff o.sdp "", good) in
      let r : str_eq o.nat_type "" ≡ false = ground (arith, str_eq_iff o.nat_type "", good) in
      rw (inv _ response h) (rw (q, r) refl)

  -- A proxy that polls a broker over HTTP, if encoding/json reads the messages as it has written them, and request and
  -- response have at most 100,000 bytes: with a session id, a NAT type of the three, and less than 2^63 tokens, it gets
  -- the offer of the client with the address of its bridge, or no offer, each with the interval of its pool; but a
  -- proxy whose relay pattern the broker refuses gets an error alone, without the interval that the broker has sent.
  pub poll_offer-proxy_polls :
      {Url : Type 0} (resolve : Url → (reference : String) → String) (url : Url)
      (ctx later : BrokerContext) (tokens : ℕ) (nat sid proxy_type pattern : String)
      (offer : Option (ClientOffer × BridgeInfo)) (body response : Bytes)
      → IsInverse json.poll_request as_read
      → IsInverse json.poll_response some
      → ¬ (sid ≡ "")
      → IsNat nat
      → tokens < 2 ^ 63
      → IsOffer later offer
      → let request : ProxyPollRequest = record {
        sid = sid;
        version = "";
        type = proxy_type;
        nat = nat;
        clients = num_clients tokens;
        accepted_relay_pattern = some pattern;
      } in
        let interval =
          (get_pool later
            (poll_of (registered nat sid proxy_type (num_clients tokens) pattern))).poll_interval in
        encode_poll_request json request ≡ some body
        → length body ≤ 100_000
        → json.poll_response.marshal (reply_of (allows ctx pattern) interval offer) ≡ some response
        → length response ≤ 100_000
        → poll_offer resolve
            (to_broker (Http.proxy_polls (ipc_proxy_polls json ctx later (offer_only offer))))
            json
            url
            tokens
            nat
            sid
            proxy_type
            pattern
          ≡ polled (allows ctx pattern) interval offer
  unfolding poll_offer Http.proxy_polls Http.write_reply
  poll_offer-proxy_polls resolve url ctx later tokens nat sid proxy_type pattern offer body response
        inverse inv hs hn ht good encoded short marshalled short_response =
      let decoded : decode_proxy_poll_request json body
          ≡ ok (registered nat sid proxy_type (num_clients tokens) pattern) =
        decode-encode_request tokens nat sid proxy_type pattern body inverse hs hn ht encoded in
      let interval =
        (get_pool later
          (poll_of (registered nat sid proxy_type (num_clients tokens) pattern))).poll_interval in
      let replied =
        ipc_proxy_polls_lem json ctx later (num_clients tokens) nat sid proxy_type pattern offer
          body decoded good in
      let handled : Http.proxy_polls (ipc_proxy_polls json ctx later (offer_only offer))
            (record { body = body; read_fails = false; nat_type = "" })
          ≡ Http.ok_response response =
        rw
          (
            Http.proxy_polls,
            read_body_lem (record { body = body; read_fails = false; nat_type = "" }) refl short,
            replied,
            marshalled,
          )
          refl in
      let posted =
        post_delivered resolve
          (Http.proxy_polls (ipc_proxy_polls json ctx later (offer_only offer)))
          (resolve url "proxy") body response handled short_response in
      rw (poll_offer, encoded, posted)
        (decode_reply (allows ctx pattern) interval later offer response inv good marshalled)
