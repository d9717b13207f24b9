-- ===== src/ProxyLib/Signaling/Answered.antt =====
-- A proxy and the broker together: what sendAnswer returns for what ProxyAnswers of the broker decides.
use Prim.Native.String.{String}
use snowflake.Common.{
  Bool, true, false, Option, none, some, ◌≤◌, ◌≡◌, refl, sym, ap, arith, inl, inr, length,
  Bool-cases, some_or_none,
}
use snowflake.Common.Bytes.{Bytes, eqb}
use snowflake.Common.Text.{str_eq, str_eq_iff}
use snowflake.Common.Result.{Result, ok, err, ◌>>=◌, guard}
use snowflake.Messages.{IsInverse}
use snowflake.Messages.Sdp.{SessionDescription, deserialize_session_description}
use snowflake.Messages.Proxy.{
  ProxyJson, version, is_major_one, before_dot, encode_answer, encode_answer_response,
  decode_proxy_answer_request, decode_answer_response,
}
use snowflake.Messages.RoundTrip.{decode-encode_answer_response}
use snowflake.Broker.Context.{Ref, BrokerContext, lookup_answer}
use snowflake.Broker.Ipc.{Reply, proxy_answers_start}
use snowflake.Common.Stream.{HttpResponse}
use snowflake.Broker.Http
use snowflake.Broker.Http.{validate_sdp, ipc_proxy_answers}
use snowflake.Broker.Http.Legacy.{read_body_lem}
use snowflake.ProxyLib.Signaling.{
  SignalingError, client_timeout, not_sent, status_code, or_bad, post, send_answer,
}
use snowflake.ProxyLib.Signaling.Polled.{to_broker, post_delivered}

abbrev pub is_some : {A : Type 0} → Option A → Bool
is_some none = false
is_some (some a) = true

-- What the proxy is told: that the answer has no candidate, that the client is gone, or success. If nobody receives the
-- answer at the broker there is no response, and the transport gives up.
abbrev pub answered :
    (has_candidate received : Bool) → Option Ref → Result SignalingError (Unit {0})
answered false received snowflake = err (status_code 400)
answered true received none = err client_timeout
answered true true (some r) = ok tt
answered true false (some r) = err not_sent

-- The transport at a handler that may not respond: customtransport has a ResponseHeaderTimeout.
abbrev pub to_slow_broker :
    (Http.Request → Option Http.Response) → (path : String) → Bytes → Option HttpResponse
to_slow_broker handler path body =
    elim (handler (record { body = body; read_fails = false; nat_type = "" })) [
      | none ↦ none
      | some r ↦ to_broker (λ request. r) path body
    ]

abbrev replied : Option Http.Response → (path : String) → Bytes → Option HttpResponse
replied none path body = none
replied (some r) path body = to_broker (λ request. r) path body

module _ {Url : Type 0} (resolve : Url → (reference : String) → String)
    (handler : Http.Request → Option Http.Response) (path : String) (body : Bytes) where
  post-replied :
      (reply : Option Http.Response)
      → handler (record { body = body; read_fails = false; nat_type = "" }) ≡ reply
      → post resolve (to_slow_broker handler) path body ≡ post resolve (replied reply) path body
  unfolding post
  post-replied none h = rw (post, to_slow_broker, h) refl
  post-replied (some r) h = rw (post, to_slow_broker, h) refl

-- What the broker sends on.
abbrev pub forwarded : Option Ref → (text : String) → Option (Ref × String)
forwarded none text = none
forwarded (some r) text = some (r, text)

module _ (json : ProxyJson) where
  decode_sent :
      (sid text : String) (d : SessionDescription) (body : Bytes)
      → IsInverse json.answer_request some
      → ¬ (sid ≡ "")
      → ¬ (text ≡ "")
      → deserialize_session_description json.object text ≡ some d
      → encode_answer json (record { version = ""; sid = sid; answer = text }) ≡ some body
      → decode_proxy_answer_request json body
        ≡ ok (record { version = version; sid = sid; answer = text })
  unfolding encode_answer decode_proxy_answer_request is_major_one before_dot eqb
  decode_sent sid text d body inv hs ht good h =
      let p : str_eq sid "" ≡ false = ground (arith, str_eq_iff sid "") in
      let q : str_eq text "" ≡ false = ground (arith, str_eq_iff text "") in
      rw (inv _ body h) (rw (p, q, good) refl)

  start_lem :
      (ctx : BrokerContext) (sid text : String) (body response : Bytes)
      → ¬ (text ≡ "")
      → decode_proxy_answer_request json body
        ≡ ok (record { version = version; sid = sid; answer = text })
      → encode_answer_response json (is_some (lookup_answer ctx sid)) ≡ some response
      → proxy_answers_start json ctx body ≡ ok (response, forwarded (lookup_answer ctx sid) text)
  unfolding proxy_answers_start
  start_lem ctx sid text body response ht decoded encoded =
      let q : str_eq text "" ≡ false = ground (arith, str_eq_iff text "") in
      elim (some_or_none (lookup_answer ctx sid)) [
        | inl e ↦
            let f : encode_answer_response json false ≡ some response = rw e at encoded in
            rw (proxy_answers_start, decoded, q, e, f) refl
        | inr (r, e) ↦
            let f : encode_answer_response json true ≡ some response = rw e at encoded in
            rw (proxy_answers_start, decoded, q, e, f) refl
      ]

  -- What ProxyAnswers returns.
  abbrev reply_of : Option Ref → (received : Bool) → Bytes → Option Reply
  reply_of none received response = some (ok response)
  reply_of (some r) true response = some (ok response)
  reply_of (some r) false response = none

  ipc_lem :
      (ctx : BrokerContext) (received : Bool) (text : String) (body response : Bytes)
      (snowflake : Option Ref)
      → proxy_answers_start json ctx body ≡ ok (response, forwarded snowflake text)
      → ipc_proxy_answers json ctx received body ≡ reply_of snowflake received response
  unfolding ipc_proxy_answers
  ipc_lem ctx received text body response none started = rw (ipc_proxy_answers, started) refl
  ipc_lem ctx true text body response (some r) started = rw (ipc_proxy_answers, started) refl
  ipc_lem ctx false text body response (some r) started = rw (ipc_proxy_answers, started) refl

  -- What the proxy makes of it.
  told :
      {Url : Type 0} (resolve : Url → (reference : String) → String) (path : String)
      (body response : Bytes) (received : Bool) (snowflake : Option Ref)
      → IsInverse json.answer_response some
      → length response ≤ 100_000
      → encode_answer_response json (is_some snowflake) ≡ some response
      → (do
        resp ←
            post resolve
              (replied (Http.write_returned (reply_of snowflake received response)))
              path
              body
        success ← or_bad (decode_answer_response json resp)
        guard success client_timeout)
        ≡ answered true received snowflake
  unfolding Http.write_reply post
  told resolve path body response received none inv short encoded =
      let posted =
        post_delivered resolve (λ request. Http.ok_response response) path body response refl
          short in
      rw (posted, decode-encode_answer_response json inv false response encoded) refl
  told resolve path body response true (some r) inv short encoded =
      let posted =
        post_delivered resolve (λ request. Http.ok_response response) path body response refl
          short in
      rw (posted, decode-encode_answer_response json inv true response encoded) refl
  told resolve path body response false (some r) inv short encoded = refl

  -- A proxy that sends an answer to a broker over HTTP, if encoding/json reads the messages as it has written them, the
  -- answer is a session description under a session id that is not empty, and request and response have at most
  -- 100,000 bytes: an answer without a candidate is refused with the status 400; when the session of any other is in
  -- the map of the broker, the broker sends on that answer to the snowflake of the session, and the proxy is told of
  -- success if the answer is received there, and has no response, which is an error of its transport, if it is not; and
  -- when the session is not in the map, the proxy is told that the client has timed out, and nothing is sent.
  pub send_answer-proxy_answers :
      {Url : Type 0} (resolve : Url → (reference : String) → String) (url : Url)
      (serialize : SessionDescription → Option String) (ctx : BrokerContext) (received : Bool)
      (sid text : String) (description parsed : SessionDescription) (body response : Bytes)
      → IsInverse json.answer_request some
      → IsInverse json.answer_response some
      → ¬ (sid ≡ "")
      → ¬ (text ≡ "")
      → serialize description ≡ some text
      → deserialize_session_description json.object text ≡ some parsed
      → encode_answer json (record { version = ""; sid = sid; answer = text }) ≡ some body
      → length body ≤ 100_000
      → encode_answer_response json (is_some (lookup_answer ctx sid)) ≡ some response
      → length response ≤ 100_000
      → (send_answer resolve
            (to_slow_broker (Http.proxy_answers (ipc_proxy_answers json ctx received)))
            json
            serialize
            url
            sid
            description
          ≡ answered (validate_sdp body) received (lookup_answer ctx sid))
        × (proxy_answers_start json ctx body
            ≡ ok (response, forwarded (lookup_answer ctx sid) text))
  unfolding send_answer Http.proxy_answers
  send_answer-proxy_answers resolve url serialize ctx received sid text description parsed body
        response inverse inv hs ht serialized good encoded short marshalled short_response =
      let decoded = decode_sent sid text parsed body inverse hs ht good encoded in
      let snowflake = lookup_answer ctx sid in
      let started = start_lem ctx sid text body response ht decoded marshalled in
      let path = resolve url "answer" in
      let readable =
        read_body_lem (record { body = body; read_fails = false; nat_type = "" }) refl short in
      let handler = Http.proxy_answers (ipc_proxy_answers json ctx received) in
      let returned = ipc_lem ctx received text body response snowflake started in
      (
        elim (Bool-cases (validate_sdp body)) [
          | inl e ↦
              let handled : handler (record { body = body; read_fails = false; nat_type = "" })
                  ≡ Http.write_returned (reply_of snowflake received response) =
                rw (Http.proxy_answers, readable, e, returned) refl in
              rw
                (
                  send_answer,
                  serialized,
                  encoded,
                  post-replied resolve handler path body _ handled,
                  e,
                )
                (told resolve path body response received snowflake inv short_response marshalled)
          | inr e ↦
              let handled : handler (record { body = body; read_fails = false; nat_type = "" })
                  ≡ some (Http.only_status 400) =
                rw (Http.proxy_answers, readable, e) refl in
              rw
                (send_answer, serialized, encoded, post-replied resolve handler path body _ handled)
                (ap (λ (b : Bool). answered b received snowflake) (sym e))
        ],
        started,
      )
