-- ===== src/Broker/Amp/Served.antt =====
-- A poll goes into the path of a URL and the response comes out of a document.
use snowflake.Common.{
  ℕ, ◌<◌, ◌≡◌, refl, sym, ap, false, Option, none, List, [], ◌++◌, length, length-append, arith,
  inl, inr, Bool-cases,
}
use snowflake.Common.Bytes.{
  Bytes, eqb, eqb→eq, eqb_refl, trim_prefix, has_prefix, take-append, drop-append,
}
use snowflake.Common.Hex.{AreBytes}
use snowflake.Common.Result.{ok}
use snowflake.Amp.{Encoding, IsEncoding}
use snowflake.Amp.Path.{encode_path, no_slash, decode-encode_path}
use snowflake.Amp.Armor.Framed.{is_plain}
use snowflake.Amp.Armor.Rounds.{joined}
use snowflake.Amp.Decoder.{Token, armor_decode}
use snowflake.Amp.Decoder.RoundTrip.{IsTokenizer, armor_decode-armor}
use snowflake.Messages.Client.{ClientJson}
use snowflake.Broker.Ipc.{Reply}
use mathlib.Core.Path.{subst}
use snowflake.Amp.Armor.{armor}
use snowflake.Broker.Http.{Response, ok_response}
use snowflake.Broker.Amp.{route, amp_reply, write_armor, amp_client_offers}

trim_prefix-append : (p s : Bytes) → trim_prefix (p ++ s) p ≡ s
unfolding trim_prefix has_prefix
trim_prefix-append p s =
    let sum = length-append p s in
    let front = take-append (length p) p s refl in
    let back = drop-append (length p) p s refl in rw (front, back) (ground (arith, sum, eqb_refl p))

shorter : (p s : Bytes) → 0 < length p → eqb s (p ++ s) ≡ false
shorter p s pos = elim (Bool-cases (eqb s (p ++ s))) [
  | inl e ↦ absurd (omega (arith, length-append p s, ap length (eqb→eq s (p ++ s) e)))
  | inr e ↦ e
]

-- A poll that is written into the path by EncodePath reaches ClientOffers, and what the decoder of the armor reads from
-- the document of the answer, with status 200, is the response that ClientOffers has given, if base64 and the tokenizer
-- read their parts as documented.
pub amp_client_offers-Served :
    (json : ClientJson) (path_encoding armor_encoding : Encoding)
    → IsEncoding no_slash path_encoding
    → IsEncoding is_plain armor_encoding
    → (tokenize : Bytes → List Token × Option ℕ) → IsTokenizer tokenize
    → (pieces : Bytes → List Bytes) → ((d : Bytes) → joined (pieces d) ≡ armor_encoding.encode d)
    → (ipc : Bytes → Reply) (cache_breaker poll response : Bytes) → AreBytes poll
    → AreBytes response
    → ipc poll ≡ ok response
    → let served =
        amp_client_offers json path_encoding pieces ipc
          (route ++ encode_path path_encoding cache_breaker poll) in
      (served.status ≡ 200) × (armor_decode armor_encoding (tokenize served.body) ≡ ok response)
unfolding amp_client_offers amp_reply write_armor
amp_client_offers-Served json path_encoding armor_encoding path_laws armor_laws tokenize laws pieces
      cut ipc cache_breaker poll response poll_bytes response_bytes answered =
    let path = encode_path path_encoding cache_breaker poll in
    let decoded = (decode-encode_path path_encoding path_laws cache_breaker [] poll poll_bytes).0 in
    let e : amp_client_offers json path_encoding pieces ipc (route ++ path)
        ≡ ok_response (armor (record { written = []; room = none }) (pieces response)).1.written =
      rw
        (
          amp_client_offers,
          trim_prefix-append route path,
          shorter route path (omega arith),
          amp_reply,
          decoded,
          answered,
        )
        refl in
    subst
      (λ (served : Response).
        (served.status ≡ 200) × (armor_decode armor_encoding (tokenize served.body) ≡ ok response))
      (sym e)
      (
        refl,
        (armor_decode-armor tokenize laws armor_encoding armor_laws response (pieces response)
            response_bytes (cut response)).1,
      )
