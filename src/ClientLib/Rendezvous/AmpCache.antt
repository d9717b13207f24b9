-- ===== src/ClientLib/Rendezvous/AmpCache.antt =====
-- client/lib/rendezvous_ampcache.go: a rendezvous that gets a page of the broker, through an AMP cache if there is one.
-- The encodings, the tokenizer and the libraries of Amp are parameters; `resolve` is ResolveReference with a path, and
-- `request_of` the host and the rest of the URL of the request that NewRequest makes. What the decoder does with a body
-- that fails is an error.
pub mod Negotiated
mod Tests
use Prim.Native.String.{String}
use snowflake.Common.{
  ℕ, ◌+◌, Bool, not, Option, none, some, List, [], ◌++◌, length, ◌==◌, if◌then◌else◌,
}
use snowflake.Common.Bytes.{Bytes, codes}
use snowflake.Common.Stream.{HttpResponse, ReadError, read_all_limited}
use snowflake.Common.Result.{Result, ok, err, ◌>>=◌, ◌>>◌, guard, from_option}
use snowflake.Amp.{Encoding}
use snowflake.Amp.Path.{encode_path}
use snowflake.Amp.Cache.{Libraries, Url, CacheUrl, cache_url}
use snowflake.Amp.Decoder.{Token, armor_decode}
use snowflake.ClientLib.Rendezvous.{
  RendezvousError, bad_url, round_trip_failed, unexpected_status, read_failed, bad_document,
}
use snowflake.ClientLib.Rendezvous.Http.{HttpRequest, read_limit, fronted}

-- The URL of the request.
pub data Target : Type 0 where
  direct : Url → Target
  cached : CacheUrl → Target

module _ (lib : Libraries) (path_encoding armor_encoding : Encoding)
    (tokenize : Bytes → List Token × Option ℕ) (resolve : Url → (path : Bytes) → Url)
    (request_of : Target → Option (String × String))
    (round_trip : HttpRequest → Option HttpResponse) where
  unfoldable pub target :
      (broker_url : Url)
      → (cache : Option Url) → (cache_breaker enc_poll_req : Bytes) → Option Target
  target broker_url none cache_breaker enc_poll_req = some (
      direct (
        resolve broker_url
          (codes "amp/client/" ++ encode_path path_encoding cache_breaker enc_poll_req)))
  target broker_url (some cache) cache_breaker enc_poll_req =
      elim (cache_url lib
        (resolve broker_url
          (codes "amp/client/" ++ encode_path path_encoding cache_breaker enc_poll_req))
        cache (codes "c")) [ err e ↦ none | ok u ↦ some (cached u) ]

  unfoldable pub get : Target → (fronts : List String) → (random : ℕ) → Option HttpRequest
  unfolding fronted
  get t fronts random = elim (request_of t) [
    | none ↦ none
    | some (host, rest) ↦ some (
        fronted fronts random
          (record { method = "GET"; url_host = host; url_rest = rest; host = host; body = [] }))
  ]

  -- The decoder on the limited reader, and the test of what the reader has left.
  unfoldable pub decode_limited : Bytes × Option ReadError → Result RendezvousError Bytes
  decode_limited (p, some e) = err read_failed
  decode_limited (p, none) = elim (armor_decode armor_encoding (tokenize p)) [
    | err e ↦ err bad_document
    | ok enc_poll_resp ↦ if length p == read_limit + 1 then err read_failed else ok enc_poll_resp
  ]

  -- Exchange
  unfoldable pub exchange :
      (broker_url : Url)
      → (cache : Option Url) → (fronts : List String) → (random : ℕ)
      → (cache_breaker enc_poll_req : Bytes) → Result RendezvousError Bytes
  unfolding target get decode_limited read_all_limited
  exchange broker_url cache fronts random cache_breaker enc_poll_req = do
    t ← from_option (target broker_url cache cache_breaker enc_poll_req) bad_url
    req ← from_option (get t fronts random) bad_url
    resp ← from_option (round_trip req) round_trip_failed
    guard (resp.status_code == 200) unexpected_status
    guard (not resp.has_location) unexpected_status
    decode_limited (read_all_limited resp.body (read_limit + 1))
