-- ===== src/ClientLib/Rendezvous/Http.antt =====
-- client/lib/rendezvous_http.go: a rendezvous that posts to the broker, with a front domain if there are any.
-- net/url and net/http are parameters: `resolve` is ResolveReference with the request that NewRequest makes of the
-- URL, and `round_trip` is the transport.
use Prim.Native.String.{String}
use snowflake.Common.{ℕ, ◌%◌, Option, none, some, List, [], ◌∷◌, length, get_or, ◌==◌}
use snowflake.Common.Bytes.{Bytes}
use snowflake.Common.Stream.{HttpResponse, ReadError, limited_read}
use snowflake.Common.Result.{Result, ok, err, ◌>>=◌, ◌>>◌, guard, from_option}
use snowflake.ClientLib.Rendezvous.{
  RendezvousError, bad_url, round_trip_failed, unexpected_status, read_failed,
}

pub record HttpRequest : Type 0 where
  pub method : String
  -- req.URL.Host, and the rest of the URL
  pub url_host : String
  pub url_rest : String
  -- req.Host
  pub host : String
  pub body : Bytes

abbrev pub read_limit : ℕ
read_limit = 100_000

-- The random number picks the front.
unfoldable pub fronted : List String → (random : ℕ) → HttpRequest → HttpRequest
fronted [] random req = req
fronted (f ∷ fronts) random req = record req {
  host = req.url_host;
  url_host = get_or (f ∷ fronts) (random % length (f ∷ fronts)) f;
}

-- What is read beside an error is dropped by the callers.
abbrev pub read_whole : Bytes × Option ReadError → Result RendezvousError Bytes
read_whole (p, none) = ok p
read_whole (p, some e) = err read_failed

module _ {Url : Type 0} (resolve : Url → (reference : String) → Option (String × String))
    (round_trip : HttpRequest → Option HttpResponse) where
  unfoldable pub post :
      Url → (reference : String) → List String → (random : ℕ) → Bytes → Option (HttpRequest)
  unfolding fronted
  post url reference fronts random body = elim (resolve url reference) [
    | none ↦ none
    | some (host, rest) ↦ some (
        fronted fronts random
          (record { method = "POST"; url_host = host; url_rest = rest; host = host; body = body }))
  ]

  -- Exchange
  unfoldable pub exchange :
      Url → (fronts : List String) → (random : ℕ) → Bytes → Result RendezvousError Bytes
  unfolding post limited_read
  exchange broker_url fronts random enc_poll_req = do
    req ← from_option (post broker_url "client" fronts random enc_poll_req) bad_url
    resp ← from_option (round_trip req) round_trip_failed
    guard (resp.status_code == 200) unexpected_status
    read_whole (limited_read resp.body read_limit)
