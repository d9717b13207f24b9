-- ===== src/Common/Stream.antt =====
-- An io.Reader that is read to its end, the response of net/http, whose body is one, and limitedRead of client/lib/rendezvous_http.go, of which
-- proxy/lib/snowflake.go has a copy.
use snowflake.Common.{
  ℕ, ◌+◌, Bool, false, Option, none, some, ◌&&◌, if◌then◌else◌, ◌==◌, leb, take, length, take-all,
  ◌≤◌, ◌≡◌, arith,
}
use snowflake.Common.Bytes.{Bytes}

-- What the reader gives, and whether it then fails or ends.
pub record Stream : Type 0 where
  pub bytes : Bytes
  pub fails : Bool

pub record HttpResponse : Type 0 where
  pub status_code : ℕ
  -- whether there is a Location header that resp.Location accepts
  pub has_location : Bool
  pub body : Stream

pub data ReadError : Type 0 where
  broken unexpected_eof : ReadError

-- io.ReadAll of an io.LimitedReader: after the limit, the reader is not read again.
unfoldable pub read_all_limited : Stream → ℕ → Bytes × Option ReadError
read_all_limited r n =
    (take n r.bytes, if r.fails && leb (length r.bytes + 1) n then some broken else none)

unfoldable pub limited_read : Stream → (limit : ℕ) → Bytes × Option ReadError
unfolding read_all_limited
limited_read r limit =
    let (p, err) = read_all_limited r (limit + 1) in
    elim err [
      | some e ↦ (p, some e)
      | none ↦ if length p == limit + 1 then (take limit p, some unexpected_eof) else (p, none)
    ]

-- A stream that ends within the limit is read whole.
pub limited_read_whole :
    (b : Bytes) (limit : ℕ)
    → length b ≤ limit
    → limited_read (record { bytes = b; fails = false }) limit ≡ (b, none)
unfolding limited_read
limited_read_whole b limit short = rw (take-all (limit + 1) b (omega arith)) (ground arith)
