-- ===== src/Amp/Cache.antt =====
-- common/amp/cache.go: the URL at which an AMP cache serves a page. A string is its bytes. IDNA, SHA-256 with base32,
-- net/url, net.JoinHostPort and path.Join are parameters; of a URL there are the fields and what the methods return.

pub mod Prefix
pub mod Serves
mod Tests
use snowflake.Common.{
  ℕ, Bool, true, false, not, Option, none, some, List, [], ◌∷◌, ◌++◌, length, get_or, leb, ◌==◌,
  ◌&&◌, ◌||◌, if◌then◌else◌,
}
use snowflake.Common.Bytes.{Bytes, codes, eqb}
use snowflake.Common.Result.{Result, ok, err, ◌>>=◌, ◌>>◌, guard, from_option}

pub record Libraries : Type 0 where
  pub to_unicode : Bytes → Option Bytes
  pub to_ascii : Bytes → Option Bytes
  -- the base32 text of the SHA-256 sum, without padding
  pub base32_sum : Bytes → Bytes
  pub path_escape : Bytes → Bytes
  pub path_unescape : Bytes → Option Bytes
  pub path_join : List Bytes → Bytes
  pub join_host_port : Bytes → Bytes → Bytes

pub record Url : Type 0 where
  pub scheme : Bytes
  pub user : Option Bytes
  pub hostname : Bytes
  pub port : Bytes
  pub escaped_path : Bytes
  pub raw_query : Bytes
  pub fragment : Bytes

pub record CacheUrl : Type 0 where
  pub scheme : Bytes
  pub user : Option Bytes
  pub host : Bytes
  pub path : Bytes
  pub raw_path : Bytes
  pub raw_query : Bytes
  pub fragment : Bytes

pub data CacheError : Type 0 where
  bad_content_type bad_scheme has_userinfo bad_port no_host bad_path has_query : CacheError
  has_fragment : CacheError

-- strings.ReplaceAll of one byte.
unfoldable pub replace_all : Bytes → ℕ → Bytes → Bytes
replace_all [] old new = []
replace_all (c ∷ s) old new =
    let rest = replace_all s old new in if c == old then new ++ rest else c ∷ rest

-- Steps 2 and 3.
unfoldable pub replaced : Bytes → Bytes
unfolding replace_all
replaced domain = replace_all (replace_all domain b'-' (codes "--")) b'.' (codes "-")

-- Steps 2 to 4.
unfoldable pub hyphenated : Bytes → Bytes
unfolding replaced
hyphenated domain =
    let prefix = replaced domain in
    if leb 4 (length prefix) && (get_or prefix 2 0 == b'-' && get_or prefix 3 0 == b'-')
    then (codes "0-" ++ prefix) ++ codes "-0"
    else prefix

-- The path component for the scheme.
unfoldable pub scheme_component : Bytes → Option (List Bytes)
scheme_component scheme =
    if eqb scheme (codes "http")
    then some []
    else (if eqb scheme (codes "https") then some (codes "s" ∷ []) else none)

unfoldable pub is_default_port : (scheme port : Bytes) → Bool
is_default_port scheme port =
    eqb port []
    || (eqb scheme (codes "http") && eqb port (codes "80")
        || eqb scheme (codes "https") && eqb port (codes "443"))

abbrev pub is_nil : Option Bytes → Bool
is_nil none = true
is_nil (some u) = false

module _ (lib : Libraries) where
  unfoldable pub domain_prefix_basic : Bytes → Option Bytes
  unfolding hyphenated
  domain_prefix_basic domain = elim (lib.to_unicode domain) [
    | none ↦ none
    | some prefix ↦ lib.to_ascii (hyphenated prefix)
  ]

  unfoldable pub domain_prefix_fallback : Bytes → Bytes
  domain_prefix_fallback domain = lib.base32_sum domain

  unfoldable pub domain_prefix : Bytes → Bytes
  unfolding domain_prefix_basic domain_prefix_fallback
  domain_prefix domain = elim (domain_prefix_basic domain) [
    | none ↦ domain_prefix_fallback domain
    | some prefix ↦ if leb (length prefix) 63 then prefix else domain_prefix_fallback domain
  ]

  unfoldable pub result_host : Url → Url → Bytes
  unfolding domain_prefix
  result_host pub_url cache_url =
      let host = (domain_prefix pub_url.hostname ++ codes ".") ++ cache_url.hostname in
      if eqb cache_url.port [] then host else lib.join_host_port host cache_url.port

  unfoldable pub cache_url :
      (pub_url cache : Url) → (content_type : Bytes) → Result CacheError CacheUrl
  unfolding result_host scheme_component is_default_port
  cache_url pub_url cache content_type = do
    guard (not (eqb content_type [])) bad_content_type
    s ← from_option (scheme_component pub_url.scheme) bad_scheme
    guard (is_nil pub_url.user) has_userinfo
    guard (is_default_port pub_url.scheme pub_url.port) bad_port
    guard (not (eqb pub_url.hostname [])) no_host
    let raw_path = lib.path_join (
        (cache.escaped_path ∷ lib.path_escape content_type ∷ s)
        ++ lib.path_escape pub_url.hostname ∷ pub_url.escaped_path ∷ [])
    path ← from_option (lib.path_unescape raw_path) bad_path
    guard (eqb cache.raw_query []) has_query
    guard (eqb cache.fragment []) has_fragment
    ok (record {
      scheme = cache.scheme;
      user = cache.user;
      host = result_host pub_url cache;
      path = path;
      raw_path = raw_path;
      raw_query = pub_url.raw_query;
      fragment = pub_url.fragment;
    })
