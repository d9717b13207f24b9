-- ===== src/Amp/Cache/Tests.antt =====
-- The broker behind a cache.
use snowflake.Common.{none, some, [], ◌≡◌, refl, replicate}
use snowflake.Common.Bytes.{codes, eqb}
use snowflake.Common.Result.{ok}
use mathlib.Core.Logic.{◌↔◌}
use snowflake.Amp.Cache.{
  Libraries, Url, CacheUrl, cache_url, result_host, domain_prefix, domain_prefix_basic, hyphenated,
  replaced, replace_all, scheme_component, is_default_port,
}
use snowflake.Amp.Cache.Prefix.{original, original-replaced}
use snowflake.Amp.Cache.Serves.{Serves, cache_url_iff}

abbrev lib : Libraries
lib = record {
  to_unicode = λ b. some b;
  to_ascii = λ b. some b;
  base32_sum = λ b. replicate 52 b'a';
  path_escape = λ b. b;
  path_unescape = λ b. some b;
  path_join = λ parts. codes "/c/s/snow-flake.example/amp/client/0";
  join_host_port = λ h p. h;
}

abbrev broker : Url
broker = record {
  scheme = codes "https";
  user = none;
  hostname = codes "snow-flake.example";
  port = codes "443";
  escaped_path = codes "/amp/client/0";
  raw_query = [];
  fragment = [];
}

abbrev cdn : Url
cdn = record broker { hostname = codes "cdn.example"; port = []; escaped_path = [] }

abbrev rewritten : CacheUrl
rewritten = record {
  scheme = codes "https";
  user = none;
  host = codes "snow--flake-example.cdn.example";
  path = codes "/c/s/snow-flake.example/amp/client/0";
  raw_path = codes "/c/s/snow-flake.example/amp/client/0";
  raw_query = [];
  fragment = [];
}

rewrites : cache_url lib broker cdn (codes "c") ≡ ok rewritten
unfolding cache_url result_host domain_prefix domain_prefix_basic hyphenated replaced replace_all
    scheme_component is_default_port eqb
rewrites = refl

cache_url_iff_example :
    (cache_url lib broker cdn (codes "c") ≡ ok rewritten)
    ↔ Serves lib broker cdn (codes "c") rewritten
cache_url_iff_example = cache_url_iff lib (λ d. refl) broker cdn (codes "c") rewritten

original-replaced_example : original (replaced broker.hostname) ≡ codes "snow-flake.example"
original-replaced_example = original-replaced broker.hostname refl
