-- ===== src/Amp/Cache/Serves.antt =====
-- Which URLs are served through a cache, and where.
use snowflake.Common.{
  true, false, none, some, Option, List, [], ◌∷◌, ◌++◌, length, ◌⊎◌, ◌≤◌, ◌≡◌, refl, arith, ap,
  some_or_none, inl, inr, Bool-cases,
}
use mathlib.Core.Path.{subst}
use mathlib.Core.Logic.{◌↔◌}
use snowflake.Common.Bytes.{Bytes, codes, eqb, eqb→eq}
use snowflake.Common.Result.{ok}
use snowflake.Amp.Cache.Prefix.{domain_prefix_fits}
use snowflake.Amp.Cache.{
  Libraries, Url, CacheUrl, is_nil, scheme_component, is_default_port, domain_prefix, result_host,
  cache_url,
}

-- The scheme of a page with the port that it may name, and what stands for it in the path.
abbrev pub IsScheme : (scheme port : Bytes) → (components : List Bytes) → Type 0
IsScheme scheme port components =
    ((scheme ≡ codes "http") × ((port ≡ []) ⊎ (port ≡ codes "80")) × (components ≡ []))
    ⊎ ((scheme ≡ codes "https")
        × ((port ≡ []) ⊎ (port ≡ codes "443"))
        × (components ≡ codes "s" ∷ []))

-- The prefix of the page's domain as a subdomain of the cache, at the port of the cache.
abbrev pub IsHost : Libraries → (pub_url cache : Url) → Bytes → Type 0
IsHost lib pub_url cache host =
    let name = domain_prefix lib pub_url.hostname ++ codes "." ++ cache.hostname in
    ((cache.port ≡ []) × (host ≡ name))
    ⊎ ((¬ (cache.port ≡ [])) × (host ≡ lib.join_host_port name cache.port))

-- The page can be served, and r is where.
abbrev pub Serves : Libraries → (pub_url cache : Url) → (content_type : Bytes) → CacheUrl → Type 0
Serves lib pub_url cache content_type r =
    (components : List Bytes) × IsScheme pub_url.scheme pub_url.port components
    × (¬ (content_type ≡ []))
    × (pub_url.user ≡ none)
    × (¬ (pub_url.hostname ≡ []))
    × (cache.raw_query ≡ [])
    × (cache.fragment ≡ [])
    × IsHost lib pub_url cache r.host
    × (length (domain_prefix lib pub_url.hostname) ≤ 63)
    × (r.raw_path
        ≡ lib.path_join (
            cache.escaped_path
            ∷ lib.path_escape content_type
            ∷ (components ++ lib.path_escape pub_url.hostname ∷ pub_url.escaped_path ∷ [])))
    × (lib.path_unescape r.raw_path ≡ some r.path)
    × (r.scheme ≡ cache.scheme)
    × (r.user ≡ cache.user)
    × (r.raw_query ≡ pub_url.raw_query)
    × (r.fragment ≡ pub_url.fragment)

empty_or_not : (b : Bytes) → (eqb b [] ≡ true → b ≡ []) × (eqb b [] ≡ false → ¬ (b ≡ []))
unfolding eqb
empty_or_not [] = ((λ e. refl), λ e. absurd (ground arith))
empty_or_not (c ∷ b) =
    ((λ e. absurd (ground arith)), λ e f. absurd (ground (arith, ap (λ x. eqb x []) f)))

not_empty : (b : Bytes) → ¬ (b ≡ []) → eqb b [] ≡ false
not_empty b h = elim (Bool-cases (eqb b [])) [
  | inl e ↦ absurd (h ((empty_or_not b).0 e))
  | inr e ↦ e
]

http_only : (scheme : Bytes) → eqb scheme (codes "http") ≡ true → eqb scheme (codes "https") ≡ false
unfolding eqb
http_only scheme e = rw (eqb→eq scheme (codes "http") e) refl

scheme-IsScheme :
    (scheme port : Bytes) (s : List Bytes)
    → scheme_component scheme ≡ some s
    → is_default_port scheme port ≡ true
    → IsScheme scheme port s
unfolding scheme_component is_default_port
scheme-IsScheme scheme port s h p = elim (Bool-cases (eqb scheme (codes "http"))) [
  | inl e ↦ elim (Bool-cases (eqb port [])) [
    | inl f ↦ inl (eqb→eq scheme (codes "http") e, inl (eqb→eq port [] f), ground arith)
    | inr f ↦ inl (
      eqb→eq scheme (codes "http") e,
      inr (eqb→eq port (codes "80") (ground (arith, http_only scheme e))),
      ground arith,
    )
  ]
  | inr e ↦ elim (Bool-cases (eqb scheme (codes "https"))) [
    | inl f ↦ elim (Bool-cases (eqb port [])) [
      | inl g ↦ inr (eqb→eq scheme (codes "https") f, inl (eqb→eq port [] g), ground arith)
      | inr g ↦ inr (
        eqb→eq scheme (codes "https") f,
        inr (eqb→eq port (codes "443") (ground arith)),
        ground arith,
      )
    ]
    | inr f ↦ absurd (ground arith)
  ]
]

IsScheme-scheme :
    (scheme port : Bytes) (s : List Bytes)
    → IsScheme scheme port s
    → (scheme_component scheme ≡ some s) × (is_default_port scheme port ≡ true)
unfolding scheme_component is_default_port eqb
IsScheme-scheme scheme port s (inl (e, inl p, c)) = (rw (e, c) refl, rw (e, p) refl)
IsScheme-scheme scheme port s (inl (e, inr p, c)) = (rw (e, c) refl, rw (e, p) refl)
IsScheme-scheme scheme port s (inr (e, inl p, c)) = (rw (e, c) refl, rw (e, p) refl)
IsScheme-scheme scheme port s (inr (e, inr p, c)) = (rw (e, c) refl, rw (e, p) refl)

module _ (lib : Libraries) (pub_url cache : Url) where
  result_host-IsHost : IsHost lib pub_url cache (result_host lib pub_url cache)
  unfolding result_host
  result_host-IsHost = elim (Bool-cases (eqb cache.port [])) [
    | inl e ↦ inl ((empty_or_not cache.port).0 e, rw e refl)
    | inr e ↦ inr ((empty_or_not cache.port).1 e, rw e refl)
  ]

  IsHost-result_host :
      (host : Bytes) → IsHost lib pub_url cache host → host ≡ result_host lib pub_url cache
  unfolding result_host eqb
  IsHost-result_host host (inl (e, h)) = rw e h
  IsHost-result_host host (inr (e, h)) = rw (not_empty cache.port e) h

  is_nil_lem : (u : Option Bytes) → is_nil u ≡ true → u ≡ none
  is_nil_lem none h = refl
  is_nil_lem (some x) h = ground arith

  abbrev raw_of : (content_type : Bytes) (components : List Bytes) → Bytes
  raw_of content_type components = lib.path_join (
      cache.escaped_path
      ∷ lib.path_escape content_type
      ∷ (components ++ lib.path_escape pub_url.hostname ∷ pub_url.escaped_path ∷ []))

  cache_url-Serves :
      ((d : Bytes) → length (lib.base32_sum d) ≡ 52)
      → (content_type : Bytes) (r : CacheUrl) → cache_url lib pub_url cache content_type ≡ ok r
      → Serves lib pub_url cache content_type r
  unfolding cache_url
  cache_url-Serves sum content_type r h = elim (some_or_none (scheme_component pub_url.scheme)) [
    | inl e ↦ ground arith
    | inr (s, e) ↦ elim (some_or_none (lib.path_unescape (raw_of content_type s))) [
      | inl f ↦ ground arith
      | inr (path, f) ↦
          let host : result_host lib pub_url cache ≡ r.host = ground arith in
          (
            s,
            scheme-IsScheme pub_url.scheme pub_url.port s e (ground arith),
            (empty_or_not content_type).1 (ground arith),
            is_nil_lem pub_url.user (ground arith),
            (empty_or_not pub_url.hostname).1 (ground arith),
            (empty_or_not cache.raw_query).0 (ground arith),
            (empty_or_not cache.fragment).0 (ground arith),
            subst (IsHost lib pub_url cache) host result_host-IsHost,
            domain_prefix_fits lib sum pub_url.hostname,
            ground arith,
            ground arith,
            ground arith,
            ground arith,
            ground arith,
            ground arith,
          )
    ]
  ]

  Serves-cache_url :
      (content_type : Bytes) (r : CacheUrl)
      → Serves lib pub_url cache content_type r
      → cache_url lib pub_url cache content_type ≡ ok r
  unfolding cache_url eqb
  Serves-cache_url content_type r
        (
          s, scheme, typed, user, named, query, fragment, host, short, raw, path, same_scheme,
          same_user, same_query, same_fragment,
        ) =
      let (component, port) = IsScheme-scheme pub_url.scheme pub_url.port s scheme in
      let path' : lib.path_unescape (raw_of content_type s) ≡ some r.path = rw raw at path in
      rw
        (
          cache_url,
          not_empty content_type typed,
          component,
          user,
          port,
          not_empty pub_url.hostname named,
          path',
          query,
          fragment,
          ← IsHost-result_host r.host host,
          ← raw,
          ← same_scheme,
          ← same_user,
          ← same_query,
          ← same_fragment,
        )
        refl

-- If the base32 text of a SHA-256 sum has 52 letters: CacheURL returns a URL exactly when it is the one of a page that
-- can be served. Such a page has the scheme http, alone or with port 80, or https, alone or with port 443, a host and
-- no user; the content type is not empty, and the URL of the cache has no query and no fragment. The new host is a
-- prefix of at most 63 bytes, a dot and the host of the cache, with the port of the cache if it has one. The new path,
-- escaped and unescaped, joins the path of the cache, the content type, `s` for https alone, the host and the path of
-- the page; scheme and user are those of the cache, query and fragment those of the page.
pub cache_url_iff :
    (lib : Libraries)
    → ((d : Bytes) → length (lib.base32_sum d) ≡ 52)
    → (pub_url cache : Url) (content_type : Bytes) (r : CacheUrl)
    → (cache_url lib pub_url cache content_type ≡ ok r) ↔ Serves lib pub_url cache content_type r
cache_url_iff lib sum pub_url cache content_type r = (
  cache_url-Serves lib pub_url cache sum content_type r,
  Serves-cache_url lib pub_url cache content_type r,
)
