-- ===== src/ProxyLib/RelayUrl.antt =====
-- proxy/lib/snowflake.go and IsLocal of common/util/util.go: which relays a proxy connects to.
-- An IP address is its 4 or 16 bytes, with the methods of net.IP that the code calls; `&` with a mask of high bits is a
-- division. url.Parse and net.ParseIP are parameters.
pub mod Ranges
pub mod Accepts
mod Tests
use Prim.Native.String.{String}
use snowflake.Common.{
  ℕ, ◌/◌, Bool, true, false, not, Option, none, some, List, [], ◌∷◌, ◌++◌, ◌==◌, ◌&&◌, ◌||◌, length,
  get_or, take, drop, replicate, if◌then◌else◌,
}
use snowflake.Common.Bytes.{Bytes, codes, eqb}
use snowflake.Common.Text.{str_eq}
use snowflake.Common.Result.{Result, ok, err, guard, from_option, ◌>>=◌, ◌>>◌}
use snowflake.NameMatcher.{new_name_matcher, is_member}

abbrev pub at : Bytes → ℕ → ℕ
at ip i = get_or ip i 0

abbrev pub v4_in_v6_prefix : Bytes
v4_in_v6_prefix = replicate 10 0 ++ 255 ∷ 255 ∷ []

-- ip.To4()
unfoldable pub to_4 : Bytes → Option Bytes
to_4 ip =
    if length ip == 4
    then some ip
    else (if length ip == 16 && eqb (take 12 ip) v4_in_v6_prefix then some (drop 12 ip) else none)

unfoldable pub is_private : Bytes → Bool
unfolding to_4
is_private ip = elim (to_4 ip) [
  | some ip4 ↦
      at ip4 0 == 10
      || (at ip4 0 == 172 && at ip4 1 / 16 == 1 || at ip4 0 == 192 && at ip4 1 == 168)
  | none ↦ length ip == 16 && at ip 0 / 2 == 126
]

unfoldable pub is_link_local_unicast : Bytes → Bool
unfolding to_4
is_link_local_unicast ip = elim (to_4 ip) [
  | some ip4 ↦ at ip4 0 == 169 && at ip4 1 == 254
  | none ↦ length ip == 16 && (at ip 0 == 254 && at ip 1 / 64 == 2)
]

-- ip.Equal(net.IPv4zero) || ip.Equal(net.IPv6unspecified)
unfoldable pub is_unspecified : Bytes → Bool
unfolding to_4
is_unspecified ip = elim (to_4 ip) [
  | some ip4 ↦ eqb ip4 (replicate 4 0)
  | none ↦ eqb ip (replicate 16 0)
]

unfoldable pub is_loopback : Bytes → Bool
unfolding to_4
is_loopback ip = elim (to_4 ip) [
  | some ip4 ↦ at ip4 0 == 127
  | none ↦ eqb ip (replicate 15 0 ++ 1 ∷ [])
]

-- util.IsLocal
unfoldable pub is_local : Bytes → Bool
unfolding is_private is_link_local_unicast to_4
is_local ip =
    if is_private ip
    then true
    else (if is_link_local_unicast ip
        then true
        else (elim (to_4 ip) [ some ip4 ↦ at ip4 0 == 100 && at ip4 1 / 64 == 1 | none ↦ false ]))

unfoldable pub is_remote_address : Bytes → Bool
unfolding is_local is_unspecified is_loopback
is_remote_address ip = not (is_local ip) && (not (is_unspecified ip) && not (is_loopback ip))

pub record Url : Type 0 where
  pub scheme : String
  pub hostname : String

pub data RelayError : Type 0 where
  bad_url private_ip non_tls not_web_socket host_mismatch : RelayError

-- `none` of parse_ip is the nil address.
unfoldable pub check_is_relay_url_acceptable :
    (parse_url : String → Option Url) (parse_ip : String → Option Bytes)
    → (allowed_host_name_pattern : String) (allow_private_ips allow_non_tls_relay : Bool)
      (relay_url : String)
    → Result RelayError (Unit {0})
unfolding is_remote_address
check_is_relay_url_acceptable parse_url parse_ip allowed_host_name_pattern allow_private_ips
      allow_non_tls_relay relay_url =
    if str_eq relay_url "" then ok tt else do
      u ← from_option (parse_url relay_url) bad_url
      guard
          (allow_private_ips
            || elim (parse_ip u.hostname) [ none ↦ true | some ip ↦ is_remote_address ip ])
          private_ip
      guard (allow_non_tls_relay || str_eq u.scheme "wss") non_tls
      guard (str_eq u.scheme "wss" || str_eq u.scheme "ws") not_web_socket
      guard (is_member (new_name_matcher (codes allowed_host_name_pattern)) (codes u.hostname))
          host_mismatch
