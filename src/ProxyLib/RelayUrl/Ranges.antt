-- ===== src/ProxyLib/RelayUrl/Ranges.antt =====
-- The IPv4 addresses that are not remote, as ranges of numbers of 32 bits.
use snowflake.Common.{
  ℕ, ◌+◌, ◌*◌, ◌<◌, ◌/◌, ◌≡◌, Bool, true, false, not, [], ◌∷◌, ◌++◌, ◌==◌, ◌&&◌, ◌||◌, leb,
  if◌then◌else◌, arith,
}
use snowflake.Common.Bytes.{eqb}
use snowflake.ProxyLib.RelayUrl.{
  to_4, is_private, is_link_local_unicast, is_unspecified, is_loopback, is_local, is_remote_address,
  v4_in_v6_prefix,
}

abbrev pub in_range : (first last n : ℕ) → Bool
in_range first last n = leb first n && leb n last

-- 0.0.0.0, 10/8, 100.64/10, 127/8, 169.254/16, 172.16/12 and 192.168/16
abbrev pub is_reserved : ℕ → Bool
is_reserved n =
    n == 0
    || (in_range 0x0A000000 0x0AFFFFFF n
        || (in_range 0x64400000 0x647FFFFF n
            || (in_range 0x7F000000 0x7FFFFFFF n
                || (in_range 0xA9FE0000 0xA9FEFFFF n
                    || (in_range 0xAC100000 0xAC1FFFFF n || in_range 0xC0A80000 0xC0A8FFFF n)))))

abbrev pub number : (a b c d : ℕ) → ℕ
number a b c d = 16_777_216 * a + (65_536 * b + (256 * c + d))

-- The tests of the code, and those of the ranges, in their orders.
reordered :
    (zero_net ten carrier loop link seventeen home : Bool)
    → (not (if ten || (seventeen || home) then true else (if link then true else carrier))
        && (not zero_net && not loop))
      ≡ not (zero_net || (ten || (carrier || (loop || (link || (seventeen || home))))))
reordered true ten carrier loop link seventeen home = ground arith
reordered false ten carrier loop link seventeen home = ground arith

module _ (a b c d : ℕ) (ha : a < 256) (hb : b < 256) (hc : c < 256) (hd : d < 256) where
  abbrev n : ℕ
  n = number a b c d

  zero_net : (a == 0 && (b == 0 && (c == 0 && (d == 0 && true)))) ≡ (n == 0)
  zero_net = ground arith

  ten : (a == 10) ≡ in_range 0x0A000000 0x0AFFFFFF n
  ten = ground arith

  carrier : (a == 100 && b / 64 == 1) ≡ in_range 0x64400000 0x647FFFFF n
  carrier = ground arith

  loop : (a == 127) ≡ in_range 0x7F000000 0x7FFFFFFF n
  loop = ground arith

  link : (a == 169 && b == 254) ≡ in_range 0xA9FE0000 0xA9FEFFFF n
  link = ground arith

  seventeen : (a == 172 && b / 16 == 1) ≡ in_range 0xAC100000 0xAC1FFFFF n
  seventeen = ground arith

  home : (a == 192 && b == 168) ≡ in_range 0xC0A80000 0xC0A8FFFF n
  home = ground arith

  v4_ranges : is_remote_address (a ∷ b ∷ c ∷ d ∷ []) ≡ not (is_reserved n)
  unfolding is_remote_address is_local is_unspecified is_loopback is_private is_link_local_unicast
      to_4 eqb
  v4_ranges =
      rw (← zero_net, ← ten, ← carrier, ← loop, ← link, ← seventeen, ← home)
        (reordered (a == 0 && (b == 0 && (c == 0 && (d == 0 && true)))) (a == 10)
          (a == 100 && b / 64 == 1) (a == 127) (a == 169 && b == 254) (a == 172 && b / 16 == 1)
          (a == 192 && b == 168))

-- An IPv4 address, also one that is written as an IPv6 address, is remote exactly if it is in none of these ranges.
pub is_remote_address-ranges :
    (a b c d : ℕ)
    → a < 256
    → b < 256
    → c < 256
    → d < 256
    → (is_remote_address (a ∷ b ∷ c ∷ d ∷ []) ≡ not (is_reserved (number a b c d)))
      × (is_remote_address (v4_in_v6_prefix ++ a ∷ b ∷ c ∷ d ∷ [])
          ≡ not (is_reserved (number a b c d)))
unfolding is_remote_address is_local is_unspecified is_loopback is_private is_link_local_unicast
    to_4 eqb
is_remote_address-ranges a b c d ha hb hc hd =
    (v4_ranges a b c d ha hb hc hd, v4_ranges a b c d ha hb hc hd)
