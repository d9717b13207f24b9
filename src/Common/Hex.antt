-- ===== src/Common/Hex.antt =====
-- Package encoding/hex: pairs of digits, of either case; an odd length or another byte is an error.
use Prim.Native.Nat.{ℕ, ◌+◌, ◌-◌, ◌*◌, ◌/◌, ◌%◌, ◌<◌}
use mathlib.Core.Path.{◌≡◌, refl}
use mathlib.Core.Bool.{◌&&◌}
use mathlib.Core.List.{[], ◌∷◌}
use mathlib.Core.Option.{Option, none, some}
use native.Mathlib.Omega.{arith}
use snowflake.Common.Tests.{ltb, leb, if◌then◌else◌}
use snowflake.Common.Bytes.{Bytes}

unfoldable pub hex_digit : ℕ → Option ℕ
hex_digit c =
    if leb b'0' c && leb c b'9'
    then some (c - b'0')
    else if leb b'a' c && leb c b'f'
    then some (c - b'a' + 10)
    else if leb b'A' c && leb c b'F'
    then some (c - b'A' + 10)
    else none

hex_pair : Option ℕ → Option ℕ → Option Bytes → Option Bytes
hex_pair (some a) (some b) (some rest) = some ((16 * a + b) ∷ rest)
hex_pair _ _ _ = none

unfoldable pub hex_decode : Bytes → Option Bytes
unfolding hex_pair hex_digit
hex_decode [] = some []
hex_decode (c ∷ []) = none
hex_decode (c ∷ d ∷ s) = hex_pair (hex_digit c) (hex_digit d) (hex_decode s)

unfoldable pub digit_hex : ℕ → ℕ
digit_hex n = if ltb n 10 then b'0' + n else b'a' + (n - 10)

unfoldable pub hex_encode : Bytes → Bytes
unfolding digit_hex
hex_encode [] = []
hex_encode (b ∷ bs) = digit_hex (b / 16) ∷ digit_hex (b % 16) ∷ hex_encode bs

hex_digit-digit_hex : (n : ℕ) → n < 16 → hex_digit (digit_hex n) ≡ some n
unfolding hex_digit digit_hex
hex_digit-digit_hex n h = ground arith

-- Every element is a byte.
abbrev pub AreBytes : Bytes → Type 0
AreBytes [] = Unit
AreBytes (b ∷ bs) = (b < 256) × AreBytes bs

pub hex_decode-hex_encode : (bs : Bytes) → AreBytes bs → hex_decode (hex_encode bs) ≡ some bs
unfolding hex_decode hex_encode
hex_decode-hex_encode [] h = refl
hex_decode-hex_encode (b ∷ bs) (hb, h) =
    ground (
      arith,
      hex_digit-digit_hex (b / 16),
      hex_digit-digit_hex (b % 16),
      hex_decode-hex_encode bs h,
    )
