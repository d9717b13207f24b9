-- ===== src/Amp/Path/Tests.antt =====
-- Data of two bytes, with hexadecimal digits in the place of base64.
use snowflake.Common.{[], ◌∷◌, ◌++◌, ◌≡◌, refl, arith, true}
use snowflake.Common.Bytes.{Bytes}
use snowflake.Common.Hex.{hex_encode, hex_decode, digit_hex, hex_decode-hex_encode}
use snowflake.Common.Result.{ok}
use snowflake.Amp.{Encoding, all}
use snowflake.Amp.Path.{encode_path, decode_path, no_slash, decode-encode_path}

abbrev pub hexadecimal : Encoding
hexadecimal = record { encode = hex_encode; decode = hex_decode }

pub letters : (d : Bytes) → all no_slash (hex_encode d) ≡ true
unfolding hex_encode digit_hex
letters [] = refl
letters (b ∷ bs) = ground (arith, letters bs)

decode-encode_path_example :
    (decode_path hexadecimal (encode_path hexadecimal (7 ∷ []) (18 ∷ 255 ∷ []))
      ≡ ok (18 ∷ 255 ∷ []))
    × (decode_path hexadecimal
          (b'0' ∷ (b'a' ∷ b'/' ∷ b'b' ∷ []) ++ b'/' ∷ hex_encode (18 ∷ 255 ∷ []))
        ≡ ok (18 ∷ 255 ∷ []))
decode-encode_path_example =
    decode-encode_path hexadecimal (record { inverse = hex_decode-hex_encode; letters = letters })
      (7 ∷ []) (b'a' ∷ b'/' ∷ b'b' ∷ []) (18 ∷ 255 ∷ []) (omega arith, (omega arith, tt))
