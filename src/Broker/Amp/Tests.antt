-- ===== src/Broker/Amp/Tests.antt =====
-- A poll of one byte and a response of two, with hexadecimal digits in the place of base64.
use mathlib.Core.List.{append-nil}
use snowflake.Common.{◌≡◌, refl, List, [], ◌∷◌, ◌++◌, arith}
use snowflake.Common.Bytes.{Bytes}
use snowflake.Common.Hex.{hex_encode, hex_decode-hex_encode}
use snowflake.Common.Result.{ok}
use snowflake.Amp.Path.{encode_path}
use snowflake.Amp.Path.Tests
use snowflake.Amp.Decoder.{armor_decode}
use snowflake.Amp.Decoder.Tests.{tokenize, tokenize-IsTokenizer, hexadecimal, letters}
use snowflake.Messages.Tests.{client_json}
use snowflake.Broker.Ipc.{Reply}
use snowflake.Broker.Http.{Response}
use snowflake.Broker.Amp.{route, amp_client_offers}
use snowflake.Broker.Amp.Served.{amp_client_offers-Served}

abbrev ipc : Bytes → Reply
ipc b = ok (18 ∷ 255 ∷ [])

abbrev pieces : Bytes → List Bytes
pieces d = hex_encode d ∷ []

abbrev served : Response
served =
    amp_client_offers client_json hexadecimal pieces ipc
      (route ++ encode_path hexadecimal (7 ∷ []) (1 ∷ []))

amp_client_offers-Served_example :
    (served.status ≡ 200) × (armor_decode hexadecimal (tokenize served.body) ≡ ok (18 ∷ 255 ∷ []))
amp_client_offers-Served_example =
    amp_client_offers-Served client_json hexadecimal hexadecimal
      (record { inverse = hex_decode-hex_encode; letters = Tests.letters })
      (record { inverse = hex_decode-hex_encode; letters = letters }) tokenize tokenize-IsTokenizer
      pieces (λ d. append-nil (hex_encode d)) ipc (7 ∷ []) (1 ∷ []) (18 ∷ 255 ∷ [])
      (omega arith, tt) (omega arith, (omega arith, tt)) refl
