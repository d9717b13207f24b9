-- ===== src/Amp/Decoder/Tests.antt =====
-- A small tokenizer, which tells tags of pre elements from other markup and from text, and hexadecimal digits in the place of base64.
use snowflake.Common.{
  ℕ, ◌<◌, ◌≡◌, refl, sym, ap, ◌∙◌, Bool, true, false, Option, none, List, [], ◌∷◌, ◌++◌, length,
  if◌then◌else◌, ◌==◌, ◌&&◌, ◌||◌, get_or, arith,
}
use mathlib.Core.List.{append-nil, append_assoc}
use snowflake.Common.Bytes.{Bytes, eqb}
use snowflake.Common.Hex.{hex_encode, hex_decode, digit_hex, hex_decode-hex_encode}
use snowflake.Common.Result.{ok}
use snowflake.Amp.{Encoding, all}
use snowflake.Amp.Armor.{end_tag, boilerplate_start, boilerplate_end, armor}
use snowflake.Amp.Armor.Framed.{is_text, is_plain}
use snowflake.Amp.Decoder.{
  Token, text_token, start_tag_token, end_tag_token, other_token, pre, armor_decode,
}
use snowflake.Amp.Decoder.RoundTrip.{AreOther, opens_tag, IsTokenizer, armor_decode-armor}

abbrev pub flush : Bytes → List Token
flush [] = []
flush (c ∷ cs) = text_token (c ∷ cs) ∷ []

abbrev pub tag : Bytes → Token
tag name =
    if eqb name pre
    then start_tag_token pre
    else (if eqb name (b'/' ∷ pre) then end_tag_token pre else other_token)

-- Whether a `<` in front begins a tag, a comment or a doctype; else it is text.
abbrev pub opens_markup : Bytes → Bool
opens_markup s = opens_tag s || (get_or s 0 0 == b'!' || get_or s 0 0 == b'?')

-- The flag says that a tag is open.
unfoldable pub scan : Bool → Bytes → Bytes → List Token
scan false seen [] = flush seen
scan true seen [] = []
scan false seen (c ∷ s) =
    let inside = scan true [] s in
    let on = scan false (seen ++ c ∷ []) s in
    if c == b'<' && opens_markup s then flush seen ++ inside else on
scan true seen (c ∷ s) =
    let outside = scan false [] s in
    let on = scan true (seen ++ c ∷ []) s in if c == b'>' then tag seen ∷ outside else on

scan_text :
    (seen t s : Bytes)
    → all is_text t ≡ true
    → opens_markup s ≡ true
    → scan false seen (t ++ b'<' ∷ s) ≡ flush (seen ++ t) ++ scan true [] s
unfolding scan
scan_text seen [] s h opens =
    rw opens (ap (λ (b : Bytes). flush b ++ scan true [] s) (sym (append-nil seen)))
scan_text seen (c ∷ t) s h opens =
    let other : (c == b'<') ≡ false = ground arith in
    rw other (
      scan_text (seen ++ c ∷ []) t s (ground arith) opens
      ∙ ap (λ (b : Bytes). flush b ++ scan true [] s) (append_assoc seen (c ∷ []) t))

flush_text : (t : Bytes) → 0 < length t → flush t ≡ text_token t ∷ []
flush_text [] h = absurd (omega arith)
flush_text (c ∷ t) h = refl

scan_element :
    (t rest : Bytes)
    → all is_text t ≡ true
    → 0 < length t
    → scan false [] (t ++ end_tag ++ rest) ≡ text_token t ∷ end_tag_token pre ∷ scan false [] rest
unfolding scan eqb
scan_element t rest text pos =
    ap (scan false []) (append_assoc t end_tag rest)
    ∙ scan_text [] t (b'/' ∷ b'p' ∷ b'r' ∷ b'e' ∷ b'>' ∷ rest) text refl
    ∙ ap (λ (ts : List Token). ts ++ end_tag_token pre ∷ scan false [] rest) (flush_text t pos)

abbrev pub tokenize : Bytes → List Token × Option ℕ
tokenize b = (scan false [] b, none)

header_tokens : AreOther (scan false [] boilerplate_start)
unfolding scan eqb
header_tokens = tt

pub tokenize-IsTokenizer : IsTokenizer tokenize
unfolding scan eqb
tokenize-IsTokenizer = record {
  header = λ rest opens. (scan false [] boilerplate_start, header_tokens, rw opens refl);
  trailer = (scan false [] boilerplate_end, tt, refl);
  element = λ t rest text pos small.
      ap (λ (ts : List Token). (start_tag_token pre ∷ ts, none)) (scan_element t rest text pos);
  line_end = λ rest opens. rw opens refl;
}

abbrev pub hexadecimal : Encoding
hexadecimal = record { encode = hex_encode; decode = hex_decode }

pub letters : (d : Bytes) → all is_plain (hex_encode d) ≡ true
unfolding hex_encode digit_hex
letters [] = refl
letters (b ∷ bs) = ground (arith, letters bs)

abbrev pieces : List Bytes
pieces = (b'1' ∷ []) ∷ (b'2' ∷ b'f' ∷ b'f' ∷ []) ∷ []

armor_decode-armor_example :
    ((armor (record { written = []; room = none }) pieces).0 ≡ true)
    × (armor_decode hexadecimal
          (tokenize (armor (record { written = []; room = none }) pieces).1.written)
        ≡ ok (18 ∷ 255 ∷ []))
unfolding hex_encode digit_hex
armor_decode-armor_example =
    armor_decode-armor tokenize tokenize-IsTokenizer hexadecimal
      (record { inverse = hex_decode-hex_encode; letters = letters }) (18 ∷ 255 ∷ []) pieces
      (omega arith, (omega arith, tt)) refl
