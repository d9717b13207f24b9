-- ===== src/Amp/Decoder.antt =====
-- common/amp/armor_decoder.go: the words of the pre elements of a document.
-- The tokenizer of golang.org/x/net/html is a parameter: the tokens of a document, and the error behind them, if it is
-- not io.EOF. The scanner hands the rest of a text to its split function as if it was at its end, which finds the same
-- words. The pipe to the reader takes everything, or fails as a writer does.
mod Words
pub mod RoundTrip
pub mod Tests
use snowflake.Common.{
  ℕ, zero, suc, ◌+◌, ◌-◌, Bool, true, false, not, Option, none, some, List, [], ◌∷◌, ◌++◌, length,
  take, drop, ltb, leb, ◌==◌, ◌&&◌, if◌then◌else◌,
}
use snowflake.Common.Bytes.{Bytes, codes, eqb}
use snowflake.Common.Result.{Result, ok, err, from_option}
use snowflake.Amp.{Encoding, is_ascii_whitespace}
use snowflake.Amp.Armor.{Writer, write}

pub data Token : Type 0 where
  text_token start_tag_token end_tag_token : Bytes → Token
  -- a self-closing tag, a comment or a doctype
  other_token : Token

pub data DecodeError : Type 0 where
  missing_end nested stray write_failed bad_base64 end_of_file : DecodeError
  unknown_version tokenizer_error : ℕ → DecodeError

-- How many bytes at the front pass the test.
unfoldable pub count_while : (ℕ → Bool) → Bytes → ℕ
count_while f [] = 0
count_while f (b ∷ bs) = let n = count_while f bs in if f b then suc n else 0

-- The advance and the token.
unfoldable pub split_ascii_whitespace : Bytes → (at_eof : Bool) → ℕ × Option Bytes
unfolding count_while
split_ascii_whitespace data' at_eof =
    let i = count_while is_ascii_whitespace data' in
    let j = i + count_while (λ b. not (is_ascii_whitespace b)) (drop i data') in
    if ltb j (length data')
    then (j + 1, some (take (j - i) (drop i data')))
    else (if at_eof && ltb i j then (j, some (take (j - i) (drop i data'))) else (i, none))

pub record Decoded : Type 0 where
  pub w : Writer
  pub total : ℕ
  pub error : Option DecodeError

-- The body of the loop over the words, with the rounds that follow it.
unfoldable pub write_word :
    (rounds : (advance : ℕ) → Writer → (total : ℕ) → Decoded)
    → Writer
    → (total : ℕ) → ℕ × Option Bytes
    → Decoded
unfolding write
write_word rounds w total (advance, none) = record { w = w; total = total; error = none }
write_word rounds w total (advance, some word) =
    let (fine, w') = write w word in
    let rest = rounds advance w' (total + length word) in
    if fine then rest else record {
      w = w';
      total = total + (length w'.written - length w.written);
      error = some write_failed;
    }

-- `for scanner.Scan() { n, err := w.Write(scanner.Bytes()) … }`; a token takes a byte at least.
unfoldable pub write_words : (fuel : ℕ) → Bytes → Writer → (total : ℕ) → Decoded
unfolding split_ascii_whitespace write_word
write_words zero text w total = record { w = w; total = total; error = none }
write_words (suc fuel) text w total =
    write_word (λ advance w' t. write_words fuel (drop advance text) w' t) w total
      (split_ascii_whitespace text true)

abbrev pub pre : Bytes
pre = codes "pre"

-- The loop of decodeToWriter.
unfoldable pub decode_tokens :
    List Token → (tokenizer_err : Option ℕ) → (active : Bool) → Writer → (total : ℕ) → Decoded
unfolding write_words
decode_tokens [] (some e) active w total = record {
  w = w;
  total = total;
  error = some (tokenizer_error e);
}
decode_tokens [] none active w total = record {
  w = w;
  total = total;
  error = if active then some missing_end else none;
}
decode_tokens (text_token t ∷ ts) e active w total =
    let r = write_words (length t) t w total in
    let next = decode_tokens ts e active r.w r.total in
    let rest = decode_tokens ts e active w total in
    if active then elim r.error [ none ↦ next | some x ↦ r ] else rest
decode_tokens (start_tag_token name ∷ ts) e active w total =
    let opened = decode_tokens ts e true w total in
    let rest = decode_tokens ts e active w total in
    if eqb name pre
    then (if active then record { w = w; total = total; error = some nested } else opened)
    else rest
decode_tokens (end_tag_token name ∷ ts) e active w total =
    let closed = decode_tokens ts e false w total in
    let rest = decode_tokens ts e active w total in
    if eqb name pre
    then (if active then closed else record { w = w; total = total; error = some stray })
    else rest
decode_tokens (other_token ∷ ts) e active w total = decode_tokens ts e active w total

unfoldable pub decode_to_writer : Writer → List Token × Option ℕ → Decoded
unfolding decode_tokens
decode_to_writer w (ts, e) = decode_tokens ts e false w 0

-- The reader of NewArmorDecoder on what decodeToWriter has given to the pipe: an error comes behind the data.
unfoldable pub read_versioned : Encoding → Bytes → Option DecodeError → Result DecodeError Bytes
read_versioned b64 [] error = err (elim error [ none ↦ end_of_file | some e ↦ e ])
read_versioned b64 (version ∷ rest) error =
    if version == b'0'
    then elim error [ none ↦ from_option (b64.decode rest) bad_base64 | some e ↦ err e ]
    else err (unknown_version version)

-- NewArmorDecoder, and the whole of what its reader gives.
unfoldable pub armor_decode : Encoding → List Token × Option ℕ → Result DecodeError Bytes
unfolding decode_to_writer read_versioned
armor_decode b64 tokens =
    let d = decode_to_writer (record { written = []; room = none }) tokens in
    read_versioned b64 d.w.written d.error
