-- ===== src/Amp/Decoder/RoundTrip.antt =====
-- What the encoder of the armor writes, the decoder reads.
use snowflake.Common.{
  ℕ, ◌+◌, leb, ◌==◌, ◌&&◌, ◌||◌, ◌<◌, ◌≡◌, refl, sym, ap, ◌∙◌, Bool, true, false, Option, none,
  some, List, [], ◌∷◌, ◌++◌, length, if◌then◌else◌, arith, inl, if_either,
}
use mathlib.Core.List.{append-nil, append_assoc}
use mathlib.Core.Path.{subst}
use snowflake.Common.Bytes.{Bytes, eqb}
use snowflake.Common.Hex.{AreBytes}
use snowflake.Common.Result.{ok}
use snowflake.Amp.{Encoding, IsEncoding, all, all-front, all-back}
use snowflake.Amp.Armor.{
  Writer, start_tag, end_tag, newline, element_size_limit, ElementEncoder, boilerplate_start,
  boilerplate_end, new_armor_encoder, armor_close, armor, write_all, element_close,
}
use snowflake.Amp.Armor.Framed.{
  is_text, is_plain, unspaced, whole, words, AreTexts, write-more, IsFramed,
}
use snowflake.Amp.Armor.Rounds.{
  element_write-Fine, joined, ArePlain, write_all-IsFramed, element_close-IsWhole,
}
use snowflake.Amp.Decoder.{
  Token, text_token, start_tag_token, end_tag_token, other_token, pre, decode_tokens,
  decode_to_writer, read_versioned, armor_decode, DecodeError, write_words,
}
use snowflake.Amp.Decoder.Words.{Writes, write_words-Writes}

-- Tokens that are no tags of pre elements.
abbrev pub AreOther : List Token → Type 0
AreOther [] = Unit
AreOther (start_tag_token name ∷ ts) = (eqb name pre ≡ false) × AreOther ts
AreOther (end_tag_token name ∷ ts) = (eqb name pre ≡ false) × AreOther ts
AreOther (t ∷ ts) = AreOther ts

abbrev pub before : List Token → List Token × Option ℕ → List Token × Option ℕ
before ts (us, e) = (ts ++ us, e)

abbrev pub is_letter : ℕ → Bool
is_letter c = leb b'a' c && leb c b'z' || leb b'A' c && leb c b'Z'

-- What makes a `<` in front of it the begin of a tag, by the tag open state of the HTML standard; in front of anything
-- else the `<` can be text.
abbrev pub opens_tag : Bytes → Bool
opens_tag [] = false
opens_tag (c ∷ s) = is_letter c || c == b'/'

-- What the tokenizer makes of the parts of a document.
pub record IsTokenizer (tokenize : Bytes → List Token × Option ℕ) : Type 0 where
  -- the header and the trailer have no pre elements
  pub header :
      (rest : Bytes)
      → opens_tag rest ≡ true
      → (ts : List Token) × AreOther ts
        × (tokenize (boilerplate_start ++ b'<' ∷ rest) ≡ before ts (tokenize (b'<' ∷ rest)))
  pub trailer : (ts : List Token) × AreOther ts × (tokenize boilerplate_end ≡ (ts, none))
  -- a pre element with a text that has no markup in it; the buffer has the `</` behind the text too, and SetMaxBuf is
  -- an error from its limit on
  pub element :
      (t rest : Bytes)
      → all is_text t ≡ true
      → 0 < length t
      → length t + 2 < element_size_limit
      → tokenize (start_tag ++ t ++ end_tag ++ rest)
        ≡ before (start_tag_token pre ∷ text_token t ∷ end_tag_token pre ∷ []) (tokenize rest)
  -- a newline in front of a tag
  pub line_end :
      (rest : Bytes)
      → opens_tag rest ≡ true
      → tokenize (newline ++ b'<' ∷ rest)
        ≡ before (text_token newline ∷ []) (tokenize (b'<' ∷ rest))

-- Outside of elements, the tokens give x to the writer.
abbrev Yields : Bytes → List Token × Option ℕ → Type 0
Yields x (ts, e) =
    (w : Writer) (total : ℕ)
    → w.room ≡ none
    → Writes (decode_tokens ts e false w total) (w.written ++ x)

others-Yields :
    (ts us : List Token) (e : Option ℕ) (x : Bytes)
    → AreOther ts
    → Yields x (us, e)
    → Yields x (ts ++ us, e)
unfolding decode_tokens
others-Yields [] us e x other y = y
others-Yields (text_token t ∷ ts) us e x other y = others-Yields ts us e x other y
others-Yields (other_token ∷ ts) us e x other y = others-Yields ts us e x other y
others-Yields (start_tag_token name ∷ ts) us e x (name_other, other) y =
    λ w total room. rw (decode_tokens, name_other) (others-Yields ts us e x other y w total room)
others-Yields (end_tag_token name ∷ ts) us e x (name_other, other) y =
    λ w total room. rw (decode_tokens, name_other) (others-Yields ts us e x other y w total room)

element-Yields :
    (t x : Bytes) (us : List Token) (e : Option ℕ)
    → Yields x (us, e)
    → Yields
        (unspaced t ++ x)
        (before (start_tag_token pre ∷ text_token t ∷ end_tag_token pre ∷ []) (us, e))
unfolding decode_tokens eqb
element-Yields t x us e y = λ w total room.
    let r = write_words (length t) t w total in
    let (fine, free, out) = write_words-Writes (length t) t w total (omega arith) room in
    let next = decode_tokens us e false r.w r.total in
    let (fine', free', out') = y r.w r.total free in
    subst
      (λ (o : Option DecodeError).
        Writes (elim o [ none ↦ next | some x ↦ r ]) (w.written ++ (unspaced t ++ x)))
      (sym fine)
      (fine', free', out' ∙ ap (λ (b : Bytes). b ++ x) out ∙ append_assoc w.written (unspaced t) x)

-- Whole elements and what follows them begin with a tag.
whole_begins :
    (ts : List Bytes) (rest : Bytes)
    → opens_tag rest ≡ true
    → (r : Bytes) × (opens_tag r ≡ true) × (whole ts ++ b'<' ∷ rest ≡ b'<' ∷ r)
whole_begins [] rest opens = (rest, opens, refl)
whole_begins (t ∷ ts) rest opens = (_, refl, refl)

module _ (tokenize : Bytes → List Token × Option ℕ) (laws : IsTokenizer tokenize) where
  -- What follows a pre element begins with a tag.
  whole-Yields :
      (ts : List Bytes) (x rest : Bytes)
      → opens_tag rest ≡ true
      → AreTexts ts
      → Yields x (tokenize (b'<' ∷ rest))
      → Yields (words ts ++ x) (tokenize (whole ts ++ b'<' ∷ rest))
  whole-Yields [] x rest opens texts y = y
  whole-Yields (t ∷ ts) x rest opens ((text, small, pos), texts) y =
      let tail = whole ts ++ b'<' ∷ rest in
      let (r, opens_r, begins) = whole_begins ts rest opens in
      let ih : Yields (words ts ++ x) (tokenize (b'<' ∷ r)) =
        subst (λ (b : Bytes). Yields (words ts ++ x) (tokenize b)) begins
          (whole-Yields ts x rest opens texts y) in
      let line : Yields (words ts ++ x) (tokenize (newline ++ b'<' ∷ r)) =
        subst (Yields (words ts ++ x)) (sym (laws.line_end r opens_r)) (
          others-Yields (text_token newline ∷ []) (tokenize (b'<' ∷ r)).0 (tokenize (b'<' ∷ r)).1
            (words ts ++ x) tt ih) in
      let line' : Yields (words ts ++ x) (tokenize (newline ++ tail)) =
        subst (λ (b : Bytes). Yields (words ts ++ x) (tokenize (newline ++ b))) (sym begins) line in
      let here : Yields (unspaced t ++ (words ts ++ x))
          (tokenize (start_tag ++ t ++ end_tag ++ (newline ++ tail))) =
        subst (Yields (unspaced t ++ (words ts ++ x)))
          (sym (laws.element t (newline ++ tail) text pos small))
          (element-Yields t (words ts ++ x) (tokenize (newline ++ tail)).0
            (tokenize (newline ++ tail)).1 line') in
      let there : start_tag ++ t ++ end_tag ++ (newline ++ tail) ≡ whole (t ∷ ts) ++ b'<' ∷ rest =
        simp append_assoc in
      subst (λ (b : Bytes). Yields b (tokenize (whole (t ∷ ts) ++ b'<' ∷ rest)))
        (sym (append_assoc (unspaced t) (words ts) x))
        (subst (λ (b : Bytes). Yields (unspaced t ++ (words ts ++ x)) (tokenize b)) there here)

  trailer-Yields : Yields [] (tokenize boilerplate_end)
  unfolding decode_tokens
  trailer-Yields =
      let (ts, other, e) = laws.trailer in
      subst (Yields []) (sym e) (
        subst (λ (us : List Token). Yields [] (us, none)) (append-nil ts)
          (others-Yields ts [] none [] other
            (λ w total room. (refl, room, sym (append-nil w.written)))))

  document-Yields :
      (ts : List Bytes)
      → AreTexts ts
      → Yields (words ts) (tokenize (boilerplate_start ++ whole ts ++ boilerplate_end))
  document-Yields ts texts =
      let (end_rest, end_opens, end_is) : (r : Bytes) × (opens_tag r ≡ true)
          × (boilerplate_end ≡ b'<' ∷ r) =
        (_, refl, refl) in
      let body : Yields (words ts) (tokenize (whole ts ++ boilerplate_end)) =
        subst (λ (b : Bytes). Yields b (tokenize (whole ts ++ boilerplate_end)))
          (append-nil (words ts)) (whole-Yields ts [] end_rest end_opens texts trailer-Yields) in
      let (r, opens, begins) = whole_begins ts end_rest end_opens in
      let (us, other, head) = laws.header r opens in
      let inner : Yields (words ts) (tokenize (b'<' ∷ r)) =
        subst (λ (b : Bytes). Yields (words ts) (tokenize b)) begins body in
      let outer : Yields (words ts) (tokenize (boilerplate_start ++ b'<' ∷ r)) =
        subst (Yields (words ts)) (sym head) (
          others-Yields us (tokenize (b'<' ∷ r)).0 (tokenize (b'<' ∷ r)).1 (words ts) other
            inner) in
      let whole_doc : boilerplate_start ++ b'<' ∷ r
          ≡ boilerplate_start ++ whole ts ++ boilerplate_end =
        ap (◌++◌ boilerplate_start) (sym begins)
        ∙ sym (append_assoc boilerplate_start (whole ts) boilerplate_end) in
      subst (λ (b : Bytes). Yields (words ts) (tokenize b)) whole_doc outer

abbrev empty : Writer
empty = record { written = []; room = none }

abbrev Document : Bytes → Bool × Writer → Type 0
Document data' x =
    (x.0 ≡ true)
    × ((ts : List Bytes) × AreTexts ts
        × (words ts ≡ data')
        × (x.1.written ≡ boilerplate_start ++ whole ts ++ boilerplate_end))

armor_close-Document :
    (enc : ElementEncoder) (data' : Bytes)
    → IsFramed boilerplate_start data' enc
    → Document data' (armor_close enc)
unfolding armor_close
armor_close-Document enc data' framed =
    let (fine, h) = element_close-IsWhole boilerplate_start data' enc framed in
    let w = (element_close enc).1 in
    if_either (Document data') (element_close enc).0 _ _
      (λ e. subst (Document data') (sym (write-more w boilerplate_end h.room)) (
        refl,
        (h.elements, h.texts, h.content, ap (λ (b : Bytes). b ++ boilerplate_end) h.written),
      ))
      λ e. absurd (ground arith)

new_armor_encoder-IsFramed :
    ((new_armor_encoder empty).0 ≡ true)
    × IsFramed boilerplate_start (b'0' ∷ []) (new_armor_encoder empty).1
unfolding new_armor_encoder
new_armor_encoder-IsFramed =
    let enc : ElementEncoder = record {
      w = record { written = boilerplate_start; room = none };
      chunk_counter = 0;
      element_counter = 0;
    } in
    element_write-Fine boilerplate_start [] enc (b'0' ∷ []) refl (
      inl (
        refl,
        refl,
        record {
          elements = [];
          room = refl;
          written = sym (append-nil boilerplate_start);
          content = refl;
          texts = tt;
        },
      ))

armor-Document :
    (pieces : List Bytes) → ArePlain pieces → Document (b'0' ∷ joined pieces) (armor empty pieces)
unfolding armor
armor-Document pieces plain =
    let (fine, framed) = new_armor_encoder-IsFramed in
    let enc = (new_armor_encoder empty).1 in
    let (all_written, framed') =
      write_all-IsFramed boilerplate_start (b'0' ∷ []) enc pieces plain framed in
    let enc' = (write_all enc pieces).1 in
    let whole_run : Bool × Writer =
      if (write_all enc pieces).0 then armor_close enc' else (false, enc'.w) in
    if_either (Document (b'0' ∷ joined pieces)) (new_armor_encoder empty).0 whole_run (false, enc.w)
      (λ e.
        if_either (Document (b'0' ∷ joined pieces)) (write_all enc pieces).0 (armor_close enc')
          (false, enc'.w) (λ f. armor_close-Document enc' (b'0' ∷ joined pieces) framed')
          λ f. absurd (ground arith))
      λ e. absurd (ground arith)

joined-ArePlain : (pieces : List Bytes) → all is_plain (joined pieces) ≡ true → ArePlain pieces
joined-ArePlain [] h = tt
joined-ArePlain (p ∷ ps) h =
    (all-front is_plain p (joined ps) h, joined-ArePlain ps (all-back is_plain p (joined ps) h))

-- On a writer that takes everything, and whatever the pieces in which the text of base64 is handed on: the encoder of
-- the armor reports no error, and the decoder reads the data from what it has written, if base64 and the tokenizer
-- read their parts of it as documented.
pub armor_decode-armor :
    (tokenize : Bytes → List Token × Option ℕ)
    → IsTokenizer tokenize
    → (b64 : Encoding) → IsEncoding is_plain b64
    → (data' : Bytes) (pieces : List Bytes) → AreBytes data'
    → joined pieces ≡ b64.encode data'
    → ((armor (record { written = []; room = none }) pieces).0 ≡ true)
      × (armor_decode b64 (tokenize (armor (record { written = []; room = none }) pieces).1.written)
          ≡ ok data')
unfolding armor_decode decode_to_writer read_versioned
armor_decode-armor tokenize laws b64 codec data' pieces bytes cut =
    let plain =
      joined-ArePlain pieces
        (subst (λ (b : Bytes). all is_plain b ≡ true) (sym cut) (codec.letters data')) in
    let (fine, (ts, texts, content, written)) = armor-Document pieces plain in
    let tokens = tokenize (boilerplate_start ++ whole ts ++ boilerplate_end) in
    let d = decode_to_writer empty tokens in
    let (no_error, free, out) = document-Yields tokenize laws ts texts empty 0 refl in
    (
      fine,
      ap (λ (b : Bytes). armor_decode b64 (tokenize b)) written
          ∙ ap (λ (b : Bytes). read_versioned b64 b d.error) (out ∙ content)
          ∙ ap (read_versioned b64 (b'0' ∷ joined pieces)) no_error
          ∙ ap (λ (b : Bytes). read_versioned b64 (b'0' ∷ b) none) cut
          ∙ rw (codec.inverse data' bytes) refl,
    )
