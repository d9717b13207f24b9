-- ===== src/Amp/Armor/Framed.antt =====
-- What elementEncoder has written: whole pre elements, and one that is open.
use snowflake.Common.{
  ℕ, ◌+◌, ◌*◌, ◌<◌, ◌≡◌, refl, sym, ap, ◌∙◌, Bool, true, not, Option, none, List, [], ◌∷◌, ◌++◌,
  length, ◌==◌, ◌&&◌, ◌||◌, if◌then◌else◌, ◌⊎◌, arith, inl, inr, Bool-cases, length-append,
}
use mathlib.Core.List.{append-nil, append_assoc}
use snowflake.Common.Bytes.{Bytes}
use snowflake.Amp.{is_ascii_whitespace, all, all-append}
use snowflake.Amp.Armor.{
  Writer, write, write_within, bytes_per_chunk, chunks_per_element, element_size_limit, start_tag,
  end_tag, newline, ElementEncoder,
}

-- Bytes that stand for themselves in the text of an element.
abbrev pub is_text : ℕ → Bool
is_text b = not (b == b'<' || (b == b'&' || b == 13))

abbrev pub is_plain : ℕ → Bool
is_plain b = is_text b && not (is_ascii_whitespace b)

abbrev pub unspaced : Bytes → Bytes
unspaced [] = []
unspaced (b ∷ bs) = if is_ascii_whitespace b then unspaced bs else b ∷ unspaced bs

-- The pre elements with these texts, and what their words are.
abbrev pub whole : List Bytes → Bytes
whole [] = []
whole (t ∷ ts) = start_tag ++ t ++ end_tag ++ newline ++ whole ts

abbrev pub words : List Bytes → Bytes
words [] = []
words (t ∷ ts) = unspaced t ++ words ts

-- Texts that leave room for the two bytes of the next tag within the limit of the decoder.
abbrev pub AreTexts : List Bytes → Type 0
AreTexts [] = Unit
AreTexts (t ∷ ts) =
    ((all is_text t ≡ true) × (length t + 2 < element_size_limit) × (0 < length t)) × AreTexts ts

unspaced-append : (xs ys : Bytes) → unspaced (xs ++ ys) ≡ unspaced xs ++ unspaced ys
unspaced-append [] ys = refl
unspaced-append (x ∷ xs) ys = elim (Bool-cases (is_ascii_whitespace x)) [
  | inl e ↦ rw (e, unspaced-append xs ys) refl
  | inr e ↦ rw (e, unspaced-append xs ys) refl
]

pub plain-unspaced : (xs : Bytes) → all is_plain xs ≡ true → unspaced xs ≡ xs
plain-unspaced [] h = refl
plain-unspaced (x ∷ xs) h = ground (arith, plain-unspaced xs)

pub plain-text : (xs : Bytes) → all is_plain xs ≡ true → all is_text xs ≡ true
plain-text [] h = refl
plain-text (x ∷ xs) h = ground (arith, plain-text xs)

whole-append :
    (ts : List Bytes) (t : Bytes)
    → whole (ts ++ t ∷ []) ≡ whole ts ++ start_tag ++ t ++ end_tag ++ newline
whole-append [] t = simp append_assoc
whole-append (u ∷ ts) t = rw (whole-append ts t) (simp append_assoc)

words-append : (ts : List Bytes) (t : Bytes) → words (ts ++ t ∷ []) ≡ words ts ++ unspaced t
words-append [] t = append-nil (unspaced t)
words-append (u ∷ ts) t =
    rw (words-append ts t) (sym (append_assoc (unspaced u) (words ts) (unspaced t)))

AreTexts-append :
    (ts : List Bytes) (t : Bytes)
    → AreTexts ts
    → (all is_text t ≡ true) × (length t + 2 < element_size_limit) × (0 < length t)
    → AreTexts (ts ++ t ∷ [])
AreTexts-append [] t h k = (k, tt)
AreTexts-append (u ∷ ts) t (h, hs) k = (h, AreTexts-append ts t hs k)

-- Behind `base`, whole elements with the data in them.
pub record IsWhole (base data' : Bytes) (w : Writer) : Type 0 where
  pub elements : List Bytes
  pub room : w.room ≡ none
  pub written : w.written ≡ base ++ whole elements
  pub content : words elements ≡ data'
  pub texts : AreTexts elements

-- The same and an open element, whose text has m bytes.
pub record IsOpen (base data' : Bytes) (m : ℕ) (w : Writer) : Type 0 where
  pub elements : List Bytes
  pub current : Bytes
  pub room : w.room ≡ none
  pub size : length current ≡ m
  pub written : w.written ≡ (base ++ whole elements) ++ start_tag ++ current
  pub content : words elements ++ unspaced current ≡ data'
  pub texts : AreTexts elements
  pub text : all is_text current ≡ true

abbrev pub more : Writer → Bytes → Writer
more w p = record { written = w.written ++ p; room = none }

pub write-more : (w : Writer) (p : Bytes) → w.room ≡ none → write w p ≡ (true, more w p)
unfolding write write_within
write-more w p h = ap (λ (o : Option ℕ). write_within o w.written p) h

module _ (base data' : Bytes) where
  pub opened :
      (w : Writer) → IsWhole base data' w → IsOpen base data' 1 (more w (start_tag ++ newline))
  opened w h = record {
    elements = h.elements;
    current = newline;
    room = refl;
    size = refl;
    written = rw h.written (simp append_assoc);
    content = append-nil (words h.elements) ∙ h.content;
    texts = h.texts;
    text = refl;
  }

  pub extended :
      (m : ℕ) (w : Writer) (q : Bytes)
      → all is_text q ≡ true
      → IsOpen base data' m w
      → IsOpen base (data' ++ unspaced q) (m + length q) (more w q)
  extended m w q safe h = record {
    elements = h.elements;
    current = h.current ++ q;
    room = refl;
    size = omega (arith, length-append h.current q, h.size);
    written = ap (λ (x : Bytes). x ++ q) h.written ∙ simp append_assoc;
    content =
        rw (unspaced-append h.current q, ← h.content)
          (sym (append_assoc (words h.elements) (unspaced h.current) (unspaced q)));
    texts = h.texts;
    text = all-append is_text h.current q h.text safe;
  }

  pub ended :
      (m : ℕ) (w : Writer)
      → 0 < m
      → m + 2 < element_size_limit
      → IsOpen base data' m w
      → IsWhole base data' (more w (end_tag ++ newline))
  ended m w pos small h = record {
    elements = h.elements ++ h.current ∷ [];
    room = refl;
    written = rw (h.written, whole-append h.elements h.current) (simp append_assoc);
    content = words-append h.elements h.current ∙ h.content;
    texts =
        AreTexts-append h.elements h.current h.texts
          (h.text, omega (arith, h.size), omega (arith, h.size));
  }

-- What Write has written: the counters tell how long the open element is.
abbrev pub IsFramed : (base data' : Bytes) → ElementEncoder → Type 0
IsFramed base data' enc =
    ((enc.element_counter ≡ 0) × (enc.chunk_counter ≡ 0) × IsWhole base data' enc.w)
    ⊎ ((enc.chunk_counter < bytes_per_chunk)
        × (enc.element_counter < chunks_per_element)
        × (0 < enc.element_counter + enc.chunk_counter)
        × IsOpen base data' (1 + (33 * enc.element_counter + enc.chunk_counter)) enc.w)
