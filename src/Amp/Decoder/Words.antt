-- ===== src/Amp/Decoder/Words.antt =====
-- The scanner finds the words of a text: what is left of it without white space.
use snowflake.Common.{
  ℕ, zero, suc, ◌+◌, ◌-◌, ◌<◌, ◌≤◌, ◌≡◌, refl, sym, ap, ◌∙◌, Bool, true, not, Option, none, some,
  [], ◌∷◌, ◌++◌, length, take, drop, ltb, if◌then◌else◌, arith, inl, inr, Bool-cases, length-drop,
  drop-drop, drop-all, ◌⊎◌,
}
use mathlib.Core.List.{append-nil, append_assoc}
use mathlib.Core.Path.{subst}
use snowflake.Common.Bytes.{Bytes}
use snowflake.Amp.{is_ascii_whitespace}
use snowflake.Amp.Armor.{Writer}
use snowflake.Amp.Armor.Framed.{unspaced, more, write-more}
use snowflake.Amp.Decoder.{
  count_while, split_ascii_whitespace, Decoded, write_word, write_words, write_failed,
}

abbrev is_black : ℕ → Bool
is_black b = not (is_ascii_whitespace b)

count_while-length : (f : ℕ → Bool) (s : Bytes) → count_while f s ≤ length s
unfolding count_while
count_while-length f [] = omega arith
count_while-length f (b ∷ bs) = ground (arith, count_while-length f bs)

spaces_gone : (s : Bytes) → unspaced (drop (count_while is_ascii_whitespace s) s) ≡ unspaced s
unfolding count_while
spaces_gone [] = refl
spaces_gone (b ∷ bs) = elim (Bool-cases (is_ascii_whitespace b)) [
  | inl e ↦ rw e (spaces_gone bs)
  | inr e ↦ rw e (rw e refl)
]

-- A word and the white space behind it.
word_first :
    (s : Bytes)
    → unspaced s
      ≡ take (count_while is_black s) s ++ unspaced (drop (suc (count_while is_black s)) s)
unfolding count_while
word_first [] = refl
word_first (b ∷ bs) = elim (Bool-cases (is_ascii_whitespace b)) [
  | inl e ↦ rw e refl
  | inr e ↦ rw (e, word_first bs) refl
]

-- A word at the front, or no word at all.
Split : Bytes → Type 0
Split text =
    ((i : ℕ) × (split_ascii_whitespace text true ≡ (i, none)) × (unspaced text ≡ []))
    ⊎ ((advance : ℕ) × (word : Bytes) × (split_ascii_whitespace text true ≡ (advance, some word))
        × (0 < advance)
        × (unspaced text ≡ word ++ unspaced (drop advance text)))

split_ascii_whitespace_lem : (text : Bytes) → Split text
unfolding Split split_ascii_whitespace
split_ascii_whitespace_lem text =
    let i = count_while is_ascii_whitespace text in
    let s = drop i text in
    let k = count_while is_black s in
    let j = i + k in
    let found : unspaced text ≡ take k s ++ unspaced (drop (suc k) s) =
      sym (spaces_gone text) ∙ word_first s in
    let same : take (j - i) s ≡ take k s = ap (λ (n : ℕ). take n s) (omega arith) in
    elim (Bool-cases (ltb j (length text))) [
      | inl e ↦ inr (
        j + 1,
        take (j - i) s,
        rw e refl,
        omega arith,
        found
            ∙ rw same (
                ap (λ (x : Bytes). take k s ++ unspaced x)
                  (drop-drop i (suc k) text ∙ ap (λ (n : ℕ). drop n text) (omega arith))),
      )
      | inr e ↦
          let here : length s ≡ length text - i = length-drop i text in
          elim (Bool-cases (ltb i j)) [
            | inl f ↦ inr (
              j,
              take (j - i) s,
              rw (e, f) refl,
              ground arith,
              found
                  ∙ rw same (
                      ap (λ (x : Bytes). take k s ++ unspaced x)
                        (drop-all (suc k) s (ground arith) ∙ sym (drop-all j text (ground arith)))),
            )
            | inr f ↦ inl (
              i,
              rw (e, f) refl,
              sym (spaces_gone text) ∙ ap unspaced (drop-all i text (ground arith)),
            )
          ]
    ]

abbrev pub Writes : Decoded → Bytes → Type 0
Writes d out = (d.error ≡ none) × (d.w.room ≡ none) × (d.w.written ≡ out)

unspaced_empty : (text : Bytes) → length text ≤ 0 → unspaced text ≡ []
unspaced_empty [] h = refl
unspaced_empty (b ∷ bs) h = absurd (omega arith)

write_word-Writes :
    (rounds : ℕ → Writer → ℕ → Decoded) (w : Writer) (total advance : ℕ) (word out : Bytes)
    → w.room ≡ none
    → Writes (rounds advance (more w word) (total + length word)) out
    → Writes (write_word rounds w total (advance, some word)) out
unfolding write_word
write_word-Writes rounds w total advance word out room h =
    subst
      (λ (x : Bool × Writer).
        Writes
          (if x.0 then rounds advance x.1 (total + length word) else record {
            w = x.1;
            total = total + (length x.1.written - length w.written);
            error = some write_failed;
          })
          out)
      (sym (write-more w word room)) h

abbrev rounds : ℕ → Bytes → ℕ → Writer → ℕ → Decoded
rounds fuel text advance w t = write_words fuel (drop advance text) w t

pub write_words-Writes :
    (fuel : ℕ) (text : Bytes) (w : Writer) (total : ℕ)
    → length text ≤ fuel
    → w.room ≡ none
    → Writes (write_words fuel text w total) (w.written ++ unspaced text)
unfolding write_words write_word Split
write_words-Writes zero text w total l room =
    (refl, room, sym (append-nil w.written) ∙ ap (◌++◌ w.written) (sym (unspaced_empty text l)))
write_words-Writes (suc fuel) text w total l room = elim (split_ascii_whitespace_lem text) [
  | inl (i, e, gone) ↦
      subst
        (λ (x : ℕ × Option Bytes).
          Writes (write_word (rounds fuel text) w total x) (w.written ++ unspaced text))
        (sym e) (refl, room, sym (append-nil w.written) ∙ ap (◌++◌ w.written) (sym gone))
  | inr (advance, word, e, pos, found) ↦
      let (fine, free, out) =
        write_words-Writes fuel (drop advance text) (more w word) (total + length word)
          (omega (arith, length-drop advance text)) refl in
      subst
        (λ (x : ℕ × Option Bytes).
          Writes (write_word (rounds fuel text) w total x) (w.written ++ unspaced text))
        (sym e)
        (write_word-Writes (rounds fuel text) w total advance word (w.written ++ unspaced text) room
          (fine, free, out ∙ append_assoc w.written word _ ∙ ap (◌++◌ w.written) (sym found)))
]
