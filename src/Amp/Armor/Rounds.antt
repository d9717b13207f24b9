-- ===== src/Amp/Armor/Rounds.antt =====
-- The loop of Write and Close keep to the form.
use snowflake.Common.{
  ℕ, zero, suc, ◌+◌, ◌*◌, ◌<◌, ◌≤◌, ◌≡◌, refl, sym, ap, ◌∙◌, Bool, true, none, List, [], ◌∷◌, ◌++◌,
  length, take, drop, leb, ◌==◌, ◌&&◌, if◌then◌else◌, arith, inl, inr, if_either, length-take,
  length-drop, take-append-drop,
}
use mathlib.Core.Path.{subst}
use mathlib.Core.List.{append-nil, append_assoc}
use snowflake.Common.Bytes.{Bytes}
use snowflake.Amp.{all, all-take, all-drop}
use snowflake.Amp.Armor.Framed.{
  is_text, is_plain, unspaced, IsWhole, IsOpen, IsFramed, more, write-more, opened, extended, ended,
  plain-unspaced, plain-text,
}
use snowflake.Amp.Armor.{
  Writer, bytes_per_chunk, chunks_per_element, start_tag, end_tag, newline, ElementEncoder, Written,
  emit, and_then, open_element, end_chunk, end_element, chunk_size, write_round, write_loop,
  element_write, element_close, write_all,
}

abbrev pub Fine : Written → (ElementEncoder → Type 0) → Type 0
Fine r P = (r.fine ≡ true) × P r.enc

and_then-Fine :
    (P Q : ElementEncoder → Type 0) (r : Written) (k : ElementEncoder → ℕ → Written)
    → Fine r P
    → ((enc : ElementEncoder) (total : ℕ) → P enc → Fine (k enc total) Q)
    → Fine (and_then r k) Q
and_then-Fine P Q r k (fine, h) next =
    if_either (λ (x : Written). Fine x Q) r.fine _ _ (λ e. next r.enc r.total h)
      λ e. absurd (ground arith)

abbrev emitted : ElementEncoder → (total count : ℕ) → Bool × Writer → Written
emitted enc total count x = record {
  enc = record enc { w = x.1 };
  total = if x.0 then total + count else total;
  fine = x.0;
}

emit-Fine :
    (P : ElementEncoder → Type 0) (enc : ElementEncoder) (total count : ℕ) (p : Bytes)
    → enc.w.room ≡ none
    → P (record enc { w = more enc.w p })
    → Fine (emit enc total p count) P
unfolding emit
emit-Fine P enc total count p room h =
    subst (λ (x : Bool × Writer). Fine (emitted enc total count x) P)
      (sym (write-more enc.w p room)) (refl, h)

-- An element is open, n bytes further than the counters say.
abbrev Ahead : (n : ℕ) (base data' : Bytes) → ElementEncoder → Type 0
Ahead n base data' enc =
    (enc.chunk_counter + n ≤ bytes_per_chunk)
    × (enc.element_counter < chunks_per_element)
    × IsOpen base data' (1 + (33 * enc.element_counter + enc.chunk_counter) + n) enc.w

-- The counters behind a chunk.
abbrev Behind : (base data' : Bytes) → ElementEncoder → Type 0
Behind base data' enc =
    (enc.chunk_counter < bytes_per_chunk)
    × (enc.element_counter ≤ chunks_per_element)
    × (0 < enc.element_counter + enc.chunk_counter)
    × (enc.element_counter ≡ chunks_per_element → enc.chunk_counter ≡ 0)
    × IsOpen base data' (1 + (33 * enc.element_counter + enc.chunk_counter)) enc.w

resized :
    (base data' : Bytes) (m n : ℕ) (w : Writer)
    → m ≡ n
    → IsOpen base data' m w
    → IsOpen base data' n w
resized base data' m n w e h = subst (λ (k : ℕ). IsOpen base data' k w) e h

open_element-Fine :
    (base data' : Bytes) (enc : ElementEncoder) (total : ℕ)
    → IsFramed base data' enc
    → Fine (open_element enc total) (λ e.
      (e.chunk_counter ≡ enc.chunk_counter)
      × (e.chunk_counter < bytes_per_chunk)
      × Ahead 0 base data' e)
unfolding open_element
open_element-Fine base data' enc total (inl (ec, cc, h)) =
    let P = λ (e : ElementEncoder).
      (e.chunk_counter ≡ enc.chunk_counter)
      × (e.chunk_counter < bytes_per_chunk)
      × Ahead 0 base data' e in
    if_either (λ (x : Written). Fine x P) (enc.element_counter == 0 && enc.chunk_counter == 0) _ _
      (λ e. emit-Fine P enc total 0 (start_tag ++ newline) h.room (
        refl,
        omega arith,
        (
          omega arith,
          omega arith,
          resized base data' 1 (1 + (33 * enc.element_counter + enc.chunk_counter) + 0)
              (more enc.w (start_tag ++ newline)) (omega arith) (opened base data' enc.w h),
        ),
      ))
      λ e. absurd (ground arith)
open_element-Fine base data' enc total (inr (cc, ec, some_there, h)) =
    let P = λ (e : ElementEncoder).
      (e.chunk_counter ≡ enc.chunk_counter)
      × (e.chunk_counter < bytes_per_chunk)
      × Ahead 0 base data' e in
    if_either (λ (x : Written). Fine x P) (enc.element_counter == 0 && enc.chunk_counter == 0) _ _
      (λ e. absurd (ground arith))
      λ e. (refl, (refl, cc, (omega arith, ec, resized base data' _ _ enc.w (omega arith) h)))

end_chunk-Fine :
    (base data' : Bytes) (n : ℕ) (enc : ElementEncoder) (total : ℕ)
    → 0 < n
    → Ahead n base data' enc
    → Fine (end_chunk n enc total) (Behind base data')
unfolding end_chunk
end_chunk-Fine base data' n enc total pos (fits, few, h) =
    let m = 1 + (33 * enc.element_counter + enc.chunk_counter) + n in
    let w = more enc.w newline in
    if_either (λ (x : Written). Fine x (Behind base data'))
      (leb bytes_per_chunk (enc.chunk_counter + n)) _ _
      (λ e.
        let size : m + 1 ≡ 1 + (33 * (enc.element_counter + 1) + 0) = ground arith in
        let longer = extended base data' m enc.w newline refl h in
        emit-Fine (Behind base data')
          (record enc { chunk_counter = 0; element_counter = enc.element_counter + 1 }) total 1
          newline h.room
          (
            omega arith,
            omega arith,
            omega arith,
            λ f. refl,
            resized base data' (m + 1) (1 + (33 * (enc.element_counter + 1) + 0)) w size
                (subst (λ (d : Bytes). IsOpen base d (m + 1) w) (append-nil data') longer),
          ))
      λ e. (
        refl,
        (
          ground arith,
          omega arith,
          omega arith,
          λ f. absurd (omega arith),
          resized base data' _ _ enc.w (omega arith) h,
        ),
      )

end_element-Fine :
    (base data' : Bytes) (enc : ElementEncoder) (total : ℕ)
    → Behind base data' enc
    → Fine (end_element enc total) (IsFramed base data')
unfolding end_element
end_element-Fine base data' enc total (cc, ec, pos, full, h) =
    if_either (λ (x : Written). Fine x (IsFramed base data'))
      (leb chunks_per_element enc.element_counter) _ _
      (λ e.
        emit-Fine (IsFramed base data') (record enc { element_counter = 0 }) total 7
          (end_tag ++ newline) h.room
          (inl
            (refl, full (ground arith), ended base data' _ enc.w (omega arith) (ground arith) h)))
      λ e. (refl, inr (cc, ground arith, pos, h))

write_round-Fine :
    (base data' p : Bytes) (enc : ElementEncoder) (total : ℕ)
    → 0 < length p
    → all is_plain p ≡ true
    → IsFramed base data' enc
    → Fine (write_round p enc total) (IsFramed base (data' ++ take (chunk_size enc p) p))
unfolding write_round
write_round-Fine base data' p enc total some_left plain h =
    let n = chunk_size enc p in
    let q = take n p in
    let longer = data' ++ q in
    let k₃ = λ (e : ElementEncoder) (t : ℕ). end_element e t in
    let k₂ = λ (e : ElementEncoder) (t : ℕ). and_then (end_chunk n e t) k₃ in
    let k₁ = λ (e : ElementEncoder) (t : ℕ). and_then (emit e t q n) k₂ in
    let safe : all is_text q ≡ true = all-take is_text n p (plain-text p plain) in
    let same : unspaced q ≡ q = plain-unspaced q (all-take is_plain n p plain) in
    let size : length q ≡ n = omega (arith, length-take n p) in
    and_then-Fine
      (λ e.
        (e.chunk_counter ≡ enc.chunk_counter)
        × (e.chunk_counter < bytes_per_chunk)
        × Ahead 0 base data' e)
      (IsFramed base longer) (open_element enc total) k₁ (open_element-Fine base data' enc total h)
      λ enc₁ t₁ (cc, small, (fits, few, o)).
        let m = 1 + (33 * enc₁.element_counter + enc₁.chunk_counter) in
        let o' = extended base data' (m + 0) enc₁.w q safe o in
        and_then-Fine (Ahead n base longer) (IsFramed base longer) (emit enc₁ t₁ q n) k₂
          (emit-Fine (Ahead n base longer) enc₁ t₁ n q o.room (
            omega arith,
            few,
            resized base longer (m + 0 + length q) (m + n) (more enc₁.w q) (omega (arith, size)) (
                subst (λ (d : Bytes). IsOpen base (data' ++ d) (m + 0 + length q) (more enc₁.w q))
                  same o'),
          ))
          λ enc₂ t₂ ahead.
            and_then-Fine (Behind base longer) (IsFramed base longer) (end_chunk n enc₂ t₂) k₃
              (end_chunk-Fine base longer n enc₂ t₂ (omega (arith, small, cc, some_left)) ahead)
              λ enc₃ t₃ behind. end_element-Fine base longer enc₃ t₃ behind

framed_room :
    (base data' : Bytes) (enc : ElementEncoder) (p : Bytes)
    → IsFramed base data' enc
    → 0 < length p
    → 0 < chunk_size enc p
framed_room base data' enc p (inl (ec, cc, h)) l = omega (arith, cc)
framed_room base data' enc p (inr (cc, ec, pos, h)) l = omega (arith, cc)

write_loop-Fine :
    (base data' : Bytes) (fuel : ℕ) (p : Bytes) (enc : ElementEncoder) (total : ℕ)
    → length p ≤ fuel
    → all is_plain p ≡ true
    → IsFramed base data' enc
    → Fine (write_loop fuel p enc total) (IsFramed base (data' ++ p))
unfolding write_loop
write_loop-Fine base data' zero [] enc total l plain h =
    (refl, subst (λ (d : Bytes). IsFramed base d enc) (sym (append-nil data')) h)
write_loop-Fine base data' zero (b ∷ bs) enc total l plain h = absurd (omega arith)
write_loop-Fine base data' (suc fuel) [] enc total l plain h =
    (refl, subst (λ (d : Bytes). IsFramed base d enc) (sym (append-nil data')) h)
write_loop-Fine base data' (suc fuel) (b ∷ bs) enc total l plain h =
    let p = b ∷ bs in
    let n = chunk_size enc p in
    let whole_p : (data' ++ take n p) ++ drop n p ≡ data' ++ p =
      append_assoc data' (take n p) (drop n p) ∙ ap (◌++◌ data') (take-append-drop n p) in
    let pos : 0 < n = framed_room base data' enc p h (omega arith) in
    let next = λ (e : ElementEncoder) (t : ℕ). write_loop fuel (drop n p) e t in
    subst (λ (d : Bytes). Fine (and_then (write_round p enc total) next) (IsFramed base d)) whole_p
      (and_then-Fine (IsFramed base (data' ++ take n p))
        (IsFramed base ((data' ++ take n p) ++ drop n p)) (write_round p enc total) next
        (write_round-Fine base data' p enc total (omega arith) plain h)
        λ e t f.
          write_loop-Fine base (data' ++ take n p) fuel (drop n p) e t
            (omega (arith, length-drop n p)) (all-drop is_plain n p plain) f)

pub element_write-Fine :
    (base data' : Bytes) (enc : ElementEncoder) (p : Bytes)
    → all is_plain p ≡ true
    → IsFramed base data' enc
    → Fine (element_write enc p) (IsFramed base (data' ++ p))
unfolding element_write
element_write-Fine base data' enc p plain h =
    write_loop-Fine base data' (length p) p enc 0 (omega arith) plain h

abbrev pub joined : List Bytes → Bytes
joined [] = []
joined (p ∷ ps) = p ++ joined ps

abbrev pub ArePlain : List Bytes → Type 0
ArePlain [] = Unit
ArePlain (p ∷ ps) = (all is_plain p ≡ true) × ArePlain ps

pub write_all-IsFramed :
    (base data' : Bytes) (enc : ElementEncoder) (ps : List Bytes)
    → ArePlain ps
    → IsFramed base data' enc
    → ((write_all enc ps).0 ≡ true) × IsFramed base (data' ++ joined ps) (write_all enc ps).1
unfolding write_all
write_all-IsFramed base data' enc [] plain h =
    (refl, subst (λ (d : Bytes). IsFramed base d enc) (sym (append-nil data')) h)
write_all-IsFramed base data' enc (p ∷ ps) (plain, plains) h =
    let (fine, f) = element_write-Fine base data' enc p plain h in
    let P = λ (d : Bytes) (x : Bool × ElementEncoder). (x.0 ≡ true) × IsFramed base d x.1 in
    subst (λ (d : Bytes). P d (write_all enc (p ∷ ps))) (append_assoc data' p (joined ps))
      (if_either (P ((data' ++ p) ++ joined ps)) (element_write enc p).fine _ _
        (λ e. write_all-IsFramed base (data' ++ p) (element_write enc p).enc ps plains f)
        λ e. absurd (ground arith))

-- Close leaves whole elements.
pub element_close-IsWhole :
    (base data' : Bytes) (enc : ElementEncoder)
    → IsFramed base data' enc
    → ((element_close enc).0 ≡ true) × IsWhole base data' (element_close enc).1
unfolding element_close
element_close-IsWhole base data' enc (inl (ec, cc, h)) =
    let P = λ (x : Bool × Writer). (x.0 ≡ true) × IsWhole base data' x.1 in
    if_either P (enc.element_counter == 0 && enc.chunk_counter == 0) _ _ (λ e. (refl, h))
      λ e. absurd (ground arith)
element_close-IsWhole base data' enc (inr (cc, ec, pos, h)) =
    let P = λ (x : Bool × Writer). (x.0 ≡ true) × IsWhole base data' x.1 in
    let m = 1 + (33 * enc.element_counter + enc.chunk_counter) in
    let longer =
      subst (λ (d : Bytes). IsOpen base d (m + 1) (more enc.w newline)) (append-nil data')
        (extended base data' m enc.w newline refl h) in
    if_either P (enc.element_counter == 0 && enc.chunk_counter == 0) _ _
      (λ e. absurd (ground arith))
      λ e.
        if_either P (enc.chunk_counter == 0) _ _
          (λ f.
            subst P (sym (write-more enc.w (end_tag ++ newline) h.room))
              (refl, ended base data' m enc.w (omega arith) (omega arith) h))
          λ f. subst P (sym (write-more enc.w (newline ++ end_tag ++ newline) h.room)) (
            refl,
            subst (λ (b : Bytes). IsWhole base data' (record { written = b; room = none }))
                (append_assoc enc.w.written newline (end_tag ++ newline))
                (ended base data' (m + 1) (more enc.w newline) (omega arith) (omega arith) longer),
          )
