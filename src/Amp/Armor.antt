-- ===== src/Amp/Armor.antt =====
-- common/amp/armor_encoder.go: text in pre elements, in chunks with white space between them.
-- A writer takes `room` more bytes and then fails, or any number. The encoder of encoding/base64 hands its text to
-- elementEncoder in pieces; which pieces these are is up to it.
pub mod Framed
pub mod Rounds
use snowflake.Common.{
  ℕ, zero, suc, ◌+◌, ◌-◌, ◌*◌, ◌/◌, Bool, true, false, Option, none, some, List, [], ◌∷◌, ◌++◌,
  length, take, drop, ltb, leb, ◌==◌, ◌&&◌, min, if◌then◌else◌,
}
use snowflake.Common.Bytes.{Bytes, codes}

pub record Writer : Type 0 where
  pub written : Bytes
  pub room : Option ℕ

unfoldable pub write_within : Option ℕ → (written p : Bytes) → Bool × Writer
write_within none written p = (true, record { written = written ++ p; room = none })
write_within (some r) written p =
    if leb (length p) r
    then (true, record { written = written ++ p; room = some (r - length p) })
    else (false, record { written = written ++ take r p; room = some 0 })

-- The flag says that there was no error.
unfoldable pub write : Writer → Bytes → Bool × Writer
unfolding write_within
write w p = write_within w.room w.written p

abbrev pub element_size_limit : ℕ
element_size_limit = 32_768

abbrev pub bytes_per_chunk : ℕ
bytes_per_chunk = 32

-- (elementSizeLimit - 1) / (bytesPerChunk + 1)
abbrev pub chunks_per_element : ℕ
chunks_per_element = 992

abbrev pub start_tag : Bytes
start_tag = codes "<pre>"

abbrev pub end_tag : Bytes
end_tag = codes "</pre>"

abbrev pub newline : Bytes
newline = 10 ∷ []

pub record ElementEncoder : Type 0 where
  pub w : Writer
  pub chunk_counter : ℕ
  pub element_counter : ℕ

-- The encoder, what Write returns as its count so far, and whether there was no error.
pub record Written : Type 0 where
  pub enc : ElementEncoder
  pub total : ℕ
  pub fine : Bool

-- `nn, err := enc.w.Write(p)` with `total += nn` of `count`; an error returns.
unfoldable pub emit : ElementEncoder → (total : ℕ) → Bytes → (count : ℕ) → Written
unfolding write
emit enc total p count =
    let (fine, w) = write enc.w p in
    record {
      enc = record enc { w = w };
      total = if fine then total + count else total;
      fine = fine;
    }

abbrev pub and_then : Written → (ElementEncoder → ℕ → Written) → Written
and_then r k = if r.fine then k r.enc r.total else r

abbrev pub nothing : ElementEncoder → ℕ → Written
nothing enc total = record { enc = enc; total = total; fine = true }

unfoldable pub open_element : ElementEncoder → (total : ℕ) → Written
unfolding emit
open_element enc total =
    if enc.element_counter == 0 && enc.chunk_counter == 0
    then emit enc total (start_tag ++ newline) 0
    else nothing enc total

-- enc.chunkCounter += n and what follows it.
unfoldable pub end_chunk : (n : ℕ) → ElementEncoder → (total : ℕ) → Written
unfolding emit
end_chunk n enc total =
    if leb bytes_per_chunk (enc.chunk_counter + n)
    then emit (record enc { chunk_counter = 0; element_counter = enc.element_counter + 1 }) total
        newline 1
    else nothing (record enc { chunk_counter = enc.chunk_counter + n }) total

unfoldable pub end_element : ElementEncoder → (total : ℕ) → Written
unfolding emit
end_element enc total =
    if leb chunks_per_element enc.element_counter
    then emit (record enc { element_counter = 0 }) total (end_tag ++ newline) 7
    else nothing enc total

abbrev pub chunk_size : ElementEncoder → Bytes → ℕ
chunk_size enc p = min (bytes_per_chunk - enc.chunk_counter) (length p)

-- A round of the loop, for p that is not empty.
unfoldable pub write_round : Bytes → ElementEncoder → (total : ℕ) → Written
unfolding open_element emit end_chunk end_element
write_round p enc total =
    let n = chunk_size enc p in
    and_then (open_element enc total) λ enc₁ t₁.
      and_then (emit enc₁ t₁ (take n p) n)
        λ enc₂ t₂. and_then (end_chunk n enc₂ t₂) λ enc₃ t₃. end_element enc₃ t₃

-- Every round takes a byte of p, so that length p rounds are enough.
unfoldable pub write_loop : (fuel : ℕ) → Bytes → ElementEncoder → (total : ℕ) → Written
unfolding write_round
write_loop zero p enc total = nothing enc total
write_loop (suc fuel) [] enc total = nothing enc total
write_loop (suc fuel) (b ∷ bs) enc total =
    and_then (write_round (b ∷ bs) enc total)
      λ enc' t'. write_loop fuel (drop (chunk_size enc (b ∷ bs)) (b ∷ bs)) enc' t'

unfoldable pub element_write : ElementEncoder → Bytes → Written
unfolding write_loop
element_write enc p = write_loop (length p) p enc 0

unfoldable pub element_close : ElementEncoder → Bool × Writer
unfolding write
element_close enc =
    if enc.element_counter == 0 && enc.chunk_counter == 0
    then (true, enc.w)
    else (if enc.chunk_counter == 0
        then write enc.w (end_tag ++ newline)
        else write enc.w (newline ++ end_tag ++ newline))

-- The pieces that the encoder of base64 writes one after the other, as long as there is no error.
unfoldable pub write_all : ElementEncoder → List Bytes → Bool × ElementEncoder
unfolding element_write
write_all enc [] = (true, enc)
write_all enc (p ∷ ps) =
    let r = element_write enc p in
    let rest = write_all r.enc ps in if r.fine then rest else (false, r.enc)

abbrev pub boilerplate_start : Bytes
boilerplate_start =
    codes "<!doctype html>\n"
    ++ codes "<html amp>\n"
    ++ codes "<head>\n"
    ++ codes "<meta charset=\"utf-8\">\n"
    ++ codes "<script async src=\"https://cdn.ampproject.org/v0.js\"></script>\n"
    ++ codes "<link rel=\"canonical\" href=\"#\">\n"
    ++ codes "<meta name=\"viewport\" content=\"width=device-width\">\n"
    ++ codes
        "<style amp-boilerplate>body{-webkit-animation:-amp-start 8s steps(1,end) 0s 1 normal both;-moz-animation:-amp-start 8s steps(1,end) 0s 1 normal both;-ms-animation:-amp-start 8s steps(1,end) 0s 1 normal both;animation:-amp-start 8s steps(1,end) 0s 1 normal both}@-webkit-keyframes -amp-start{from{visibility:hidden}to{visibility:visible}}@-moz-keyframes -amp-start{from{visibility:hidden}to{visibility:visible}}@-ms-keyframes -amp-start{from{visibility:hidden}to{visibility:visible}}@-o-keyframes -amp-start{from{visibility:hidden}to{visibility:visible}}@keyframes -amp-start{from{visibility:hidden}to{visibility:visible}}</style><noscript><style amp-boilerplate>body{-webkit-animation:none;-moz-animation:none;-ms-animation:none;animation:none}</style></noscript>\n"
    ++ codes "</head>\n"
    ++ codes "<body>\n"

abbrev pub boilerplate_end : Bytes
boilerplate_end = codes "</body>\n" ++ codes "</html>"

-- NewArmorEncoder: the header, and the version in front of the text of base64.
unfoldable pub new_armor_encoder : Writer → Bool × ElementEncoder
unfolding write element_write
new_armor_encoder w =
    let (fine, w') = write w boilerplate_start in
    let enc : ElementEncoder = record { w = w'; chunk_counter = 0; element_counter = 0 } in
    let r = element_write enc (b'0' ∷ []) in if fine then (r.fine, r.enc) else (false, enc)

-- Close, behind the last piece of base64.
unfoldable pub armor_close : ElementEncoder → Bool × Writer
unfolding element_close write
armor_close enc =
    let (fine, w) = element_close enc in if fine then write w boilerplate_end else (false, w)

-- A whole document, with the pieces that the encoder of base64 hands on.
unfoldable pub armor : Writer → (pieces : List Bytes) → Bool × Writer
unfolding new_armor_encoder write_all armor_close
armor w pieces =
    let (fine, enc) = new_armor_encoder w in
    let (all_written, enc') = write_all enc pieces in
    if fine then (if all_written then armor_close enc' else (false, enc'.w)) else (false, enc.w)
