-- ===== src/Encapsulation/Read.antt =====
-- ReadData on any bytes: it returns, within the buffer, and takes bytes from the front only.
use mathlib.Core.List.{append_assoc, append-nil}
use snowflake.Common.{
  ℕ, zero, suc, ◌+◌, ◌-◌, ◌*◌, ◌%◌, ◌≤◌, ◌<◌, ◌≡◌, refl, sym, ap, ◌∙◌, Bool, true, false, Option,
  none, some, [], ◌∷◌, ◌++◌, length, take, drop, length-append, length-take, length-drop, drop-drop,
  drop-all, take-all, take-append-drop, arith, ltb, leb, if◌then◌else◌, inl, inr, ◌⊎◌, Bool-cases,
  ◌==◌,
}
use mathlib.Core.Path.{subst}
use native.Mathlib.Numerals.{add-one}
use snowflake.Common.Bytes.{Bytes, drop-append}
use snowflake.Encapsulation.{
  Length, size, bad, unexpected_eof, short_buffer, read_length, discard, read_chunk, ReadResult,
  Round, stop, again, read_round, read_data_loop, read_data, has_bit, skipped, after_length,
}
use snowflake.Encapsulation.Prefix.{HeaderOf}

-- r is what is left of s after some bytes.
abbrev pub IsRest : Bytes → Bytes → Type 0
IsRest r s = (p : Bytes) × (s ≡ p ++ r)

IsRest-trans : {q r s : Bytes} → IsRest q r → IsRest r s → IsRest q s
IsRest-trans {q} (p, e) (p', e') = (p' ++ p, e' ∙ ap (◌++◌ p') e ∙ sym (append_assoc p' p q))

length-IsRest : {r s : Bytes} → IsRest r s → length r ≤ length s
length-IsRest {r} (p, e) = omega (arith, length-append p r, ap length e)

-- What holds of the bytes that a read of a length leaves, also on an error.
abbrev Leaves : Length → Bytes → Type 0
Leaves (size n r) s = IsRest r s
Leaves (bad e r) s = IsRest r s

read_length-Leaves : (left n : ℕ) (more : Bool) (r : Bytes) → Leaves (read_length left n more r) r
unfolding read_length
read_length-Leaves left n false r = ([], refl)
read_length-Leaves zero n true r = ([], refl)
read_length-Leaves (suc left) n true [] = ([], refl)
read_length-Leaves (suc left) n true (b ∷ r) =
    step _ (read_length-Leaves left (n * 128 + b % 128) (has_bit b 7) r)
  where
    step : (l : Length) → Leaves l r → Leaves l (b ∷ r)
    step (size m r') (p, e) = (b ∷ p, ap (◌∷◌ b) e)
    step (bad x r') (p, e) = (b ∷ p, ap (◌∷◌ b) e)

drop-IsRest : (n : ℕ) (r : Bytes) → IsRest (drop n r) r
drop-IsRest n r = (take n r, sym (take-append-drop n r))

-- ReadData on a data chunk of n bytes: it copies the first bytes that are there and fit, takes the
-- whole chunk off the stream, and reports a stream that is too short, else a buffer that is.
pub read_chunk_lem :
    (cap n : ℕ) (r : Bytes)
    → read_chunk cap n r ≡ record {
      chunk = take (if ltb n cap then n else cap) r;
      error =
          if ltb (length r) n
          then some unexpected_eof
          else if ltb cap n
          then some short_buffer
          else none;
      rest = drop n r;
    }
unfolding read_chunk discard
read_chunk_lem cap n r = ground (
  arith,
  drop-drop cap (n - cap) r,
  drop-all n r,
  take-all cap r,
  take-all n r,
  length-drop cap r,
)

abbrev RoundBounds : Round → Bytes → ℕ → Type 0
RoundBounds (stop x) r cap = (length x.chunk ≤ cap) × IsRest x.rest r
RoundBounds (again r') r cap = IsRest r' r

read_chunk-bounds : (cap n : ℕ) (r : Bytes) → RoundBounds (stop (read_chunk cap n r)) r cap
read_chunk-bounds cap n r =
    rw read_chunk_lem
      (ground (arith, length-take (if ltb n cap then n else cap) r), drop-IsRest n r)

skipped-bounds :
    (n cap : ℕ) (r : Bytes) → RoundBounds (skipped (if ltb 0 n then discard n r else some r)) r cap
unfolding skipped discard
skipped-bounds n cap r = elim (Bool-cases (ltb 0 n)) [
  | inl e ↦ rw e (elim (Bool-cases (leb n (length r))) [
    | inl f ↦ rw f (drop-IsRest n r)
    | inr f ↦ rw f (omega arith, (r, sym (append-nil r)))
  ])
  | inr e ↦ rw e ([], refl)
]

after_length-bounds :
    (d : Bool) (cap : ℕ) (l : Length) (r : Bytes)
    → Leaves l r
    → RoundBounds (after_length d cap l) r cap
unfolding after_length
after_length-bounds d cap (bad e r') r h = (omega arith, h)
after_length-bounds true cap (size n r') r h =
    let (fits, left) = read_chunk-bounds cap n r' in (fits, IsRest-trans left h)
after_length-bounds false cap (size n r') r h =
    weaken (skipped (if ltb 0 n then discard n r' else some r')) (skipped-bounds n cap r')
  where
    weaken : (x : Round) → RoundBounds x r' cap → RoundBounds x r cap
    weaken (stop x) (fits, left) = (fits, IsRest-trans left h)
    weaken (again q) left = IsRest-trans left h

-- A round takes at least one byte before the loop goes on.
abbrev Advances : Round → Bytes → ℕ → Type 0
Advances (stop x) r cap = (length x.chunk ≤ cap) × IsRest x.rest r
Advances (again r') r cap = IsRest r' r × (length r' < length r)

read_round-Advances : (r : Bytes) (cap : ℕ) → Advances (read_round r cap) r cap
unfolding read_round
read_round-Advances [] cap = (omega arith, ([], refl))
read_round-Advances (b ∷ r) cap =
    step (after_length (has_bit b 7) cap l)
      (after_length-bounds (has_bit b 7) cap l r (read_length-Leaves 2 (b % 64) (has_bit b 6) r))
  where
    l : Length
    l = read_length 2 (b % 64) (has_bit b 6) r

    step : (x : Round) → RoundBounds x r cap → Advances x (b ∷ r) cap
    step (stop x) (fits, (p, e)) = (fits, (b ∷ p, ap (◌∷◌ b) e))
    step (again q) (p, e) =
        ((b ∷ p, ap (◌∷◌ b) e), omega (arith, length-IsRest {r = q} {s = r} (p, e)))

round-Advances : (r : Bytes) (cap : ℕ) {x : Round} → read_round r cap ≡ x → Advances x r cap
round-Advances r cap e = subst (λ x. Advances x r cap) e (read_round-Advances r cap)

Round-cases : (x : Round) → ((y : ReadResult) × (x ≡ stop y)) ⊎ ((q : Bytes) × (x ≡ again q))
Round-cases (stop y) = inl (y, refl)
Round-cases (again q) = inr (q, refl)

-- What ReadData returns on the stream s with a buffer of cap bytes.
abbrev pub Returns : Option ReadResult → Bytes → ℕ → Type 0
Returns o s cap = (x : ReadResult) × (o ≡ some x) × (length x.chunk ≤ cap) × IsRest x.rest s

read_data_loop-Returns :
    (f : ℕ) (r : Bytes) (cap : ℕ) → length r < f → Returns (read_data_loop f r cap) r cap
unfolding read_data_loop
read_data_loop-Returns zero r cap h = absurd (omega arith)
read_data_loop-Returns (suc f) r cap h = elim (Round-cases (read_round r cap)) [
  | inl (x, e) ↦
      let (fits, left) = round-Advances r cap e in (x, rw (e, read_data_loop), fits, left)
  | inr (q, e) ↦
      let (left, shorter) = round-Advances r cap e in
      let (x, run, fits, rest) = read_data_loop-Returns f q cap (omega arith) in
      (x, rw (e, read_data_loop) run, fits, IsRest-trans rest left)
]

-- ReadData returns on every stream: it copies at most len(p) bytes, and what it leaves is what
-- stands behind the bytes that it took.
pub read_data-Returns : (r : Bytes) (cap : ℕ) → Returns (read_data r cap) r cap
unfolding read_data
read_data-Returns r cap = read_data_loop-Returns (length r + 1) r cap (omega arith)

read_data_loop-fuel :
    (f g : ℕ) (r : Bytes) (cap : ℕ)
    → length r < f
    → length r < g
    → read_data_loop f r cap ≡ read_data_loop g r cap
unfolding read_data_loop
read_data_loop-fuel zero g r cap h k = absurd (omega arith)
read_data_loop-fuel (suc f) zero r cap h k = absurd (omega arith)
read_data_loop-fuel (suc f) (suc g) r cap h k = elim (Round-cases (read_round r cap)) [
  | inl (x, e) ↦ rw (e, read_data_loop)
  | inr (q, e) ↦
      let shorter = (round-Advances r cap e).1 in
      rw (e, read_data_loop) (read_data_loop-fuel f g q cap (omega arith) (omega arith))
]

-- The loop, without fuel.
pub read_data-stop :
    (r : Bytes) (cap : ℕ) {x : ReadResult} → read_round r cap ≡ stop x → read_data r cap ≡ some x
unfolding read_data read_data_loop
read_data-stop r cap e = rw (add-one (length r)) (rw (e, read_data_loop))

pub read_data-again :
    (r : Bytes) (cap : ℕ) (q : Bytes)
    → read_round r cap ≡ again q
    → read_data r cap ≡ read_data q cap
unfolding read_data read_data_loop
read_data-again r cap q e =
    let shorter = (round-Advances r cap e).1 in
    rw (add-one (length r)) (
      rw (e, read_data_loop)
        (read_data_loop-fuel (length r) (length q + 1) q cap (omega arith) (omega arith)))

module _ (pre : Bytes) (n kind : ℕ) (header : HeaderOf pre n kind) where
  read_round-header :
      (r : Bytes) (cap : ℕ) → read_round (pre ++ r) cap ≡ after_length (kind == 1) cap (size n r)
  unfolding read_round
  read_round-header r cap =
      let (b, q, e, k, read) = header in
      rw e (rw (read r) (ap (λ (d : ℕ). after_length (d == 1) cap (size n r)) k))

-- A data chunk at the front of the stream is what ReadData returns.
pub read_data-chunk :
    (pre : Bytes) (n : ℕ)
    → HeaderOf pre n 1
    → (r : Bytes) (cap : ℕ) → read_data (pre ++ r) cap ≡ some (read_chunk cap n r)
unfolding after_length
read_data-chunk pre n header r cap =
    read_data-stop (pre ++ r) cap (read_round-header pre n 1 header r cap)

-- A padding chunk at the front is skipped.
pub read_data-padding :
    (pre : Bytes) (n : ℕ)
    → HeaderOf pre n 0
    → (pad r : Bytes) (cap : ℕ) → length pad ≡ n
    → read_data (pre ++ (pad ++ r)) cap ≡ read_data r cap
unfolding after_length skipped discard
read_data-padding pre n header pad r cap h = read_data-again (pre ++ (pad ++ r)) cap r (
    read_round-header pre n 0 header (pad ++ r) cap
    ∙ ground (arith, length-append pad r, drop-append n pad r, h))
