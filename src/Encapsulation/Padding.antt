-- ===== src/Encapsulation/Padding.antt =====
-- WriteData and WritePadding: what they count, and the padding that ReadData skips.
use mathlib.Core.List.{append_assoc, append-nil}
use mathlib.Core.Path.{subst}
use snowflake.Common.{
  ℕ, zero, suc, ◌+◌, ◌-◌, ◌≤◌, ◌<◌, ◌≡◌, refl, sym, ap, ◌∙◌, Option, none, some, [], ◌++◌, length,
  take, replicate, length-append, length-replicate, length-take, arith, ltb, leb, inl, inr,
  Bool-cases, Option-cases,
}
use snowflake.Common.Bytes.{Bytes}
use snowflake.Encapsulation.{
  Error, Writer, Written, write, and_then, write_data, padding_prefix, next_padding,
  write_padding_loop, write_padding, read_data, data_prefix_for_length,
}
use snowflake.Encapsulation.Prefix.{padding_prefix-header}
use snowflake.Encapsulation.Read.{read_data-padding}

-- The state behind a write of q that went through.
abbrev pub wrote : Writer → ℕ → Bytes → Written
wrote w t q = record {
  writer = record { written = w.written ++ q; room = w.room - length q };
  total = t + length q;
  error = none;
}

pub write-ok : (w : Writer) (t : ℕ) (q : Bytes) → length q ≤ w.room → write w t q ≡ wrote w t q
unfolding write
write-ok w t q h = ground arith

pub wrote-wrote :
    (w : Writer) (t : ℕ) (p q : Bytes)
    → wrote (wrote w t p).writer (wrote w t p).total q ≡ wrote w t (p ++ q)
wrote-wrote w t p q = ground (arith, append_assoc w.written p q, length-append p q)

-- The bytes that a call has added to the writer are as many as it has counted.
abbrev pub Counts : Writer → ℕ → Written → Type 0
Counts w t s = (q : Bytes) × (s.writer.written ≡ w.written ++ q) × (s.total ≡ t + length q)

write-Counts : (w : Writer) (t : ℕ) (p : Bytes) → Counts w t (write w t p)
unfolding write
write-Counts w t p = elim (Bool-cases (leb (length p) w.room)) [
  | inl e ↦ rw e (p, refl, refl)
  | inr e ↦ rw e (take w.room p, refl, ground (arith, length-take w.room p))
]

and_then-Counts :
    (w : Writer) (t : ℕ) (s : Written) (k : Writer → ℕ → Written)
    → Counts w t s
    → ((w' : Writer) (t' : ℕ) → Counts w' t' (k w' t'))
    → Counts w t (and_then s k)
and_then-Counts w t s k (q, e, h) rest = step s.error
  where
    step :
        (o : Option Error)
        → Counts w t (elim o as (λ _. Written) [ none ↦ k s.writer s.total | some x ↦ s ])
    step (some x) = (q, e, h)
    step none =
        let (q', e', h') = rest s.writer s.total in
        (
          q ++ q',
          e' ∙ ap (λ x. x ++ q') e ∙ append_assoc w.written q q',
          omega (arith, length-append q q'),
        )

write_padding_loop-Counts : (f : ℕ) (w : Writer) (n t : ℕ) → Counts w t (write_padding_loop f w n t)
unfolding write_padding_loop
write_padding_loop-Counts zero w n t = ([], sym (append-nil w.written), omega arith)
write_padding_loop-Counts (suc f) w n t = elim (Bool-cases (ltb 0 n)) [
  | inr e ↦ rw (e, write_padding_loop) ([], sym (append-nil w.written), omega arith)
  | inl e ↦
      let p = padding_prefix (next_padding n) in
      let pad = replicate p.1 0 in
      let more = λ (w'' : Writer) (t'' : ℕ). write_padding_loop f w'' (n - next_padding n) t'' in
      let fill = λ (w' : Writer) (t' : ℕ). and_then (write w' t' pad) more in
      rw (e, write_padding_loop)
        (and_then-Counts w t (write w t p.0) fill (write-Counts w t p.0) λ w' t'.
          and_then-Counts w' t' (write w' t' pad) more (write-Counts w' t' pad)
            λ w'' t''. write_padding_loop-Counts f w'' (n - next_padding n) t'')
]

-- Also when the writer fails, WritePadding and WriteData return the number of bytes written.
pub writes_count :
    (w : Writer) (n : ℕ) (p : Bytes) → Counts w 0 (write_padding w n) × Counts w 0 (write_data w p)
unfolding write_padding write_data
writes_count w n p = (
  write_padding_loop-Counts n w n 0,
  elim (Option-cases (data_prefix_for_length (length p))) [
    | inl e ↦ rw (e, write_data) ([], sym (append-nil w.written), omega arith)
    | inr (pre, e) ↦
        rw (e, write_data)
          (and_then-Counts w 0 (write w 0 pre) (λ w' total. write w' total p) (write-Counts w 0 pre)
            λ w' t'. write-Counts w' t' p)
  ],
)

-- n bytes that ReadData skips.
abbrev pub IsPadding : ℕ → Bytes → Type 0
IsPadding n q = (length q ≡ n) × ((r : Bytes) (cap : ℕ) → read_data (q ++ r) cap ≡ read_data r cap)

IsPadding-append :
    (m n : ℕ) (p q : Bytes) → IsPadding m p → IsPadding n q → IsPadding (m + n) (p ++ q)
IsPadding-append m n p q (h, skip) (h', skip') =
    (omega (arith, length-append p q), λ r c. rw (append_assoc p q r) (skip (q ++ r) c ∙ skip' r c))

-- The chunk that one round of WritePadding writes.
abbrev padding_chunk : ℕ → Bytes
padding_chunk p = (padding_prefix p).0 ++ replicate (padding_prefix p).1 0

padding_chunk-IsPadding : (p : ℕ) → 0 < p → p ≤ 1024 → IsPadding p (padding_chunk p)
padding_chunk-IsPadding p h k =
    let (header, whole) = padding_prefix-header p h k in
    let (pre, n) = padding_prefix p in
    let pad : Bytes = replicate n 0 in
    (
      omega (arith, length-append pre pad, length-replicate {A = ℕ} n 0),
      λ r c.
          rw (append_assoc pre pad r)
            (read_data-padding pre n header pad r c (length-replicate n 0)),
    )

-- Both writes of a round go through where there is room for them.
padding_round :
    (w : Writer) (t : ℕ) (pre pad : Bytes) (more : Writer → ℕ → Written)
    → length (pre ++ pad) ≤ w.room
    → and_then (write w t pre) (λ w' t'. and_then (write w' t' pad) more)
      ≡ more (wrote w t (pre ++ pad)).writer (wrote w t (pre ++ pad)).total
padding_round w t pre pad more h =
    let len = length-append pre pad in
    rw (write-ok w t pre (omega arith)) (
      rw (write-ok (wrote w t pre).writer (wrote w t pre).total pad (omega arith))
        (ap (λ (s : Written). more s.writer s.total) (wrote-wrote w t pre pad)))

write_padding_loop-IsPadding :
    (f : ℕ) (w : Writer) (n t : ℕ)
    → n ≤ f
    → n ≤ w.room
    → (q : Bytes) × (write_padding_loop f w n t ≡ wrote w t q) × IsPadding n q
unfolding write_padding_loop
write_padding_loop-IsPadding zero w n t h k =
    ([], ground (arith, append-nil w.written), (omega arith, λ r c. refl))
write_padding_loop-IsPadding (suc f) w n t h k = elim (Bool-cases (ltb 0 n)) [
  | inr e ↦ (
    [],
    rw (e, write_padding_loop) (ground (arith, append-nil w.written)),
    (ground arith, λ r c. refl),
  )
  | inl e ↦
      let m = next_padding n in
      let more = λ (w' : Writer) (t' : ℕ). write_padding_loop f w' (n - m) t' in
      let p = padding_chunk m in
      let isp : IsPadding m p = padding_chunk-IsPadding m (ground arith) (ground arith) in
      let fits : length p ≤ w.room = ground (arith, isp.0) in
      let s = wrote w t p in
      let (q, run, rest) =
        write_padding_loop-IsPadding f s.writer (n - m) s.total (ground arith) (ground arith) in
      let whole : m + (n - m) ≡ n = ground arith in
      (
        p ++ q,
        rw (e, write_padding_loop)
            (padding_round w t (padding_prefix m).0 (replicate (padding_prefix m).1 0) more fits
              ∙ run
              ∙ wrote-wrote w t p q),
        subst (λ k. IsPadding k (p ++ q)) whole (IsPadding-append m (n - m) p q isp rest),
      )
]

-- With room for n bytes WritePadding writes exactly n bytes, which ReadData skips.
pub write_padding_skipped :
    (w : Writer) (n : ℕ)
    → n ≤ w.room
    → (q : Bytes) × (write_padding w n ≡ wrote w 0 q) × IsPadding n q
unfolding write_padding
write_padding_skipped w n h = write_padding_loop-IsPadding n w n 0 (omega arith) h
