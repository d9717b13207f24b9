-- ===== src/Encapsulation/Prefix.antt =====
-- The length prefixes: when there is one, and that reading one gives the length back.
use snowflake.Common.{
  ℕ, ◌+◌, ◌-◌, ◌*◌, ◌/◌, ◌%◌, ◌^◌, ◌≤◌, ◌<◌, ◌≡◌, refl, none, some, [], ◌∷◌, ◌++◌, length, arith,
  ltb, if◌then◌else◌, inl, inr, Bool-cases, ltb→lt,
}
use snowflake.Common.Bytes.{Bytes}
use snowflake.Encapsulation.{size, has_bit, read_length, data_prefix_for_length, padding_prefix}

-- The header of a chunk, as ReadData reads it from the first byte on.
abbrev pub HeaderOf : Bytes → ℕ → ℕ → Type 0
HeaderOf pre n kind =
    (b : ℕ) × (q : Bytes) × (pre ≡ b ∷ q)
    × (b / 128 % 2 ≡ kind)
    × ((r : Bytes) → read_length 2 (b % 64) (has_bit b 6) (q ++ r) ≡ size n r)

one_byte : (kind n : ℕ) → kind < 2 → n < 64 → HeaderOf ((128 * kind + n) ∷ []) n kind
unfolding read_length
one_byte kind n hk h = (128 * kind + n, [], refl, omega arith, λ r. ground arith)

two_bytes :
    (kind n : ℕ)
    → kind < 2
    → n < 8192
    → HeaderOf ((128 * kind + 64 + n / 128) ∷ n % 128 ∷ []) n kind
unfolding read_length
two_bytes kind n hk h =
    (128 * kind + 64 + n / 128, n % 128 ∷ [], refl, omega arith, λ r. ground arith)

three_bytes :
    (kind n : ℕ)
    → kind < 2
    → n < 2 ^ 20
    → HeaderOf ((128 * kind + 64 + n / 16384) ∷ (128 + n / 128 % 128) ∷ n % 128 ∷ []) n kind
unfolding read_length
three_bytes kind n hk h = (
  128 * kind + 64 + n / 16384,
  (128 + n / 128 % 128) ∷ n % 128 ∷ [],
  refl,
  omega arith,
  λ r. ground arith,
)

-- The number of bytes of the shortest prefix for n.
abbrev pub prefix_size : ℕ → ℕ
prefix_size n = if ltb n 64 then 1 else if ltb n 8192 then 2 else 3

data_prefix_cases :
    (n : ℕ)
    → n < 2 ^ 20
    → data_prefix_for_length n
      ≡ some (
          if ltb n 64
          then (128 * 1 + n) ∷ []
          else if ltb n 8192
          then (128 * 1 + 64 + n / 128) ∷ n % 128 ∷ []
          else (128 * 1 + 64 + n / 16384) ∷ (128 + n / 128 % 128) ∷ n % 128 ∷ [])
unfolding data_prefix_for_length
data_prefix_cases n h = ground arith

-- Below 2^20 there is a prefix, of the least size, and it reads back as the length of a data chunk.
pub data_prefix-header :
    (n : ℕ)
    → n < 2 ^ 20
    → (pre : Bytes) × (data_prefix_for_length n ≡ some pre)
      × (length pre ≡ prefix_size n)
      × HeaderOf pre n 1
data_prefix-header n h = elim (Bool-cases (ltb n 64)) [
  | inl a ↦ (_, rw (data_prefix_cases n h, a), rw a, one_byte 1 n (omega arith) (ltb→lt n 64 a))
  | inr a ↦ elim (Bool-cases (ltb n 8192)) [
    | inl b ↦ (
      _,
      rw (data_prefix_cases n h, a, b),
      rw (a, b),
      two_bytes 1 n (omega arith) (ltb→lt n 8192 b),
    )
    | inr b ↦ (_, rw (data_prefix_cases n h, a, b), rw (a, b), three_bytes 1 n (omega arith) h)
  ]
]

pub data_prefix-too_long : (n : ℕ) → 2 ^ 20 ≤ n → data_prefix_for_length n ≡ none
unfolding data_prefix_for_length
data_prefix-too_long n h = ground arith

padding_prefix_cases :
    (p : ℕ)
    → 0 < p
    → p ≤ 1024
    → padding_prefix p ≡ (
        if ltb (p - 1) 64
        then ((128 * 0 + (p - 1)) ∷ [], p - 1)
        else ((128 * 0 + 64 + (p - 2) / 128) ∷ (p - 2) % 128 ∷ [], p - 2))
unfolding padding_prefix
padding_prefix_cases p h k = ground arith

-- A padding chunk of up to 1024 bytes: its prefix and what follows make p bytes.
pub padding_prefix-header :
    (p : ℕ)
    → 0 < p
    → p ≤ 1024
    → HeaderOf (padding_prefix p).0 (padding_prefix p).1 0
      × (length (padding_prefix p).0 + (padding_prefix p).1 ≡ p)
padding_prefix-header p h k = elim (Bool-cases (ltb (p - 1) 64)) [
  | inl a ↦
      rw (padding_prefix_cases p h k, a)
        (one_byte 0 (p - 1) (omega arith) (ltb→lt _ _ a), omega arith)
  | inr a ↦
      rw (padding_prefix_cases p h k, a)
        (two_bytes 0 (p - 2) (omega arith) (omega arith), ground arith)
]
