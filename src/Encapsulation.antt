-- ===== src/Encapsulation.antt =====
-- common/encapsulation/encapsulation.go: chunks of data and padding in a byte stream.
-- A reader is the bytes that it has left, and reports io.EOF at their end. A writer takes `room`
-- more bytes and then fails. A mask or a shift is written as `%` or `/` by a power of two, and `|`
-- of disjoint bits as a sum. Lengths are the ints that are not negative.
pub mod Prefix
pub mod Read
pub mod Padding
pub mod RoundTrip
pub mod Size
mod Tests
use snowflake.Common.{
  ℕ, zero, suc, ◌+◌, ◌-◌, ◌*◌, ◌/◌, ◌%◌, ◌^◌, Bool, true, false, Option, none, some, List, [], ◌∷◌,
  ◌++◌, length, take, drop, replicate, ltb, leb, ◌==◌, if◌then◌else◌, min,
}
use snowflake.Common.Bytes.{Bytes}

pub data Error : Type 0 where
  eof unexpected_eof too_long short_buffer write_failed panic : Error

-- What a call of ReadData leaves: `p[:n]`, the error, and the bytes not yet read.
pub record ReadResult : Type 0 where
  pub chunk : Bytes
  pub error : Option Error
  pub rest : Bytes

-- A length prefix that was read, or an error with the bytes left.
pub data Length : Type 0 where
  size : ℕ → Bytes → Length
  bad : Error → Bytes → Length

-- `b & 2^k != 0`.
abbrev pub has_bit : ℕ → ℕ → Bool
has_bit b k = b / 2 ^ k % 2 == 1

-- The loop over the continuation bytes; `left` is 2 - i.
unfoldable pub read_length : (left n : ℕ) → Bool → Bytes → Length
read_length left n false r = size n r
read_length zero n true r = bad too_long r
read_length (suc left) n true [] = bad unexpected_eof []
read_length (suc left) n true (b ∷ r) = read_length left (n * 128 + b % 128) (has_bit b 7) r

-- io.CopyN to io.Discard: the bytes behind the first n, or `none` at io.EOF.
unfoldable pub discard : ℕ → Bytes → Option Bytes
discard n r = if leb n (length r) then some (drop n r) else none

-- The data of a chunk of n bytes, into a buffer of `cap` bytes.
unfoldable pub read_chunk : (cap n : ℕ) → Bytes → ReadResult
unfolding discard
read_chunk cap n r =
    let want = if ltb n cap then n else cap in
    if leb want (length r)
    then (if ltb want n
        then elim (discard (n - want) (drop want r)) [
          | some r' ↦ record { chunk = take want r; error = some short_buffer; rest = r' }
          | none ↦ record { chunk = take want r; error = some unexpected_eof; rest = [] }
        ]
        else record { chunk = take want r; error = none; rest = drop want r })
    else record { chunk = r; error = some unexpected_eof; rest = [] }

-- How one round of the loop ends: ReadData returns, or a padding chunk was skipped.
pub data Round : Type 0 where
  stop : ReadResult → Round
  again : Bytes → Round

skipped : Option Bytes → Round
skipped none = stop (record { chunk = []; error = some unexpected_eof; rest = [] })
skipped (some r) = again r

-- The body of the loop behind the length prefix.
after_length : Bool → ℕ → Length → Round
unfolding skipped discard
after_length is_data cap (bad e r) = stop (record { chunk = []; error = some e; rest = r })
after_length true cap (size n r) = stop (read_chunk cap n r)
after_length false cap (size n r) = skipped (if ltb 0 n then discard n r else some r)

unfoldable pub read_round : Bytes → ℕ → Round
unfolding after_length read_length
read_round [] cap = stop (record { chunk = []; error = some eof; rest = [] })
read_round (b ∷ r) cap = after_length (has_bit b 7) cap (read_length 2 (b % 64) (has_bit b 6) r)

-- `none` is the fuel running out.
unfoldable pub read_data_loop : ℕ → Bytes → ℕ → Option ReadResult
read_data_loop zero r cap = none
read_data_loop (suc f) r cap = elim (read_round r cap) [
  | stop x ↦ some x
  | again r' ↦ read_data_loop f r' cap
]

unfoldable pub read_data : Bytes → ℕ → Option ReadResult
unfolding read_data_loop
read_data r cap = read_data_loop (length r + 1) r cap

-- `none` is ErrTooLong.
unfoldable pub data_prefix_for_length : ℕ → Option Bytes
data_prefix_for_length n =
    if n % 64 == n
    then some ((128 + n % 64) ∷ [])
    else if n / 128 % 64 == n / 128
    then some ((192 + n / 128 % 64) ∷ n % 128 ∷ [])
    else if n / 16384 % 64 == n / 16384
    then some ((192 + n / 16384 % 64) ∷ (128 + n / 128 % 128) ∷ n % 128 ∷ [])
    else none

pub record Writer : Type 0 where
  pub written : Bytes
  pub room : ℕ

-- The writer, the number of bytes that the calls so far returned, and the error.
pub record Written : Type 0 where
  pub writer : Writer
  pub total : ℕ
  pub error : Option Error

-- `nn, err = w.Write(p); total += nn`.
unfoldable pub write : Writer → ℕ → Bytes → Written
write w total p =
    if leb (length p) w.room
    then record {
      writer = record { written = w.written ++ p; room = w.room - length p };
      total = total + length p;
      error = none;
    }
    else record {
      writer = record { written = w.written ++ take w.room p; room = 0 };
      total = total + w.room;
      error = some write_failed;
    }

-- The statements behind `if err != nil { return total, err }`.
abbrev pub and_then : Written → (Writer → ℕ → Written) → Written
and_then s k = elim s.error [ none ↦ k s.writer s.total | some e ↦ s ]

unfoldable pub write_data : Writer → Bytes → Written
unfolding data_prefix_for_length write
write_data w p = elim (data_prefix_for_length (length p)) [
  | none ↦ record { writer = w; total = 0; error = some too_long }
  | some pre ↦ and_then (write w 0 pre) (λ w' total. write w' total p)
]

-- The prefix of a padding chunk of p bytes in all, and how many bytes follow it.
unfoldable pub padding_prefix : ℕ → Bytes × ℕ
padding_prefix p =
    if (p - 1) % 64 == p - 1
    then ((p - 1) % 64 ∷ [], p - 1)
    else if (p - 2) / 128 % 64 == (p - 2) / 128
    then ((64 + (p - 2) / 128 % 64) ∷ (p - 2) % 128 ∷ [], p - 2)
    else if (p - 3) / 16384 % 64 == (p - 3) / 16384
    then ((64 + (p - 3) / 16384 % 64) ∷ (128 + (p - 3) / 128 % 64) ∷ (p - 3) % 128 ∷ [], p - 3)
    else ([], p)

-- len(paddingBuffer)
abbrev pub padding_size : ℕ
padding_size = 1024

abbrev pub next_padding : ℕ → ℕ
next_padding n = if ltb n padding_size then n else padding_size

-- Every round takes at least one byte of n, so n rounds are enough.
unfoldable pub write_padding_loop : ℕ → Writer → ℕ → ℕ → Written
unfolding padding_prefix write
write_padding_loop zero w n total = record { writer = w; total = total; error = none }
write_padding_loop (suc f) w n total = elim (ltb 0 n) [
  | false ↦ record { writer = w; total = total; error = none }
  | true ↦
      let p = padding_prefix (next_padding n) in
      and_then (write w total p.0) (λ w' t'.
        and_then (write w' t' (replicate p.1 0))
          (λ w'' t''. write_padding_loop f w'' (n - next_padding n) t''))
]

unfoldable pub write_padding : Writer → ℕ → Written
unfolding write_padding_loop
write_padding w n = write_padding_loop n w n 0

-- `none` is the panic at 0.
unfoldable pub max_data_for_size : ℕ → Option ℕ
unfolding data_prefix_for_length
max_data_for_size n = if n == 0 then none else elim (data_prefix_for_length n) [
  | none ↦ some (2 ^ (6 + 7 + 7) - 1 - 3)
  | some pre ↦ some (n - length pre)
]
