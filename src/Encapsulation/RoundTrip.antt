-- ===== src/Encapsulation/RoundTrip.antt =====
-- What WriteData writes, and ReadData reading it back.
use mathlib.Core.List.{append_assoc}
use snowflake.Common.{
  ℕ, ◌+◌, ◌^◌, ◌≤◌, ◌<◌, ◌≡◌, refl, ap, ◌∙◌, none, some, [], ◌++◌, length, length-append, arith,
}
use snowflake.Common.Bytes.{Bytes, drop-append, take-append}
use snowflake.Encapsulation.{
  Writer, Written, write_data, write_padding, read_data, read_chunk, too_long,
}
use snowflake.Encapsulation.Prefix.{prefix_size, data_prefix-header, data_prefix-too_long}
use snowflake.Encapsulation.Read.{read_data-chunk, read_chunk_lem}
use snowflake.Encapsulation.Padding.{wrote, write-ok, wrote-wrote, write_padding_skipped}

-- Data that is shorter than 2^20 bytes, written where there is room for it and its prefix, stands
-- behind its prefix as the chunk that ReadData reads from the front of the stream.
pub write_data_read :
    (w : Writer) (p : Bytes)
    → length p < 2 ^ 20
    → length p + prefix_size (length p) ≤ w.room
    → (q : Bytes) × (write_data w p ≡ wrote w 0 q)
      × (length q ≡ length p + prefix_size (length p))
      × ((r : Bytes) (cap : ℕ) → read_data (q ++ r) cap ≡ some (read_chunk cap (length p) (p ++ r)))
unfolding write_data
write_data_read w p h k =
    let (pre, e, size, header) = data_prefix-header (length p) h in
    let whole = length-append pre p in
    let run : write_data w p ≡ wrote w 0 (pre ++ p) =
      rw (e, write_data)
        (rw (write-ok w 0 pre (omega arith)) (
          rw (write-ok (wrote w 0 pre).writer (wrote w 0 pre).total p (omega arith))
            (wrote-wrote w 0 pre p))) in
    (
      pre ++ p,
      run,
      omega (arith, whole),
      λ r cap. rw (append_assoc pre p r) (read_data-chunk pre (length p) header (p ++ r) cap),
    )

-- Longer data is refused, and nothing is written.
pub write_data-too_long :
    (w : Writer) (p : Bytes)
    → 2 ^ 20 ≤ length p
    → write_data w p ≡ record { writer = w; total = 0; error = some too_long }
unfolding write_data
write_data-too_long w p h = rw (data_prefix-too_long (length p) h, write_data)

pub read_chunk-whole :
    (p r : Bytes) (cap : ℕ)
    → length p ≤ cap
    → read_chunk cap (length p) (p ++ r) ≡ record { chunk = p; error = none; rest = r }
read_chunk-whole p r cap h =
    read_chunk_lem cap (length p) (p ++ r)
    ∙ ground (
      arith,
      length-append p r,
      take-append (length p) p r,
      take-append cap p r,
      drop-append (length p) p r,
    )

abbrev pub empty_writer : ℕ → Writer
empty_writer room = record { written = []; room = room }

-- WritePadding n and then WriteData p, into one writer.
abbrev pub padded_data : Writer → ℕ → Bytes → Written
padded_data w n p = write_data (write_padding w n).writer p

-- What WriteData writes behind any padding is what ReadData returns, with the bytes that follow left
-- to be read, if the data is shorter than 2^20 bytes and fits both the writer and the buffer.
pub write_read :
    (n : ℕ) (p r : Bytes) (cap : ℕ)
    → length p < 2 ^ 20
    → length p ≤ cap
    → let s = padded_data (empty_writer (n + length p + 3)) n p in
      (s.error ≡ none)
      × (read_data (s.writer.written ++ r) cap
          ≡ some (record { chunk = p; error = none; rest = r }))
write_read n p r cap h k =
    let w = empty_writer (n + length p + 3) in
    let (q, run, (len, skip)) = write_padding_skipped w n (omega arith) in
    let v = (wrote w 0 q).writer in
    let (q', run', len', read) = write_data_read v p h (ground (arith, len)) in
    let whole : read_data ((q ++ q') ++ r) cap
        ≡ some (record { chunk = p; error = none; rest = r }) =
      rw (append_assoc q q' r)
        (skip (q' ++ r) cap ∙ read r cap ∙ ap some (read_chunk-whole p r cap k)) in
    rw (run, run') (refl, whole)
