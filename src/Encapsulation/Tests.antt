-- ===== src/Encapsulation/Tests.antt =====
-- Runs of the encapsulation, and the theorems at concrete inputs.
use snowflake.Common.{◌+◌, ◌^◌, ◌≤◌, ◌<◌, ◌≡◌, inl, refl, none, some, [], ◌∷◌, ◌++◌, arith}
use snowflake.Encapsulation.{
  read_data, read_round, read_chunk, write_data, max_data_for_size, too_long, unexpected_eof,
  write_failed,
}
use snowflake.Encapsulation.Read.{Returns, read_data-Returns}
use snowflake.Encapsulation.RoundTrip.{write_read, padded_data, empty_writer}
use snowflake.Encapsulation.Size.{encoded_size, max_data_not_greatest}

truncated :
    read_data (0x85 ∷ 1 ∷ 2 ∷ []) 9
    ≡ some (record { chunk = 1 ∷ 2 ∷ []; error = some unexpected_eof; rest = [] })
unfolding read_data read_round read_chunk
truncated = refl

-- Four continuation bits in a row.
prefix_too_long :
    read_data (0xc0 ∷ 0x80 ∷ 0x80 ∷ 7 ∷ []) 9
    ≡ some (record { chunk = []; error = some too_long; rest = 7 ∷ [] })
unfolding read_data read_round
prefix_too_long = refl

-- A writer that fails in the second write.
short_write : write_data (record { written = []; room = 2 }) (5 ∷ 6 ∷ []) ≡ record {
  writer = record { written = 0x82 ∷ 5 ∷ []; room = 0 };
  total = 2;
  error = some write_failed;
}
unfolding write_data
short_write = refl

read_data-Returns_example :
    Returns (read_data (2 ∷ 0 ∷ 0 ∷ 0x81 ∷ 7 ∷ 8 ∷ []) 4) (2 ∷ 0 ∷ 0 ∷ 0x81 ∷ 7 ∷ 8 ∷ []) 4
read_data-Returns_example = read_data-Returns (2 ∷ 0 ∷ 0 ∷ 0x81 ∷ 7 ∷ 8 ∷ []) 4

write_read_example :
    let s = padded_data (empty_writer 75) 70 (4 ∷ 2 ∷ []) in
    (s.error ≡ none)
    × (read_data (s.writer.written ++ 9 ∷ []) 3
        ≡ some (record { chunk = 4 ∷ 2 ∷ []; error = none; rest = 9 ∷ [] }))
write_read_example = write_read 70 (4 ∷ 2 ∷ []) (9 ∷ []) 3 (omega arith) (omega arith)

max_data_not_greatest_example : (62 + 1 < 2 ^ 20) × (encoded_size (62 + 1) ≤ 64)
unfolding max_data_for_size
max_data_not_greatest_example = max_data_not_greatest 64 62 (inl refl) refl
