-- ===== src/Encapsulation/Size.antt =====
-- MaxDataForSize against the sizes that WriteData needs.
use snowflake.Common.{ℕ, ◌+◌, ◌-◌, ◌^◌, ◌≤◌, ◌<◌, ◌≡◌, ◌≢◌, ◌⊎◌, some, arith, ltb, if◌then◌else◌}
use snowflake.Encapsulation.{max_data_for_size, data_prefix_for_length}
use snowflake.Encapsulation.Prefix.{prefix_size}

-- The bytes that WriteData writes for k bytes of data.
abbrev pub encoded_size : ℕ → ℕ
encoded_size k = k + prefix_size k

-- The function that MaxDataForSize computes, where it does not panic.
max_data_cases :
    (n : ℕ)
    → 0 < n
    → max_data_for_size n ≡ some (if ltb n (2 ^ 20) then n - prefix_size n else 1048572)
unfolding max_data_for_size data_prefix_for_length
max_data_cases n h = ground arith

-- The length that MaxDataForSize returns can be passed to WriteData, and needs no more than n bytes.
pub max_data_fits :
    (n : ℕ) → 0 < n → (m : ℕ) × (max_data_for_size n ≡ some m) × (m < 2 ^ 20) × (encoded_size m ≤ n)
max_data_fits n h = (_, max_data_cases n h, ground arith, ground arith)

-- It is the greatest such length, if n is below 2^20 and none of 64, 8192 and 8193.
pub max_data_greatest :
    (n m k : ℕ)
    → 0 < n
    → n < 2 ^ 20
    → n ≢ 64
    → n ≢ 8192
    → n ≢ 8193
    → max_data_for_size n ≡ some m
    → encoded_size k ≤ n
    → k ≤ m
max_data_greatest n m k h b p q r e s = ground (arith, max_data_cases n h)

-- At 64, 8192, 8193 and from 2^20 on, a chunk that is one byte longer fits too.
pub max_data_not_greatest :
    (n m : ℕ)
    → (n ≡ 64) ⊎ ((n ≡ 8192) ⊎ ((n ≡ 8193) ⊎ (2 ^ 20 ≤ n)))
    → max_data_for_size n ≡ some m
    → (m + 1 < 2 ^ 20) × (encoded_size (m + 1) ≤ n)
max_data_not_greatest n m h e = ground (arith, max_data_cases n (ground arith))
