-- ===== src/Words.antt =====
-- Machine integers. A `u64` is a number below 2^64. An `i64` is its bit pattern, a number below
-- 2^64 too, so that `cast_signed` and `cast_unsigned` change nothing; its sign is its top bit.
use kiomq.Prelude.{ℕ, ◌+◌, ◌-◌, ◌*◌, ◌%◌, Bool, ◌&&◌, leb, ltb}

abbrev pub u64_size : ℕ
u64_size = 0x10000000000000000

abbrev pub i64_min : ℕ
i64_min = 0x8000000000000000

abbrev pub i64_max : ℕ
i64_max = 0x7fffffffffffffff

-- Two's complement addition, subtraction and multiplication, the same for both readings.
abbrev pub wrapping_add : ℕ → ℕ → ℕ
wrapping_add a b = (a + b) % u64_size

abbrev pub wrapping_sub : ℕ → ℕ → ℕ
wrapping_sub a b = (a + u64_size - b) % u64_size

abbrev pub wrapping_mul : ℕ → ℕ → ℕ
wrapping_mul a b = (a * b) % u64_size

abbrev pub is_negative : ℕ → Bool
is_negative x = leb i64_min x

abbrev pub is_positive : ℕ → Bool
is_positive x = ltb 0 x && ltb x i64_min

-- The order of the signed reading is that of the patterns with the top bit turned over.
abbrev pub flip_sign : ℕ → ℕ
flip_sign x = (x + i64_min) % u64_size
