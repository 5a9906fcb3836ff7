-- ===== src/Machine.antt =====
-- Go's fixed-width integers. An `int` or `int64` is the integer that it stands for, and arithmetic
-- that can leave the range is followed by a wrap-around.
use rune_admin.Prelude.{ℕ, ◌+◌, ◌-◌, ◌%◌, ◌≤◌, ◌<◌, ◌≡◌, arith, ltb, if◌then◌else◌, ℤ, pos, negsuc}

-- math.MaxInt64
abbrev pub max_int64 : ℕ
max_int64 = 9223372036854775807

-- The integer with the bit pattern `n`, of `2 ^ w` patterns of which the lower half are its own.
signed : ℕ → ℕ → ℤ
signed half n = if ltb n half then pos n else negsuc (half + half - n - 1)

-- The value of an integer that is stored in 64 bits.
unfoldable pub wrap64 : ℤ → ℤ
unfolding signed
wrap64 (pos n) = signed 9223372036854775808 (n % 18446744073709551616)
wrap64 (negsuc n) = signed 9223372036854775808 (18446744073709551615 - n % 18446744073709551616)

-- int32(n) for a number.
unfoldable pub wrap32 : ℕ → ℤ
unfolding signed
wrap32 n = signed 2147483648 (n % 4294967296)

-- A number in the range is not changed.
pub wrap64-pos : (n : ℕ) → n ≤ max_int64 → wrap64 (pos n) ≡ pos n
unfolding wrap64
wrap64-pos n h = ground arith

pub wrap32-pos : (n : ℕ) → n < 2147483648 → wrap32 n ≡ pos n
unfolding wrap32
wrap32-pos n h = ground arith
