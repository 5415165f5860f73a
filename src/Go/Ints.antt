-- ===== src/Go/Ints.antt =====
-- 64-bit integers.
use cindex.Prelude.{ℕ, ◌-◌, ltb, if◌then◌else◌}
use cindex.Prelude.Int.{ℤ, pos, negsuc}

-- The number of values of 64 bits.
abbrev pub word : ℕ
word = 18446744073709551616

-- The int of 64 bits, which are a number below 2^64.
unfoldable pub signed : ℕ → ℤ
signed bits =
    if ltb bits 9223372036854775808 then pos bits else negsuc (18446744073709551615 - bits)
