-- ===== src/Common/Words.antt =====
-- Machine words of the C++ code as native numbers: `<<` cuts off at the width, `>>` divides.
use Prim.Native.Nat.{ℕ, ◌+◌, ◌-◌, ◌*◌, ◌/◌, ◌%◌, ◌^◌}

-- `x << k` on an unsigned type of `w` bits.
abbrev pub shl : ℕ → ℕ → ℕ → ℕ
shl w x k = x * 2 ^ k % 2 ^ w

-- `x >> k`.
abbrev pub shr : ℕ → ℕ → ℕ
shr x k = x / 2 ^ k

-- `a - b` on an unsigned type of `w` bits, both operands below `2 ^ w`.
abbrev pub wrap_sub : ℕ → ℕ → ℕ → ℕ
wrap_sub w a b = (a + 2 ^ w - b) % 2 ^ w
