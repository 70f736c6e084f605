-- ===== src/Encoding.antt =====
-- airtree-core/include/airtree/core/common/InternalEncoding.hpp: the internal codes of a `double` or
-- a `float`, read as its bit pattern. A code has the fields S (sign), E (sign of the exponent), M
-- (number of leading zeros, capped) and P (the bits after the leading one).
pub mod Exponent
pub mod Bins
pub mod Codes
pub mod Collision
mod Tests
use air_tree.Common.{
  ℕ, zero, suc, ◌+◌, ◌-◌, ◌*◌, ◌/◌, ◌%◌, ◌^◌, bit_and, bit_or, bit_xor, Bool, true, false, ◌&&◌,
  ◌||◌, leb, ltb, ◌==◌, if◌then◌else◌, shl, shr, wrap_sub,
}
use Prim.Native.Nat.{min, max}

-- An arithmetic `>> (w - 1)` on a signed type: all bits are the sign.
unfoldable pub sign_fill : ℕ → ℕ → ℕ
sign_fill w x = if ltb x (2 ^ (w - 1)) then 0 else 2 ^ w - 1

-- `adjustExponent64<LessOrEqual>` returns the adjusted exponent and `placed`.
unfoldable pub adjust_exponent64 : Bool → ℕ → ℕ × ℕ
unfolding sign_fill
adjust_exponent64 less_or_equal exponent =
    let d = wrap_sub 64 exponent 1023 in
    let m = sign_fill 64 (if less_or_equal then wrap_sub 64 d 1 else d) in
    (bit_and (bit_xor d m) 0x7FF, bit_and m 0x1)

unfoldable pub adjust_exponent32 : ℕ → ℕ × ℕ
unfolding sign_fill
adjust_exponent32 exponent =
    let d = wrap_sub 32 exponent 127 in
    let m = sign_fill 32 d in (bit_and (bit_xor d m) 0xFF, bit_and m 0x1)

-- `__builtin_clz` and `__builtin_clzll`: the leading zeros of a word of `k` bits.
unfoldable pub clz : ℕ → ℕ → ℕ
clz zero x = 0
clz (suc k) x = if x / 2 ^ k == 0 then suc (clz k x) else 0

unfoldable pub first_one64 : ℕ → ℕ
unfolding clz
first_one64 x = 63 - clz 64 x

unfoldable pub first_one32 : ℕ → ℕ
unfolding clz
first_one32 x = 31 - clz 32 x

-- The pattern with the adjusted exponent in place, and `placed`.
unfoldable pub masked64 : Bool → ℕ → ℕ × ℕ
masked64 less_or_equal fp =
    let (adjusted, placed) = adjust_exponent64 less_or_equal (bit_and (shr fp 52) 0x7FF) in
    (bit_or (bit_and fp 0x000FFFFFFFFFFFFF) (shl 64 adjusted 52), placed)

unfoldable pub masked32 : ℕ → ℕ × ℕ
masked32 fp =
    let (adjusted, placed) = adjust_exponent32 (bit_and (shr fp 23) 0xFF) in
    (bit_or (bit_and fp 0x007FFFFF) (shl 32 adjusted 23), placed)

-- The block that the 13, 16 and 20-bit codes share: `zeroCount` and `precisionBits` from the
-- position of the first one, where `top` is the position at no leading zeros, `p` the number of
-- precision bits and `cap` the shift at 15 leading zeros or more. `top - first` is an `int`, kept
-- here as its 32-bit pattern.
unfoldable pub zero_precision : ℕ → ℕ → ℕ → ℕ → ℕ → ℕ × ℕ
zero_precision top p cap first masked =
    let raw_zeros = wrap_sub 32 top first in
    if masked == 0
    then (15, 0)
    else if leb 15 raw_zeros && ltb raw_zeros (2 ^ 31)
    then (15, bit_and (shr masked cap) (2 ^ p - 1))
    else (raw_zeros, bit_and (shr masked (first - p)) (2 ^ p - 1))

-- The same of the 10-bit codes, where a negative count is raised to 0.
unfoldable pub zero_precision_10 : ℕ → ℕ → ℕ → ℕ → ℕ × ℕ
zero_precision_10 top cap first masked =
    let raw_zeros = top - first in
    if masked == 0
    then (15, 0)
    else if leb 15 raw_zeros
    then (15, bit_and (shr masked cap) 0x3F)
    else (raw_zeros, bit_and (shr masked (first - 6)) 0x3F)

-- The same of the 8-bit codes, with the zeros capped at 7.
unfoldable pub zero_precision_8_32 : ℕ → ℕ → ℕ × ℕ
zero_precision_8_32 first masked =
    let raw_zeros = wrap_sub 32 29 first in
    if masked == 0 then (7, 0) else (
      if leb raw_zeros 7 || leb (2 ^ 31) raw_zeros then raw_zeros else 7,
      bit_and (shr masked (max (first - 5) 18)) 0x1F,
    )

unfoldable pub zero_precision_8 : ℕ → ℕ → ℕ × ℕ
zero_precision_8 first masked =
    if masked == 0
    then (7, 0)
    else (min (61 - first) 7, bit_and (shr masked (max (first - 5) 50)) 0x1F)
