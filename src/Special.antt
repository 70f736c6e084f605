-- ===== src/Special.antt =====
-- airtree-core/include/airtree/core/common/SpecialCounts.hpp: the counters of the values that are
-- kept outside the trie. A function that changes the counters returns them with its result. The
-- counters are `int`s, here numbers: this is exact for counters that are not negative as long as none passes
-- 2 ^ 31 - 1, beyond which `++` is undefined in the code. A counter starts at 0 and grows by at most 1 with
-- each value of an array, whose length is an `int`.
pub mod Laws
mod Tests
use air_tree.Common.{
  ℕ, ◌+◌, ◌-◌, ◌*◌, ◌^◌, bit_and, Bool, true, false, not, ◌||◌, Option, none, some, ◌==◌,
  if◌then◌else◌, shr, to_int,
}

-- `posneg`, `pospos`, `negpos` and `negneg` are never read or written.
pub record SpecialCounts : Type 0 where
  pub pos_inf_count : ℕ
  pub neg_inf_count : ℕ
  pub pos_zero_count : ℕ
  pub neg_zero_count : ℕ
  pub nan_count : ℕ

-- The changes for an infinity or NaN and for a zero.
unfoldable pub count_inf_or_nan : ℕ → ℕ → SpecialCounts → SpecialCounts
count_inf_or_nan fraction sign_bit counts =
    if not (fraction == 0)
    then record counts { nan_count = counts.nan_count + 1 }
    else record counts {
      pos_inf_count = counts.pos_inf_count + to_int (sign_bit == 0);
      neg_inf_count = counts.neg_inf_count + sign_bit;
    }

unfoldable pub count_zero : ℕ → SpecialCounts → SpecialCounts
count_zero sign_bit counts = record counts {
  pos_zero_count = counts.pos_zero_count + to_int (sign_bit == 0);
  neg_zero_count = counts.neg_zero_count + sign_bit;
}

unfoldable pub is_special_case : ℕ → SpecialCounts → Bool × SpecialCounts
unfolding count_inf_or_nan count_zero
is_special_case fp counts =
    let is_inf_or_nan = bit_and fp (0x7FF * 2 ^ 52) == 0x7FF * 2 ^ 52 in
    let is_zero = bit_and fp (2 ^ 63 - 1) == 0 in
    let sign_bit = bit_and (shr fp 63) 0x1 in
    if not (is_inf_or_nan || is_zero)
    then (false, counts)
    else if is_inf_or_nan
    then (true, count_inf_or_nan (bit_and fp 0xFFFFFFFFFFFFF) sign_bit counts)
    else (true, count_zero sign_bit counts)

unfoldable pub is_special_case_32 : ℕ → SpecialCounts → Bool × SpecialCounts
unfolding count_inf_or_nan count_zero
is_special_case_32 fp counts =
    let is_inf_or_nan = bit_and fp (0xFF * 2 ^ 23) == 0xFF * 2 ^ 23 in
    let is_zero = bit_and fp (2 ^ 31 - 1) == 0 in
    let sign_bit = bit_and (shr fp 31) 0x1 in
    if not (is_inf_or_nan || is_zero)
    then (false, counts)
    else if is_inf_or_nan
    then (true, count_inf_or_nan (bit_and fp 0x7FFFFF) sign_bit counts)
    else (true, count_zero sign_bit counts)

-- `update_special_counts` takes a pointer, which may be null.
unfoldable pub update_special_counts : ℕ → Option SpecialCounts → Bool × Option SpecialCounts
update_special_counts tle none = (false, none)
update_special_counts tle (some counts) =
    if tle == 0
    then (true, some (record counts { nan_count = counts.nan_count + 1 }))
    else if tle == 1
    then (true, some (record counts { pos_inf_count = counts.pos_inf_count + 1 }))
    else if tle == 4
    then (true, some (record counts { pos_zero_count = counts.pos_zero_count + 1 }))
    else if tle == 7
    then (true, some (record counts { neg_inf_count = counts.neg_inf_count + 1 }))
    else (false, some counts)
