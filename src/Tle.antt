-- ===== src/Tle.antt =====
-- airtree-core/src/common/TLE.cpp and include/airtree/core/common/TLE.hpp: the three bits that
-- class a value by sign, exponent and special values, and the classes of a combined index.
-- A `TLE` is its field `encoding`, a number below 8. An exception is `none`.
pub mod Classify
pub mod Prefix
pub mod Classes
pub mod Deconstruct
pub mod Dims
mod Tests
use air_tree.Common.{
  ℕ, zero, suc, ◌+◌, ◌-◌, ◌*◌, ◌^◌, bit_and, bit_or, Bool, true, false, not, Option, none, some,
  List, [], ◌∷◌, ltb, ◌==◌, if◌then◌else◌, shl, shr, to_int, length, ◌>>=◌,
}

pub data TleValueType : Type 0 where
  nan inf_pos inf_neg zero_value : TleValueType
  pos_sign_pos_exp pos_sign_neg_exp neg_sign_pos_exp neg_sign_neg_exp error : TleValueType

-- The table `results[] = {2, 3, 6, 5}`, read at an index of two bits.
unfoldable pub normal_tle : ℕ → ℕ
normal_tle index = if index == 0 then 2 else if index == 1 then 3 else if index == 2 then 6 else 5

unfoldable pub set_tle_components_32 : ℕ → ℕ
unfolding normal_tle
set_tle_components_32 fp =
    let exp_mask = 0xFF * 2 ^ 23 in
    let sign_bit = bit_and (shr fp 31) 0x1 in
    let exponent = bit_and (shr fp 23) 0xFF in
    let mantissa = bit_and fp 0x7FFFFF in
    if bit_and fp (2 ^ 31 - 1) == 0
    then 4
    else if bit_and fp exp_mask == exp_mask
    then (if not (mantissa == 0) then 0 else if sign_bit == 1 then 7 else 1)
    else normal_tle (bit_or (shl 32 sign_bit 1) (to_int (ltb exponent 127)))

unfoldable pub set_tle_components : ℕ → ℕ
unfolding normal_tle
set_tle_components fp =
    let exp_mask = 0x7FF * 2 ^ 52 in
    let sign_bit = bit_and (shr fp 63) 0x1 in
    let exponent = bit_and (shr fp 52) 0x7FF in
    let mantissa = bit_and fp 0xFFFFFFFFFFFFF in
    if bit_and fp (2 ^ 63 - 1) == 0
    then 4
    else if bit_and fp exp_mask == exp_mask
    then (if not (mantissa == 0) then 0 else if sign_bit == 1 then 7 else 1)
    else normal_tle (bit_or (shl 64 sign_bit 1) (to_int (ltb exponent 1023)))

unfoldable pub get_prepend_bits : ℕ → Option ℕ
get_prepend_bits tle =
    if tle == 2
    then some 0
    else if tle == 3
    then some 1
    else if tle == 5
    then some 3
    else if tle == 6
    then some 2
    else none

unfoldable pub get_tle_encoding : ℕ → Option ℕ
get_tle_encoding prefix_bits =
    if prefix_bits == 0
    then some 2
    else if prefix_bits == 1
    then some 3
    else if prefix_bits == 2
    then some 6
    else if prefix_bits == 3
    then some 5
    else none

unfoldable pub get_tle_value_type : ℕ → TleValueType
get_tle_value_type flag =
    if flag == 0
    then nan
    else if flag == 1
    then inf_pos
    else if flag == 2
    then pos_sign_pos_exp
    else if flag == 3
    then pos_sign_neg_exp
    else if flag == 4
    then zero_value
    else if flag == 5
    then neg_sign_neg_exp
    else if flag == 6
    then neg_sign_pos_exp
    else if flag == 7
    then inf_neg
    else error

unfoldable pub get_prefix_for_non_special : TleValueType → Option ℕ
get_prefix_for_non_special pos_sign_pos_exp = some 0
get_prefix_for_non_special pos_sign_neg_exp = some 1
get_prefix_for_non_special neg_sign_neg_exp = some 3
get_prefix_for_non_special neg_sign_pos_exp = some 2
get_prefix_for_non_special _ = none

-- The bounds of a special value, as the bit patterns of the doubles (a quiet NaN has one of several
-- patterns; this is the one of the supported compilers).
unfoldable pub get_special_value : TleValueType → Option (ℕ × ℕ)
get_special_value nan = some (0x7FF8000000000000, 0x7FF8000000000000)
get_special_value inf_pos = some (0x7FF0000000000000, 0x7FF0000000000000)
get_special_value inf_neg = some (0xFFF0000000000000, 0xFFF0000000000000)
get_special_value zero_value = some (0, 0)
get_special_value _ = none

pub record DimensionInfo : Type 0 where
  pub is_special : Bool
  pub tle : ℕ
  pub prefix : ℕ
  pub value_type : TleValueType

-- One round of the loop of `deconstructTLE`: what is stored for the code of a dimension.
unfoldable pub special_info : ℕ → TleValueType → DimensionInfo
special_info code type = record { is_special = true; tle = code; prefix = 0; value_type = type }

unfoldable pub dimension_info : ℕ → TleValueType → Option DimensionInfo
unfolding special_info get_prefix_for_non_special
dimension_info code nan = some (special_info code nan)
dimension_info code inf_pos = some (special_info code inf_pos)
dimension_info code inf_neg = some (special_info code inf_neg)
dimension_info code zero_value = some (special_info code zero_value)
dimension_info code error = none
dimension_info code type = do
  prefix ← get_prefix_for_non_special type
  some (record { is_special = false; tle = code; prefix = prefix; value_type = type })

-- `x >> k` of a `uint32_t`.
abbrev pub shift_right_32 : ℕ → ℕ → Option ℕ
shift_right_32 x k = if ltb k 32 then some (shr x k) else none

-- The loop, with `m` dimensions left: dimension `numDimensions - m` stands at bit `3 * (m - 1)`. A `uint32_t`
-- shifted by 32 or more is undefined, here `none`.
unfoldable pub deconstruct_loop : ℕ → ℕ → ℕ → Option (List DimensionInfo × ℕ)
unfolding dimension_info get_tle_value_type
deconstruct_loop zero tle special_count = some ([], special_count)
deconstruct_loop (suc m) tle special_count = do
  shifted ← shift_right_32 tle (m * 3)
  let code = bit_and shifted 0x7
  info ← dimension_info code (get_tle_value_type code)
  (infos, count) ←
      deconstruct_loop m tle (if info.is_special then special_count + 1 else special_count)
  some (info ∷ infos, count)

unfoldable pub deconstruct_tle : ℕ → ℕ → Option (List DimensionInfo × ℕ)
unfolding deconstruct_loop
deconstruct_tle tle num_dimensions = do
  (infos, special_count) ← deconstruct_loop num_dimensions tle 0
  if ltb num_dimensions special_count
      then none
      else if length infos == num_dimensions
      then some (infos, special_count)
      else none
