-- ===== src/Encoding/Tests.antt =====
-- The theorems on the internal codes at concrete numbers, and runs.
use air_tree.Common.{◌+◌, ◌-◌, ◌*◌, ◌^◌, ◌≡◌, ◌↔◌, refl, arith, or_fields}
use air_tree.Tle.{set_tle_components, get_tle_value_type}
use air_tree.Encoding.{sign_fill, adjust_exponent64, masked64, clz, first_one64, zero_precision}
use air_tree.Encoding.Bins.{InBin, first_one64-IsFirst, zero_precision_iff}
use air_tree.Encoding.Codes.{
  create_internal_8bit, create_internal_13bit, create_internal_16bit, create_internal_20bit,
  create_internal_13bit_32, create_internal_16bit_32, create_internal_20bit_32,
}
use air_tree.Encoding.Codes.Layout.{IsCode, create_internal-IsCode, create_internal-IsCode_32}
use air_tree.Encoding.Collision.{create_internal_8bit_collision}

-- 5.0 is 1.01 in binary at the exponent 2: 8 leading zeros and the bits after the first one.
code_of_five : create_internal_13bit 0x4014000000000000 ≡ 8 * 2 ^ 7 + 0x10
unfolding create_internal_13bit masked64 adjust_exponent64 sign_fill first_one64 clz zero_precision
    or_fields
code_of_five = refl

zero_precision_iff_example : InBin 61 7 8 0x10 (2 * 2 ^ 52 + 2 ^ 50) ↔ (
    zero_precision 61 7 (61 - 14 - 7) (first_one64 (2 * 2 ^ 52 + 2 ^ 50)) (2 * 2 ^ 52 + 2 ^ 50)
    ≡ (8, 0x10))
zero_precision_iff_example =
    zero_precision_iff 61 7 (first_one64 (2 * 2 ^ 52 + 2 ^ 50)) (2 * 2 ^ 52 + 2 ^ 50) (omega arith)
      (omega arith) (first_one64-IsFirst (2 * 2 ^ 52 + 2 ^ 50)) 8 0x10 (omega arith)

create_internal-IsCode_example :
    let fp = 1 * 2 ^ 63 + 1025 * 2 ^ 52 + 2 ^ 50 in
    IsCode 1023 52 61 7 1 1025 (2 ^ 50) (create_internal_13bit fp)
    × IsCode 1023 52 61 10 1 1025 (2 ^ 50) (create_internal_16bit fp)
    × IsCode 1023 52 61 14 1 1025 (2 ^ 50) (create_internal_20bit fp)
create_internal-IsCode_example =
    create_internal-IsCode 1 1025 (2 ^ 50) (omega arith) (omega arith) (omega arith)

create_internal-IsCode_32_example :
    let fp = 0 * 2 ^ 31 + 120 * 2 ^ 23 + 77 in
    IsCode 127 23 29 7 0 120 77 (create_internal_13bit_32 fp)
    × IsCode 127 23 29 10 0 120 77 (create_internal_16bit_32 fp)
    × IsCode 127 23 29 14 0 120 77 (create_internal_20bit_32 fp)
create_internal-IsCode_32_example =
    create_internal-IsCode_32 0 120 77 (omega arith) (omega arith) (omega arith)

-- 1.0 and the largest finite number.
create_internal_8bit_collision_example :
    (create_internal_8bit (0 * 2 ^ 63 + 1023 * 2 ^ 52 + 0)
      ≡ create_internal_8bit (0 * 2 ^ 63 + 2046 * 2 ^ 52 + (2 ^ 52 - 1)))
    × (get_tle_value_type (set_tle_components (0 * 2 ^ 63 + 1023 * 2 ^ 52 + 0))
        ≡ get_tle_value_type (set_tle_components (0 * 2 ^ 63 + 2046 * 2 ^ 52 + (2 ^ 52 - 1))))
create_internal_8bit_collision_example =
    create_internal_8bit_collision 0 2046 0 (2 ^ 52 - 1) (omega arith) (omega arith) (omega arith)
      (omega arith) (omega arith)
