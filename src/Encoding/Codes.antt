-- ===== src/Encoding/Codes.antt =====
-- The codes themselves, from their fields.
pub mod Layout
use air_tree.Common.{
  ℕ, ◌+◌, ◌-◌, ◌*◌, ◌/◌, ◌%◌, ◌^◌, bit_and, bit_or, true, false, [], ◌∷◌, shl, shr, or_fields,
}
use air_tree.Encoding.{
  masked32, masked64, first_one32, first_one64, zero_precision, zero_precision_8,
  zero_precision_8_32, zero_precision_10,
}

unfoldable pub create_internal_8bit_32 : ℕ → ℕ
create_internal_8bit_32 fp =
    let masked = (masked32 fp).0 in
    let (zero_count, precision) = zero_precision_8_32 (first_one32 masked) masked in
    bit_or (shl 32 zero_count 5) precision

unfoldable pub create_internal_8bit : ℕ → ℕ
create_internal_8bit fp =
    let masked = (masked64 true fp).0 in
    let (zero_count, precision) = zero_precision_8 (first_one64 masked) masked in
    bit_or (shl 32 zero_count 5) precision

unfoldable pub create_internal_10bit : ℕ → ℕ
create_internal_10bit fp =
    let masked = (masked64 false fp).0 in
    let (zero_count, precision) = zero_precision_10 61 41 (first_one64 masked) masked in
    bit_or (shl 32 zero_count 6) precision

unfoldable pub create_internal_10bit_32 : ℕ → ℕ
create_internal_10bit_32 fp =
    let masked = (masked32 fp).0 in
    let (zero_count, precision) = zero_precision_10 29 9 (first_one32 masked) masked in
    bit_or (shl 32 zero_count 6) precision

unfoldable pub create_internal_16bit : ℕ → ℕ
create_internal_16bit fp =
    let sign = bit_and (shr fp 63) 0x1 in
    let (masked, placed) = masked64 false fp in
    let (zero_count, precision) = zero_precision 61 10 37 (first_one64 masked) masked in
    let index8 =
      or_fields 32 0
        ((sign, 7) ∷ (placed, 6) ∷ (zero_count, 2) ∷ (bit_and (shr precision 8) 0x3, 0) ∷ []) in
    bit_or (shl 32 index8 8) (bit_and precision 0xFF)

unfoldable pub create_internal_16bit_32 : ℕ → ℕ
create_internal_16bit_32 fp =
    let sign = bit_and (shr fp 31) 0x1 in
    let (masked, placed) = masked32 fp in
    let (zero_count, precision) = zero_precision 29 10 5 (first_one32 masked) masked in
    let index8 =
      or_fields 32 0
        ((sign, 7) ∷ (placed, 6) ∷ (zero_count, 2) ∷ (bit_and (shr precision 8) 0x3, 0) ∷ []) in
    bit_or (shl 32 index8 8) (bit_and precision 0xFF)

unfoldable pub create_internal_13bit : ℕ → ℕ
create_internal_13bit fp =
    let sign = bit_and (shr fp 63) 0x1 in
    let (masked, placed) = masked64 false fp in
    let (zero_count, precision) = zero_precision 61 7 40 (first_one64 masked) masked in
    let index8 =
      or_fields 32 0
        ((sign, 7) ∷ (placed, 6) ∷ (zero_count, 2) ∷ (bit_and (shr precision 5) 0x3, 0) ∷ []) in
    bit_or (shl 32 index8 5) (bit_and precision 0x1F)

unfoldable pub create_internal_13bit_32 : ℕ → ℕ
create_internal_13bit_32 fp =
    let sign = bit_and (shr fp 31) 0x1 in
    let (masked, placed) = masked32 fp in
    let (zero_count, precision) = zero_precision 29 7 8 (first_one32 masked) masked in
    let index8 =
      or_fields 32 0
        ((sign, 7) ∷ (placed, 6) ∷ (zero_count, 2) ∷ (bit_and (shr precision 5) 0x3, 0) ∷ []) in
    bit_or (shl 32 index8 5) (bit_and precision 0x1F)

unfoldable pub create_internal_20bit : ℕ → ℕ
create_internal_20bit fp =
    let sign = bit_and (shr fp 63) 0x1 in
    let (masked, placed) = masked64 false fp in
    let (zero_count, precision) = zero_precision 61 14 33 (first_one64 masked) masked in
    let index8 =
      or_fields 32 0
        ((sign, 7) ∷ (placed, 6) ∷ (zero_count, 2) ∷ (bit_and (shr precision 12) 0x3, 0) ∷ []) in
    or_fields 32 0
      ((index8, 12) ∷ (bit_and (shr precision 6) 0x3F, 6) ∷ (bit_and precision 0x3F, 0) ∷ [])

unfoldable pub create_internal_20bit_32 : ℕ → ℕ
create_internal_20bit_32 fp =
    let sign = bit_and (shr fp 31) 0x1 in
    let (masked, placed) = masked32 fp in
    let (zero_count, precision) = zero_precision 29 14 1 (first_one32 masked) masked in
    let index8 =
      or_fields 32 0
        ((sign, 7) ∷ (placed, 6) ∷ (zero_count, 2) ∷ (bit_and (shr precision 12) 0x3, 0) ∷ []) in
    or_fields 32 0
      ((index8, 12) ∷ (bit_and (shr precision 6) 0x3F, 6) ∷ (bit_and precision 0x3F, 0) ∷ [])
