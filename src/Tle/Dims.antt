-- ===== src/Tle/Dims.antt =====
-- airtree-core/src/common/NDims.cpp: which dimensions of a combined index are not special, as a
-- mask with one bit for each dimension, the first dimension highest.
use air_tree.Tle.Classes.{class_of}
use air_tree.Special.Laws.{is_special_type}
use air_tree.Common.{
  bit_and_low3, ℕ, zero, suc, ◌+◌, ◌*◌, ◌/◌, ◌%◌, ◌^◌, ◌-◌, ◌<◌, bit_and, bit_or, bit_xor, Bool,
  true, false, not, ◌||◌, ◌≡◌, ◌∙◌, refl, arith, ◌==◌, shl, shr, to_int,
}

-- `~mask` of an `int`.
abbrev complement : ℕ → ℕ
complement mask = bit_xor mask (2 ^ 32 - 1)

pub get_num_dims_2d : ℕ → ℕ
get_num_dims_2d combined =
    let tle1 = bit_and (shr combined 3) 0x7 in
    let tle2 = bit_and combined 0x7 in
    let is_tle1_special = tle1 == 0 || tle1 == 1 || tle1 == 4 || tle1 == 7 in
    let is_tle2_special = tle2 == 0 || tle2 == 1 || tle2 == 4 || tle2 == 7 in
    let special = bit_or (shl 32 (to_int is_tle1_special) 1) (to_int is_tle2_special) in
    bit_and (complement special) 0x3

pub get_num_dims_3d : ℕ → ℕ
get_num_dims_3d combined =
    let tle1 = bit_and (shr combined 6) 0x7 in
    let tle2 = bit_and (shr combined 3) 0x7 in
    let tle3 = bit_and combined 0x7 in
    let is_tle1_special = tle1 == 0 || tle1 == 1 || tle1 == 4 || tle1 == 7 in
    let is_tle2_special = tle2 == 0 || tle2 == 1 || tle2 == 4 || tle2 == 7 in
    let is_tle3_special = tle3 == 0 || tle3 == 1 || tle3 == 4 || tle3 == 7 in
    let special =
      bit_or (bit_or (shl 32 (to_int is_tle1_special) 2) (shl 32 (to_int is_tle2_special) 1))
        (to_int is_tle3_special) in
    bit_and (complement special) 0x7

pub get_num_dims_4d : ℕ → ℕ
get_num_dims_4d combined =
    let tle1 = bit_and (shr combined 9) 0x7 in
    let tle2 = bit_and (shr combined 6) 0x7 in
    let tle3 = bit_and (shr combined 3) 0x7 in
    let tle4 = bit_and combined 0x7 in
    let is_tle1_special = tle1 == 0 || tle1 == 1 || tle1 == 4 || tle1 == 7 in
    let is_tle2_special = tle2 == 0 || tle2 == 1 || tle2 == 4 || tle2 == 7 in
    let is_tle3_special = tle3 == 0 || tle3 == 1 || tle3 == 4 || tle3 == 7 in
    let is_tle4_special = tle4 == 0 || tle4 == 1 || tle4 == 4 || tle4 == 7 in
    let special =
      bit_or
        (bit_or (bit_or (shl 32 (to_int is_tle1_special) 3) (shl 32 (to_int is_tle2_special) 2))
          (shl 32 (to_int is_tle3_special) 1))
        (to_int is_tle4_special) in
    bit_and (complement special) 0xF

-- The bit that a dimension with this code is to have in the mask: its class is not NaN, an infinity or zero.
abbrev pub bit_of : ℕ → ℕ
bit_of tle = to_int (not (is_special_type (class_of tle)))

tested : (t : ℕ) → (t == 0 || t == 1 || t == 4 || t == 7) ≡ is_special_type (class_of t)
tested zero = refl
tested (suc zero) = refl
tested (suc (suc zero)) = refl
tested (suc (suc (suc zero))) = refl
tested (suc (suc (suc (suc zero)))) = refl
tested (suc (suc (suc (suc (suc zero))))) = refl
tested (suc (suc (suc (suc (suc (suc zero)))))) = refl
tested (suc (suc (suc (suc (suc (suc (suc zero))))))) = refl
tested (suc (suc (suc (suc (suc (suc (suc (suc t)))))))) = ground arith

abbrev special : ℕ → Bool
special t = is_special_type (class_of t)

-- The masks of two to four flags, on every combination.
mask_2 :
    (a b : Bool)
    → bit_and (complement (bit_or (shl 32 (to_int a) 1) (to_int b))) 0x3
      ≡ 2 * to_int (not a) + to_int (not b)
mask_2 true true = refl
mask_2 true false = refl
mask_2 false true = refl
mask_2 false false = refl

mask_3 :
    (a b c : Bool)
    → bit_and
        (complement (bit_or (bit_or (shl 32 (to_int a) 2) (shl 32 (to_int b) 1)) (to_int c)))
        0x7
      ≡ 4 * to_int (not a) + 2 * to_int (not b) + to_int (not c)
mask_3 true true true = refl
mask_3 true true false = refl
mask_3 true false true = refl
mask_3 true false false = refl
mask_3 false true true = refl
mask_3 false true false = refl
mask_3 false false true = refl
mask_3 false false false = refl

mask_4 :
    (a b c d : Bool)
    → bit_and
        (complement (
          bit_or
            (bit_or (bit_or (shl 32 (to_int a) 3) (shl 32 (to_int b) 2)) (shl 32 (to_int c) 1))
            (to_int d)))
        0xF
      ≡ 8 * to_int (not a) + 4 * to_int (not b) + 2 * to_int (not c) + to_int (not d)
mask_4 true true true true = refl
mask_4 true true true false = refl
mask_4 true true false true = refl
mask_4 true true false false = refl
mask_4 true false true true = refl
mask_4 true false true false = refl
mask_4 true false false true = refl
mask_4 true false false false = refl
mask_4 false true true true = refl
mask_4 false true true false = refl
mask_4 false true false true = refl
mask_4 false true false false = refl
mask_4 false false true true = refl
mask_4 false false true false = refl
mask_4 false false false true = refl
mask_4 false false false false = refl

digit : (c k t : ℕ) → c / 2 ^ k % 8 ≡ t → bit_and (shr c k) 0x7 ≡ t
digit c k t h = bit_and_low3 (c / 2 ^ k) ∙ h

last_digit : (c t : ℕ) → c % 8 ≡ t → bit_and c 0x7 ≡ t
last_digit c t h = bit_and_low3 c ∙ h

-- In two, three and four dimensions the mask has a dimension's bit exactly where the class of the
-- dimension's code is not that of a special value, which are NaN, the infinities and zero.
pub get_num_dims_lem :
    (t1 t2 t3 t4 : ℕ)
    → t1 < 8
    → t2 < 8
    → t3 < 8
    → t4 < 8
    → (get_num_dims_2d (t1 * 8 + t2) ≡ 2 * bit_of t1 + bit_of t2)
      × (get_num_dims_3d (t1 * 64 + t2 * 8 + t3) ≡ 4 * bit_of t1 + 2 * bit_of t2 + bit_of t3)
      × (get_num_dims_4d (t1 * 512 + t2 * 64 + t3 * 8 + t4)
          ≡ 8 * bit_of t1 + 4 * bit_of t2 + 2 * bit_of t3 + bit_of t4)
unfolding get_num_dims_2d get_num_dims_3d get_num_dims_4d
get_num_dims_lem t1 t2 t3 t4 h1 h2 h3 h4 = (two, three, four)
  where
    two : get_num_dims_2d (t1 * 8 + t2) ≡ 2 * bit_of t1 + bit_of t2
    two =
        rw
          (
            digit (t1 * 8 + t2) 3 t1 (omega arith),
            last_digit (t1 * 8 + t2) t2 (omega arith),
            tested t1,
            tested t2,
          )
          (mask_2 (special t1) (special t2))

    three : get_num_dims_3d (t1 * 64 + t2 * 8 + t3) ≡ 4 * bit_of t1 + 2 * bit_of t2 + bit_of t3
    three =
        let c = t1 * 64 + t2 * 8 + t3 in
        rw
          (
            digit c 6 t1 (omega arith),
            digit c 3 t2 (omega arith),
            last_digit c t3 (omega arith),
            tested t1,
            tested t2,
            tested t3,
          )
          (mask_3 (special t1) (special t2) (special t3))

    four :
        get_num_dims_4d (t1 * 512 + t2 * 64 + t3 * 8 + t4)
        ≡ 8 * bit_of t1 + 4 * bit_of t2 + 2 * bit_of t3 + bit_of t4
    four =
        let c = t1 * 512 + t2 * 64 + t3 * 8 + t4 in
        rw
          (
            digit c 9 t1 (omega arith),
            digit c 6 t2 (omega arith),
            digit c 3 t3 (omega arith),
            last_digit c t4 (omega arith),
            tested t1,
            tested t2,
            tested t3,
            tested t4,
          )
          (mask_4 (special t1) (special t2) (special t3) (special t4))
