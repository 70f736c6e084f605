-- ===== src/Tle/Tests.antt =====
-- The theorems on the top level encoding at concrete values, and runs.
use air_tree.Common.{ℕ, ◌+◌, ◌*◌, ◌^◌, ◌<◌, ◌≡◌, ◌↔◌, refl, arith, some, List, [], ◌∷◌, map}
use air_tree.Tle.{
  neg_sign_neg_exp, set_tle_components, get_tle_value_type, get_prepend_bits, get_tle_encoding,
  deconstruct_tle, normal_tle,
}
use air_tree.Tle.Classify.{set_tle-class}
use air_tree.Tle.Prefix.{get_tle_encoding_iff}
use air_tree.Tle.Deconstruct.{pack, AreCodes, info_of, deconstruct_tle-pack}
use air_tree.Tle.Dims.{get_num_dims_2d, get_num_dims_3d, get_num_dims_4d, bit_of, get_num_dims_lem}

-- 1.0, -0.5, -0.0, the negative infinity and a NaN.
tle_of_values :
    (set_tle_components 0x3FF0000000000000 ≡ 2)
    × (set_tle_components 0xBFE0000000000000 ≡ 5)
    × (set_tle_components 0x8000000000000000 ≡ 4)
    × (set_tle_components 0xFFF0000000000000 ≡ 7)
    × (set_tle_components 0x7FF8000000000000 ≡ 0)
unfolding set_tle_components normal_tle
tle_of_values = (refl, refl, refl, refl, refl)

set_tle-class_example :
    get_tle_value_type (set_tle_components (1 * 2 ^ 63 + 1022 * 2 ^ 52 + 5)) ≡ neg_sign_neg_exp
set_tle-class_example = set_tle-class 1 1022 5 (omega arith) (omega arith) (omega arith)

get_tle_encoding_iff_example : (get_tle_encoding 3 ≡ some 5) ↔ (get_prepend_bits 5 ≡ some 3)
get_tle_encoding_iff_example = get_tle_encoding_iff 5 3

-- A NaN, a number from 1 on and a zero.
abbrev codes : List ℕ
codes = 0 ∷ 2 ∷ 4 ∷ []

codes-AreCodes : AreCodes codes
codes-AreCodes = omega arith

deconstruct_tle-pack_example :
    (pack codes < 2 ^ 32) × (deconstruct_tle (pack codes) 3 ≡ some (map info_of codes, 2))
deconstruct_tle-pack_example = deconstruct_tle-pack codes codes-AreCodes (omega arith)

get_num_dims_lem_example :
    (get_num_dims_2d (0 * 8 + 2) ≡ 2 * bit_of 0 + bit_of 2)
    × (get_num_dims_3d (0 * 64 + 2 * 8 + 4) ≡ 4 * bit_of 0 + 2 * bit_of 2 + bit_of 4)
    × (get_num_dims_4d (0 * 512 + 2 * 64 + 4 * 8 + 6)
        ≡ 8 * bit_of 0 + 4 * bit_of 2 + 2 * bit_of 4 + bit_of 6)
get_num_dims_lem_example =
    get_num_dims_lem 0 2 4 6 (omega arith) (omega arith) (omega arith) (omega arith)
