-- ===== src/Tle/Prefix.antt =====
-- The two prefix bits of a normal class and the three bits of its code stand for one another.
use air_tree.Common.{ℕ, ◌≡◌, ◌↔◌, refl, arith, Option, none, some}
use air_tree.Tle.{
  TleValueType, nan, inf_pos, inf_neg, zero_value, pos_sign_pos_exp, pos_sign_neg_exp,
  neg_sign_pos_exp, neg_sign_neg_exp, error, get_prepend_bits, get_tle_encoding, get_tle_value_type,
  get_prefix_for_non_special, get_special_value, set_tle_components,
}

-- Prefix bits and code determine each other; both functions refuse anything else.
pub get_tle_encoding_iff :
    (code prefix : ℕ)
    → (get_tle_encoding prefix ≡ some code) ↔ (get_prepend_bits code ≡ some prefix)
unfolding get_tle_encoding get_prepend_bits
get_tle_encoding_iff code prefix = ground arith

-- The prefix that `deconstructTLE` stores for a code is the one that the encoder prepends, and is
-- refused for the same codes.
pub get_prefix-get_tle_value_type :
    (code : ℕ) → get_prefix_for_non_special (get_tle_value_type code) ≡ get_prepend_bits code
unfolding get_prefix_for_non_special get_tle_value_type get_prepend_bits
get_prefix-get_tle_value_type code = ground arith

bounds_class :
    (type : TleValueType) (a b low high : ℕ)
    → ◌≡◌ {A = Option (ℕ × ℕ)} (some (a, b)) (some (low, high))
    → get_tle_value_type (set_tle_components a) ≡ type
    → get_tle_value_type (set_tle_components b) ≡ type
    → get_prefix_for_non_special type ≡ none
    → (get_tle_value_type (set_tle_components low) ≡ type)
      × (get_tle_value_type (set_tle_components high) ≡ type)
      × (get_prefix_for_non_special type ≡ none)
bounds_class type a b low high e p q r = ground arith

-- The bounds that stand for a special value are numbers of its class; exactly the special classes
-- have bounds.
pub set_tle-get_special_value :
    (type : TleValueType) (low high : ℕ)
    → get_special_value type ≡ some (low, high)
    → (get_tle_value_type (set_tle_components low) ≡ type)
      × (get_tle_value_type (set_tle_components high) ≡ type)
      × (get_prefix_for_non_special type ≡ none)
unfolding get_special_value get_tle_value_type set_tle_components get_prefix_for_non_special
set_tle-get_special_value nan low high e = bounds_class nan _ _ low high e refl refl refl
set_tle-get_special_value inf_pos low high e = bounds_class inf_pos _ _ low high e refl refl refl
set_tle-get_special_value inf_neg low high e = bounds_class inf_neg _ _ low high e refl refl refl
set_tle-get_special_value zero_value low high e =
    bounds_class zero_value _ _ low high e refl refl refl
set_tle-get_special_value pos_sign_pos_exp low high e = cc
set_tle-get_special_value pos_sign_neg_exp low high e = cc
set_tle-get_special_value neg_sign_pos_exp low high e = cc
set_tle-get_special_value neg_sign_neg_exp low high e = cc
set_tle-get_special_value error low high e = cc
