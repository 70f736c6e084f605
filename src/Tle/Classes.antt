-- ===== src/Tle/Classes.antt =====
-- The class of each three-bit code as a table, which the theorems on combined codes compare with.
use air_tree.Common.{ℕ, zero, suc, ◌≡◌, refl, arith, List, [], ◌∷◌, at_or}
use air_tree.Tle.{
  TleValueType, nan, inf_pos, inf_neg, zero_value, pos_sign_pos_exp, pos_sign_neg_exp,
  neg_sign_pos_exp, neg_sign_neg_exp, error, get_tle_value_type,
}

abbrev classes : List TleValueType
classes =
    nan ∷ inf_pos ∷ pos_sign_pos_exp ∷ pos_sign_neg_exp ∷ zero_value ∷ neg_sign_neg_exp
    ∷ neg_sign_pos_exp ∷ inf_neg ∷ []

abbrev pub class_of : ℕ → TleValueType
class_of d = at_or error classes d

pub get_tle_value_type_lem : (d : ℕ) → get_tle_value_type d ≡ class_of d
unfolding get_tle_value_type
get_tle_value_type_lem zero = refl
get_tle_value_type_lem (suc zero) = refl
get_tle_value_type_lem (suc (suc zero)) = refl
get_tle_value_type_lem (suc (suc (suc zero))) = refl
get_tle_value_type_lem (suc (suc (suc (suc zero)))) = refl
get_tle_value_type_lem (suc (suc (suc (suc (suc zero))))) = refl
get_tle_value_type_lem (suc (suc (suc (suc (suc (suc zero)))))) = refl
get_tle_value_type_lem (suc (suc (suc (suc (suc (suc (suc zero))))))) = refl
get_tle_value_type_lem (suc (suc (suc (suc (suc (suc (suc (suc d)))))))) = ground arith
