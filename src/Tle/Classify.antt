-- ===== src/Tle/Classify.antt =====
-- `setTLEComponents` and `setTLEComponents_32` class a bit pattern as IEEE 754 does.
use native.Mathlib.Nat.{suc-mul, eq_of_mul-eq-mul_right}
use air_tree.Common.{
  ℕ, zero, suc, ◌+◌, ◌*◌, ◌/◌, ◌%◌, ◌^◌, ◌<◌, bit_or, not, ◌≡◌, ◌∙◌, arith, Bool, true, false, ltb,
  ◌==◌, ◌&&◌, if◌then◌else◌, shl, to_int, bit_or_pair, masks,
}
use air_tree.Tle.{
  TleValueType, nan, inf_pos, inf_neg, zero_value, pos_sign_pos_exp, pos_sign_neg_exp,
  neg_sign_pos_exp, neg_sign_neg_exp, normal_tle, set_tle_components, set_tle_components_32,
  get_tle_value_type,
}

-- The class of a number with these sign, exponent and fraction fields.
abbrev pub classify : ℕ → ℕ → ℕ → ℕ → ℕ → TleValueType
classify top bias sign exponent fraction =
    if exponent == top
    then (if fraction == 0 then (if sign == 0 then inf_pos else inf_neg) else nan)
    else if exponent == 0 && fraction == 0
    then zero_value
    else if sign == 0
    then (if ltb exponent bias then pos_sign_neg_exp else pos_sign_pos_exp)
    else (if ltb exponent bias then neg_sign_neg_exp else neg_sign_pos_exp)

index_sum32 : (s : ℕ) (b : Bool) → s < 2 → bit_or (shl 32 s 1) (to_int b) ≡ s * 2 + to_int b
index_sum32 s true h = bit_or_pair 32 1 s 1 (omega arith) (omega arith)
index_sum32 s false h = bit_or_pair 32 1 s 0 (omega arith) (omega arith)

index_sum64 : (s : ℕ) (b : Bool) → s < 2 → bit_or (shl 64 s 1) (to_int b) ≡ s * 2 + to_int b
index_sum64 s true h = bit_or_pair 64 1 s 1 (omega arith) (omega arith)
index_sum64 s false h = bit_or_pair 64 1 s 0 (omega arith) (omega arith)

pub no_magnitude : (p e f : ℕ) → 0 < p → (e * p + f == 0) ≡ (e == 0 && f == 0)
no_magnitude p zero f h = ground arith
no_magnitude p (suc e) f h = ground (arith, suc-mul e p)

pub same_exponent : (p e top : ℕ) → 0 < p → (e * p == top * p) ≡ (e == top)
same_exponent p e top h = ground (arith, eq_of_mul-eq-mul_right p h e top)

-- The decisions of both functions on the fields, once these are told apart.
fields-class :
    (top bias s e f : ℕ)
    → 0 < top
    → s < 2
    → get_tle_value_type (
        if e == 0 && f == 0
        then 4
        else if e == top
        then (if not (f == 0) then 0 else if s == 1 then 7 else 1)
        else normal_tle (s * 2 + to_int (ltb e bias)))
      ≡ classify top bias s e f
unfolding get_tle_value_type normal_tle
fields-class top bias zero e f pos h = ground arith
fields-class top bias (suc zero) e f pos h = ground arith
fields-class top bias (suc (suc s)) e f pos h = absurd (omega arith)

module _ (s e f : ℕ) (hs : s < 2) where
  -- A `double` with these fields has the class that IEEE 754 gives it: infinities and NaN at the
  -- largest exponent, zero at no magnitude, and else by its sign and whether it is below 1.
  pub set_tle-class :
      e < 2 ^ 11
      → f < 2 ^ 52
      → get_tle_value_type (set_tle_components (s * 2 ^ 63 + e * 2 ^ 52 + f))
        ≡ classify 2047 1023 s e f
  unfolding set_tle_components
  set_tle-class he hf =
      let sign : (s * 2 ^ 63 + e * 2 ^ 52 + f) / 2 ^ 63 % 2 ^ 1 ≡ s = omega arith in
      let exponent : (s * 2 ^ 63 + e * 2 ^ 52 + f) / 2 ^ 52 % 2 ^ 11 ≡ e = omega arith in
      let fraction : (s * 2 ^ 63 + e * 2 ^ 52 + f) % 2 ^ 52 ≡ f = omega arith in
      let magnitude : (s * 2 ^ 63 + e * 2 ^ 52 + f) % 2 ^ 63 ≡ e * 2 ^ 52 + f = omega arith in
      simp masks (
        rw
          (
            sign,
            exponent,
            fraction,
            magnitude,
            index_sum64 s (ltb e 1023) hs,
            no_magnitude (2 ^ 52) e f (omega arith),
            same_exponent (2 ^ 52) e 2047 (omega arith),
          )
          (fields-class 2047 1023 s e f (omega arith) hs))

  -- The same of a `float`.
  pub set_tle-class_32 :
      e < 2 ^ 8
      → f < 2 ^ 23
      → get_tle_value_type (set_tle_components_32 (s * 2 ^ 31 + e * 2 ^ 23 + f))
        ≡ classify 255 127 s e f
  unfolding set_tle_components_32
  set_tle-class_32 he hf =
      let sign : (s * 2 ^ 31 + e * 2 ^ 23 + f) / 2 ^ 31 % 2 ^ 1 ≡ s = omega arith in
      let exponent : (s * 2 ^ 31 + e * 2 ^ 23 + f) / 2 ^ 23 % 2 ^ 8 ≡ e = omega arith in
      let fraction : (s * 2 ^ 31 + e * 2 ^ 23 + f) % 2 ^ 23 ≡ f = omega arith in
      let magnitude : (s * 2 ^ 31 + e * 2 ^ 23 + f) % 2 ^ 31 ≡ e * 2 ^ 23 + f = omega arith in
      simp masks (
        rw
          (
            sign,
            exponent,
            fraction,
            magnitude,
            index_sum32 s (ltb e 127) hs,
            no_magnitude (2 ^ 23) e f (omega arith),
            same_exponent (2 ^ 23) e 255 (omega arith),
          )
          (fields-class 255 127 s e f (omega arith) hs))

-- Widening a normal `float` to a `double` keeps the class: the exponent is rebiased by 896 and the
-- fraction gets 29 more bits.
pub set_tle-widen :
    (s e f : ℕ)
    → s < 2
    → 0 < e
    → e < 255
    → f < 2 ^ 23
    → get_tle_value_type (set_tle_components_32 (s * 2 ^ 31 + e * 2 ^ 23 + f))
      ≡ get_tle_value_type (set_tle_components (s * 2 ^ 63 + (e + 896) * 2 ^ 52 + f * 2 ^ 29))
set_tle-widen s e f hs pos he hf =
    set_tle-class_32 s e f hs (omega arith) hf
    ∙ ground (arith, set_tle-class s (e + 896) (f * 2 ^ 29) hs)
