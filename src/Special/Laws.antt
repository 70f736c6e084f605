-- ===== src/Special/Laws.antt =====
-- What is counted outside the trie is what the top level encoding classes as special.
use air_tree.Common.{
  ℕ, zero, suc, ◌+◌, ◌*◌, ◌/◌, ◌%◌, ◌^◌, ◌<◌, Bool, true, false, not, ◌||◌, ◌&&◌, some, ◌≡◌, ap,
  arith, ◌==◌, if◌then◌else◌, masks,
}
use air_tree.Tle.{
  TleValueType, nan, inf_pos, inf_neg, zero_value, set_tle_components, set_tle_components_32,
  get_tle_value_type,
}
use air_tree.Tle.Classify.{classify, set_tle-class, set_tle-class_32, no_magnitude, same_exponent}
use air_tree.Special.{
  SpecialCounts, count_inf_or_nan, count_zero, is_special_case, is_special_case_32,
  update_special_counts,
}

-- Whether a class is kept outside the trie, and the counter that it raises.
abbrev pub is_special_type : TleValueType → Bool
is_special_type nan = true
is_special_type inf_pos = true
is_special_type inf_neg = true
is_special_type zero_value = true
is_special_type _ = false

abbrev pub count_type : TleValueType → ℕ → SpecialCounts → SpecialCounts
count_type nan sign c = record c { nan_count = c.nan_count + 1 }
count_type inf_pos sign c = record c { pos_inf_count = c.pos_inf_count + 1 }
count_type inf_neg sign c = record c { neg_inf_count = c.neg_inf_count + 1 }
count_type zero_value sign c =
    if sign == 0
    then record c { pos_zero_count = c.pos_zero_count + 1 }
    else record c { neg_zero_count = c.neg_zero_count + 1 }
count_type _ sign c = c

fields-count :
    (top bias s e f : ℕ) (c : SpecialCounts)
    → 0 < top
    → s < 2
    → ◌≡◌ {A = Bool × SpecialCounts}
        (if not (e == top || (e == 0 && f == 0))
          then (false, c)
          else if e == top
          then (true, count_inf_or_nan f s c)
          else (true, count_zero s c))
        (is_special_type (classify top bias s e f), count_type (classify top bias s e f) s c)
unfolding count_inf_or_nan count_zero
fields-count top bias zero e f c pos h = ground arith
fields-count top bias (suc zero) e f c pos h = ground arith
fields-count top bias (suc (suc s)) e f c pos h = absurd (omega arith)

-- `isSpecialCase` of a `double` holds exactly for the classes NaN, infinity and zero that the top
-- level encoding gives, and raises exactly the counter of the class and sign, leaving the others.
pub is_special_case-class :
    (s e f : ℕ) (c : SpecialCounts)
    → s < 2
    → e < 2 ^ 11
    → f < 2 ^ 52
    → is_special_case (s * 2 ^ 63 + e * 2 ^ 52 + f) c ≡ (
      is_special_type (get_tle_value_type (set_tle_components (s * 2 ^ 63 + e * 2 ^ 52 + f))),
      count_type (get_tle_value_type (set_tle_components (s * 2 ^ 63 + e * 2 ^ 52 + f))) s c,
    )
unfolding is_special_case
is_special_case-class s e f c hs he hf =
    let sign : (s * 2 ^ 63 + e * 2 ^ 52 + f) / 2 ^ 63 % 2 ^ 1 ≡ s = omega arith in
    let exponent : (s * 2 ^ 63 + e * 2 ^ 52 + f) / 2 ^ 52 % 2 ^ 11 ≡ e = omega arith in
    let fraction : (s * 2 ^ 63 + e * 2 ^ 52 + f) % 2 ^ 52 ≡ f = omega arith in
    let magnitude : (s * 2 ^ 63 + e * 2 ^ 52 + f) % 2 ^ 63 ≡ e * 2 ^ 52 + f = omega arith in
    rw (set_tle-class s e f hs he hf) (
      simp masks (
        rw
          (
            sign,
            exponent,
            fraction,
            magnitude,
            no_magnitude (2 ^ 52) e f (omega arith),
            same_exponent (2 ^ 52) e 2047 (omega arith),
          )
          (fields-count 2047 1023 s e f c (omega arith) hs)))

-- The same of a `float`.
pub is_special_case-class_32 :
    (s e f : ℕ) (c : SpecialCounts)
    → s < 2
    → e < 2 ^ 8
    → f < 2 ^ 23
    → is_special_case_32 (s * 2 ^ 31 + e * 2 ^ 23 + f) c ≡ (
      is_special_type (get_tle_value_type (set_tle_components_32 (s * 2 ^ 31 + e * 2 ^ 23 + f))),
      count_type (get_tle_value_type (set_tle_components_32 (s * 2 ^ 31 + e * 2 ^ 23 + f))) s c,
    )
unfolding is_special_case_32
is_special_case-class_32 s e f c hs he hf =
    let sign : (s * 2 ^ 31 + e * 2 ^ 23 + f) / 2 ^ 31 % 2 ^ 1 ≡ s = omega arith in
    let exponent : (s * 2 ^ 31 + e * 2 ^ 23 + f) / 2 ^ 23 % 2 ^ 8 ≡ e = omega arith in
    let fraction : (s * 2 ^ 31 + e * 2 ^ 23 + f) % 2 ^ 23 ≡ f = omega arith in
    let magnitude : (s * 2 ^ 31 + e * 2 ^ 23 + f) % 2 ^ 31 ≡ e * 2 ^ 23 + f = omega arith in
    rw (set_tle-class_32 s e f hs he hf) (
      simp masks (
        rw
          (
            sign,
            exponent,
            fraction,
            magnitude,
            no_magnitude (2 ^ 23) e f (omega arith),
            same_exponent (2 ^ 23) e 255 (omega arith),
          )
          (fields-count 255 127 s e f c (omega arith) hs)))

update_special_counts_lem :
    (t : ℕ) (c : SpecialCounts)
    → update_special_counts t (some c)
      ≡ (is_special_type (get_tle_value_type t), some (count_type (get_tle_value_type t) 0 c))
unfolding update_special_counts get_tle_value_type
update_special_counts_lem t c = ground arith

-- Only for a zero does the sign decide the counter.
count_type_sign :
    (s e f : ℕ) (c : SpecialCounts)
    → count_type (classify 2047 1023 s e f) 0 c ≡ (
        if e == 0 && f == 0
        then record c { pos_zero_count = c.pos_zero_count + 1 }
        else count_type (classify 2047 1023 s e f) s c)
count_type_sign s e f c = ground arith

-- The counter update of the tries of several dimensions agrees with that of one dimension in its
-- result and in every counter, but that it counts a negative zero as a positive one.
pub update_special_counts-is_special_case :
    (s e f : ℕ) (c : SpecialCounts)
    → s < 2
    → e < 2 ^ 11
    → f < 2 ^ 52
    → let fp = s * 2 ^ 63 + e * 2 ^ 52 + f in
      update_special_counts (set_tle_components fp) (some c) ≡ (
        (is_special_case fp c).0,
        some (
            if e == 0 && f == 0
            then record c { pos_zero_count = c.pos_zero_count + 1 }
            else (is_special_case fp c).1),
      )
update_special_counts-is_special_case s e f c hs he hf =
    rw
      (
        update_special_counts_lem (set_tle_components (s * 2 ^ 63 + e * 2 ^ 52 + f)) c,
        is_special_case-class s e f c hs he hf,
        set_tle-class s e f hs he hf,
      )
      (ap (λ (d : SpecialCounts). (is_special_type (classify 2047 1023 s e f), some d))
        (count_type_sign s e f c))
