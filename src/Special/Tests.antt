-- ===== src/Special/Tests.antt =====
-- The theorems on the special counters at concrete values.
use air_tree.Common.{◌+◌, ◌*◌, ◌^◌, ◌≡◌, arith, some}
use air_tree.Tle.{set_tle_components, get_tle_value_type}
use air_tree.Special.{SpecialCounts, is_special_case, update_special_counts}
use air_tree.Special.Laws.{
  is_special_type, count_type, is_special_case-class, update_special_counts-is_special_case,
}

abbrev some_counts : SpecialCounts
some_counts = record {
  pos_inf_count = 1;
  neg_inf_count = 2;
  pos_zero_count = 3;
  neg_zero_count = 4;
  nan_count = 5;
}

-- A NaN.
is_special_case-class_example : is_special_case (0 * 2 ^ 63 + 2047 * 2 ^ 52 + 9) some_counts ≡ (
  is_special_type (get_tle_value_type (set_tle_components (0 * 2 ^ 63 + 2047 * 2 ^ 52 + 9))),
  count_type
      (get_tle_value_type (set_tle_components (0 * 2 ^ 63 + 2047 * 2 ^ 52 + 9)))
      0
      some_counts,
)
is_special_case-class_example =
    is_special_case-class 0 2047 9 some_counts (omega arith) (omega arith) (omega arith)

update_special_counts-is_special_case_example :
    update_special_counts (set_tle_components (1 * 2 ^ 63 + 0 * 2 ^ 52 + 0)) (some some_counts) ≡ (
      (is_special_case (1 * 2 ^ 63 + 0 * 2 ^ 52 + 0) some_counts).0,
      some (record some_counts { pos_zero_count = 4 }),
    )
update_special_counts-is_special_case_example =
    update_special_counts-is_special_case 1 0 0 some_counts (omega arith) (omega arith)
      (omega arith)
