-- ===== src/Trie1d/Insert.antt =====
-- What an insertion does to the counters, and what all insertions of an array do.
use air_tree.Common.{
  ℕ, ◌+◌, ◌*◌, ◌/◌, ◌%◌, ◌^◌, ◌<◌, ◌≡◌, ◌∙◌, refl, arith, Bool, not, ◌&&◌, List, [], ◌∷◌, ◌==◌,
  if◌then◌else◌, at_or, length, at_or-modify, length-modify, bit_and_low8, bit_and_low5, Bool-cases,
  inl, inr, shr,
}
use native.Mathlib.Nat.{mod-eq_of_lt}
use air_tree.Tle.{
  TleValueType, nan, inf_pos, inf_neg, zero_value, pos_sign_pos_exp, pos_sign_neg_exp,
  neg_sign_pos_exp, neg_sign_neg_exp, error, get_tle_value_type, set_tle_components,
}
use air_tree.Special.{SpecialCounts, is_special_case}
use air_tree.Special.Laws.{is_special_type, count_type, is_special_case-class}
use air_tree.Encoding.Codes.{create_internal_13bit, create_internal_16bit}
use air_tree.Trie1d.{
  Filing, filing_13, filing_16, index8_16, index8_level2, TrieNode13, empty_level1, bump_child,
  index8, index5, create_and_insert_fp, process_array,
}

-- The sizes that the arrays of the code have.
pub record HasShape (filing : Filing) (root : TrieNode13) : Type 0 where
  pub nodes : length root.nodes ≡ 256
  pub counters : (i : ℕ) → i < 256 → length (at_or empty_level1 root.nodes i).counts ≡ filing.bins1
  pub counts : length root.counts ≡ 256
  pub words : length root.populated ≡ 4

-- The counter of the code with these two indices.
abbrev pub count_at : TrieNode13 → ℕ → ℕ → ℕ
count_at root i j = at_or 0 (at_or empty_level1 root.nodes i).counts j

-- Whether a value goes into the trie: its top level class is not a special one.
abbrev pub is_filed : ℕ → Bool
is_filed fp = not (is_special_type (get_tle_value_type (set_tle_components fp)))

-- How many of the values are filed under the two indices.
abbrev pub tally : Filing → List ℕ → ℕ → ℕ → ℕ
tally filing [] i j = 0
tally filing (v ∷ values) i j =
    (if is_filed v && (filing.upper v == i && filing.lower v == j) then 1 else 0)
    + tally filing values i j

abbrev pub AreDoubles : List ℕ → Type 0
AreDoubles [] = Unit {0}
AreDoubles (v ∷ values) = (v < 2 ^ 64) × AreDoubles values

index8-lt : (fp : ℕ) → index8 fp < 256
unfolding index8
index8-lt fp = omega (arith, bit_and_low8 (shr (create_internal_13bit fp) 5))

index5-lt : (fp : ℕ) → index5 fp < 32
unfolding index5
index5-lt fp = omega (arith, bit_and_low5 (create_internal_13bit fp))

-- Every index is that of a counter.
pub record IsFiling (filing : Filing) : Type 0 where
  pub upper : (fp : ℕ) → filing.upper fp < 256
  pub lower : (fp : ℕ) → filing.lower fp < filing.bins1

pub filing_13-IsFiling : IsFiling filing_13
filing_13-IsFiling = record { upper = index8-lt; lower = index5-lt }

index8_16-lt : (fp : ℕ) → index8_16 fp < 256
unfolding index8_16
index8_16-lt fp = omega (arith, bit_and_low8 (shr (create_internal_16bit fp) 8))

index8_level2-lt : (fp : ℕ) → index8_level2 fp < 256
unfolding index8_level2
index8_level2-lt fp = omega (arith, bit_and_low8 (create_internal_16bit fp))

pub filing_16-IsFiling : IsFiling filing_16
filing_16-IsFiling = record { upper = index8_16-lt; lower = index8_level2-lt }

module _ (filing : Filing) (codes : IsFiling filing) (root : TrieNode13) (fp : ℕ)
    (shape : HasShape filing root) where
  child_at :
      (i : ℕ)
      → at_or empty_level1 (create_and_insert_fp filing root fp).nodes i ≡ (
          if filing.upper fp == i
          then bump_child (filing.lower fp) (at_or empty_level1 root.nodes i)
          else at_or empty_level1 root.nodes i)
  unfolding create_and_insert_fp
  child_at i =
      at_or-modify empty_level1 (filing.upper fp) _ root.nodes i
        (omega (arith, shape.nodes, codes.upper fp))

  insert-HasShape : HasShape filing (create_and_insert_fp filing root fp)
  unfolding create_and_insert_fp
  insert-HasShape = record {
    nodes = length-modify (filing.upper fp) _ root.nodes ∙ shape.nodes;
    counters = λ i h. rw (child_at i) (elim (Bool-cases (filing.upper fp == i)) [
      | inl here ↦ rw here (length-modify (filing.lower fp) _ _ ∙ shape.counters i h)
      | inr there ↦ rw there (shape.counters i h)
    ]);
    counts = shape.counts;
    words = shape.words;
  }

  insert-count_at :
      (i j : ℕ)
      → i < 256
      → count_at (create_and_insert_fp filing root fp) i j ≡ (
          if filing.upper fp == i && filing.lower fp == j
          then (count_at root i j + 1) % 2 ^ 32
          else count_at root i j)
  insert-count_at i j h = rw (child_at i) (elim (Bool-cases (filing.upper fp == i)) [
    | inl here ↦ rw here (
        at_or-modify 0 (filing.lower fp) _ (at_or empty_level1 root.nodes i).counts j
          (omega (arith, shape.counters i h, codes.lower fp)))
    | inr there ↦ rw there refl
  ])

-- `isSpecialCase` on any bit pattern.
special_lem :
    (fp : ℕ) (c : SpecialCounts)
    → fp < 2 ^ 64
    → is_special_case fp c ≡ (
      is_special_type (get_tle_value_type (set_tle_components fp)),
      count_type (get_tle_value_type (set_tle_components fp)) (fp / 2 ^ 63) c,
    )
special_lem fp c h =
    let fields : fp / 2 ^ 63 * 2 ^ 63 + fp / 2 ^ 52 % 2 ^ 11 * 2 ^ 52 + fp % 2 ^ 52 ≡ fp =
      omega arith in
    rw fields at (
      is_special_case-class (fp / 2 ^ 63) (fp / 2 ^ 52 % 2 ^ 11) (fp % 2 ^ 52) c (omega arith)
        (omega arith) (omega arith))

-- What is counted outside the trie.
abbrev pub total_special : SpecialCounts → ℕ
total_special c =
    c.pos_inf_count + c.neg_inf_count + c.pos_zero_count + c.neg_zero_count + c.nan_count

total_special-count_type :
    (type : TleValueType) (sign : ℕ) (c : SpecialCounts)
    → total_special (count_type type sign c)
      ≡ (if not (is_special_type type) then 0 else 1) + total_special c
total_special-count_type nan sign c = omega arith
total_special-count_type inf_pos sign c = omega arith
total_special-count_type inf_neg sign c = omega arith
total_special-count_type zero_value sign c = ground arith
total_special-count_type pos_sign_pos_exp sign c = omega arith
total_special-count_type pos_sign_neg_exp sign c = omega arith
total_special-count_type neg_sign_pos_exp sign c = omega arith
total_special-count_type neg_sign_neg_exp sign c = omega arith
total_special-count_type error sign c = omega arith

-- One round of `process_array`, on the trie and on the special counters.
unfoldable pub step : Filing → TrieNode13 → ℕ → TrieNode13
step filing root fp = if is_filed fp then create_and_insert_fp filing root fp else root

pub process_array-step :
    (filing : Filing) (fp : ℕ) (values : List ℕ) (root : TrieNode13) (c : SpecialCounts)
    → fp < 2 ^ 64
    → (c' : SpecialCounts) × (total_special c' ≡ (if is_filed fp then 0 else 1) + total_special c)
      × (process_array filing (fp ∷ values) root c
          ≡ process_array filing values (step filing root fp) c')
unfolding process_array step
process_array-step filing fp values root c h = (
  count_type (get_tle_value_type (set_tle_components fp)) (fp / 2 ^ 63) c,
  total_special-count_type (get_tle_value_type (set_tle_components fp)) (fp / 2 ^ 63) c,
  rw (special_lem fp c h) refl,
)

pub step-HasShape :
    (filing : Filing)
    → IsFiling filing
    → (root : TrieNode13) (fp : ℕ) → HasShape filing root
    → HasShape filing (step filing root fp)
unfolding step
step-HasShape filing codes root fp shape = elim (Bool-cases (is_filed fp)) [
  | inl filed ↦ rw filed (insert-HasShape filing codes root fp shape)
  | inr special ↦ rw special shape
]

pub step-count_at :
    (filing : Filing)
    → IsFiling filing
    → (root : TrieNode13) (fp i j : ℕ) → HasShape filing root
    → i < 256
    → count_at root i j + 1 < 2 ^ 32
    → count_at (step filing root fp) i j
      ≡ (if is_filed fp && (filing.upper fp == i && filing.lower fp == j) then 1 else 0)
        + count_at root i j
unfolding step
step-count_at filing codes root fp i j shape h small = elim (Bool-cases (is_filed fp)) [
  | inl filed ↦
      rw (filed, insert-count_at filing codes root fp shape i j h)
        (elim (Bool-cases (filing.upper fp == i && filing.lower fp == j)) [
          | inl here ↦ rw here (mod-eq_of_lt small ∙ omega arith)
          | inr there ↦ rw there (omega arith)
        ])
  | inr special ↦ rw special (omega arith)
]
