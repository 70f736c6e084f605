-- ===== src/Trie1d/Process.antt =====
-- What `process_array` leaves in the counters.
use air_tree.Common.{
  ℕ, zero, suc, ◌+◌, ◌^◌, ◌<◌, ◌≡◌, ◌∙◌, refl, arith, List, [], ◌∷◌, if◌then◌else◌, at_or, modify,
  length, Bool-cases, inl, inr,
}
use air_tree.Special.{SpecialCounts}
use air_tree.Trie1d.{
  Filing, TrieNode13Level1, TrieNode13, empty_level1, bump_child, create_and_insert_fp,
  process_array,
}
use air_tree.Trie1d.Bump.{sum, sum-bump}
use air_tree.Trie1d.Insert.{
  HasShape, count_at, is_filed, tally, AreDoubles, total_special, step, process_array-step,
  step-HasShape, step-count_at, IsFiling,
}

-- All counters of the children.
abbrev pub sum_nodes : List TrieNode13Level1 → ℕ
sum_nodes [] = 0
sum_nodes (node ∷ nodes) = sum node.counts + sum_nodes nodes

sum_nodes-bump_child :
    (i k : ℕ) (nodes : List TrieNode13Level1)
    → i < length nodes
    → k < length (at_or empty_level1 nodes i).counts
    → sum_nodes nodes + 1 < 2 ^ 32
    → sum_nodes (modify i (bump_child k) nodes) ≡ 1 + sum_nodes nodes
sum_nodes-bump_child i k [] h hk small = absurd (omega arith)
sum_nodes-bump_child zero k (node ∷ nodes) h hk small =
    omega (arith, sum-bump k node.counts hk (omega arith))
sum_nodes-bump_child (suc i) k (node ∷ nodes) h hk small =
    omega (arith, sum_nodes-bump_child i k nodes (omega arith) hk (omega arith))

step-sum_nodes :
    (filing : Filing)
    → IsFiling filing
    → (root : TrieNode13) (fp : ℕ) → HasShape filing root
    → sum_nodes root.nodes + 1 < 2 ^ 32
    → sum_nodes (step filing root fp).nodes ≡ (if is_filed fp then 1 else 0) + sum_nodes root.nodes
unfolding step create_and_insert_fp
step-sum_nodes filing codes root fp shape small = elim (Bool-cases (is_filed fp)) [
  | inl filed ↦ rw filed (
      sum_nodes-bump_child (filing.upper fp) (filing.lower fp) root.nodes
        (omega (arith, shape.nodes, codes.upper fp))
        (omega (arith, shape.counters (filing.upper fp) (codes.upper fp), codes.lower fp)) small)
  | inr special ↦ rw special (omega arith)
]

-- The counters, the sizes and the totals after the values of an array.
pub process_array-count_at :
    (filing : Filing)
    → IsFiling filing
    → (values : List ℕ) (root : TrieNode13) (c : SpecialCounts) (i j : ℕ) → AreDoubles values
    → HasShape filing root
    → i < 256
    → count_at root i j + length values < 2 ^ 32
    → count_at (process_array filing values root c).0 i j
      ≡ tally filing values i j + count_at root i j
unfolding process_array
process_array-count_at filing codes [] root c i j h shape hi small = omega arith
process_array-count_at filing codes (v ∷ values) root c i j h shape hi small =
    let (c', _, e) = process_array-step filing v values root c h.0 in
    let one = step-count_at filing codes root v i j shape hi (omega arith) in
    let rest =
      process_array-count_at filing codes values (step filing root v) c' i j h.1
        (step-HasShape filing codes root v shape) hi (ground (arith, one)) in
    rw e (rest ∙ omega (arith, one))

pub process_array-HasShape :
    (filing : Filing)
    → IsFiling filing
    → (values : List ℕ) (root : TrieNode13) (c : SpecialCounts) → AreDoubles values
    → HasShape filing root
    → HasShape filing (process_array filing values root c).0
unfolding process_array
process_array-HasShape filing codes [] root c h shape = shape
process_array-HasShape filing codes (v ∷ values) root c h shape =
    let (c', _, e) = process_array-step filing v values root c h.0 in
    rw e (
      process_array-HasShape filing codes values (step filing root v) c' h.1
        (step-HasShape filing codes root v shape))

pub process_array-total :
    (filing : Filing)
    → IsFiling filing
    → (values : List ℕ) (root : TrieNode13) (c : SpecialCounts) → AreDoubles values
    → HasShape filing root
    → sum_nodes root.nodes + length values < 2 ^ 32
    → sum_nodes (process_array filing values root c).0.nodes
        + total_special (process_array filing values root c).1
      ≡ length values + sum_nodes root.nodes + total_special c
unfolding process_array
process_array-total filing codes [] root c h shape small = omega arith
process_array-total filing codes (v ∷ values) root c h shape small =
    let (c', counted, e) = process_array-step filing v values root c h.0 in
    let one = step-sum_nodes filing codes root v shape (omega arith) in
    let rest =
      process_array-total filing codes values (step filing root v) c' h.1
        (step-HasShape filing codes root v shape) (ground (arith, one)) in
    rw e (rest ∙ ground (arith, one, counted))

-- Every value is in at most one bin.
pub process_array-le :
    (filing : Filing)
    → IsFiling filing
    → (values : List ℕ) (root : TrieNode13) (c : SpecialCounts) → AreDoubles values
    → HasShape filing root
    → sum_nodes root.nodes + length values < 2 ^ 32
    → sum_nodes (process_array filing values root c).0.nodes < 2 ^ 32
unfolding process_array
process_array-le filing codes [] root c h shape small = omega arith
process_array-le filing codes (v ∷ values) root c h shape small =
    let (c', _, e) = process_array-step filing v values root c h.0 in
    let one = step-sum_nodes filing codes root v shape (omega arith) in
    rw e (
      process_array-le filing codes values (step filing root v) c' h.1
        (step-HasShape filing codes root v shape) (ground (arith, one)))

step-populated :
    (filing : Filing) (root : TrieNode13) (fp : ℕ)
    → (step filing root fp).populated ≡ root.populated
unfolding step create_and_insert_fp
step-populated filing root fp = elim (Bool-cases (is_filed fp)) [
  | inl filed ↦ rw filed refl
  | inr special ↦ rw special refl
]

-- The bins are marked later, by the roll-up.
pub process_array-populated :
    (filing : Filing) (values : List ℕ) (root : TrieNode13) (c : SpecialCounts)
    → AreDoubles values
    → (process_array filing values root c).0.populated ≡ root.populated
unfolding process_array
process_array-populated filing [] root c h = refl
process_array-populated filing (v ∷ values) root c h =
    let (c', _, e) = process_array-step filing v values root c h.0 in
    rw e (
      process_array-populated filing values (step filing root v) c' h.1
      ∙ step-populated filing root v)
