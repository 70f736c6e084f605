-- ===== src/Trie1d/Conserve.antt =====
-- The trie of an array holds every value of it exactly once.
use air_tree.Common.{
  ℕ, zero, suc, ◌+◌, ◌^◌, ◌≤◌, ◌<◌, ◌≡◌, ◌∙◌, refl, sym, ap, arith, false, not, List, [], ◌∷◌, ◌==◌,
  at_or, at_or-replicate, replicate, length-replicate, at_or-beyond, ltb, Bool-cases, inl, inr,
  length,
}
use native.Mathlib.Nat.{mod-eq_of_lt, mod-lt}
use air_tree.Special.{SpecialCounts}
use air_tree.Populated.{test, empty_bins}
use air_tree.Populated.Laws.{test-empty_bins, empty_bins-AreWords}
use air_tree.Mask.RoundTrip.{AreWords}
use air_tree.Trie1d.{
  Filing, new_level1, TrieNode13Level1, TrieNode13, empty_level1, create_parent_node, process_array,
  roll_up_counts, exec_create_and_insert, count_observations,
}
use air_tree.Trie1d.Bump.{sum, sum-replicate, at_or-le-sum, sum_counts-sum}
use air_tree.Trie1d.Insert.{IsFiling, HasShape, count_at, tally, AreDoubles, total_special}
use air_tree.Trie1d.Process.{
  sum_nodes, process_array-count_at, process_array-HasShape, process_array-total, process_array-le,
  process_array-populated,
}
use air_tree.Trie1d.RollUp.{child_total, roll_up_counts_lem, roll_up_counts-populated}

at_or-full : {A : Type 0} (d x : A) (n i : ℕ) → i < n → at_or d (replicate n x) i ≡ x
at_or-full d x zero i h = absurd (omega arith)
at_or-full d x (suc n) zero h = refl
at_or-full d x (suc n) (suc i) h = at_or-full d x n i (omega arith)

sum_nodes-replicate :
    (n : ℕ) (node : TrieNode13Level1) → sum node.counts ≡ 0 → sum_nodes (replicate n node) ≡ 0
sum_nodes-replicate zero node empty = refl
sum_nodes-replicate (suc n) node empty = omega (arith, empty, sum_nodes-replicate n node empty)

module _ (filing : Filing) where
  -- The root before any insertion.
  parent : TrieNode13
  parent = create_parent_node filing

  child_of_parent : (i : ℕ) → i < 256 → at_or empty_level1 parent.nodes i ≡ new_level1 filing
  unfolding create_parent_node parent
  child_of_parent i h = at_or-full empty_level1 (new_level1 filing) 256 i h

  parent-HasShape : HasShape filing parent
  unfolding create_parent_node empty_bins parent
  parent-HasShape = record {
    nodes = length-replicate 256 (new_level1 filing);
    counters = λ i h. rw (child_of_parent i h) (length-replicate filing.bins1 0);
    counts = refl;
    words = refl;
  }

  count_at-parent : (i j : ℕ) → i < 256 → count_at parent i j ≡ 0
  count_at-parent i j h = rw (child_of_parent i h) (at_or-replicate 0 filing.bins1 j)

  sum_nodes-parent : sum_nodes parent.nodes ≡ 0
  unfolding create_parent_node parent
  sum_nodes-parent = sum_nodes-replicate 256 (new_level1 filing) (sum-replicate filing.bins1)

  parent-AreWords : AreWords parent.populated
  unfolding create_parent_node parent
  parent-AreWords = empty_bins-AreWords 256

  test-parent : (i : ℕ) → test parent.populated i ≡ false
  unfolding create_parent_node parent
  test-parent i = test-empty_bins 256 i

sum-le-sum_nodes :
    (nodes : List TrieNode13Level1) (k : ℕ)
    → sum (at_or empty_level1 nodes k).counts ≤ sum_nodes nodes
sum-le-sum_nodes [] k = omega arith
sum-le-sum_nodes (node ∷ nodes) zero = omega arith
sum-le-sum_nodes (node ∷ nodes) (suc k) = omega (arith, sum-le-sum_nodes nodes k)

sum-sum_nodes :
    (counts : List ℕ) (nodes : List TrieNode13Level1)
    → length counts ≡ length nodes
    → ((k : ℕ) → k < length nodes → at_or 0 counts k ≡ sum (at_or empty_level1 nodes k).counts)
    → sum counts ≡ sum_nodes nodes
sum-sum_nodes [] [] same each = refl
sum-sum_nodes [] (node ∷ nodes) same each = absurd (omega arith)
sum-sum_nodes (c ∷ counts) [] same each = absurd (omega arith)
sum-sum_nodes (c ∷ counts) (node ∷ nodes) same each = omega (
  arith,
  each 0 (omega arith),
  sum-sum_nodes counts nodes (omega arith) (λ k h. each (suc k) (omega arith)),
)

module _ (filing : Filing) (codes : IsFiling filing) (values : List ℕ) (c : SpecialCounts)
    (doubles : AreDoubles values) (small : length values < 2 ^ 32) where
  filled : TrieNode13
  filled = (process_array filing values (parent filing) c).0

  filled-HasShape : HasShape filing filled
  unfolding filled
  filled-HasShape =
      process_array-HasShape filing codes values (parent filing) c doubles (parent-HasShape filing)

  fits : sum_nodes (parent filing).nodes + length values < 2 ^ 32
  fits = omega (arith, sum_nodes-parent filing)

  child_total-sum : (k : ℕ) → child_total filled k ≡ sum (at_or empty_level1 filled.nodes k).counts
  unfolding filled
  child_total-sum k = mod-eq_of_lt (
      omega (
        arith,
        sum-le-sum_nodes filled.nodes k,
        process_array-le filing codes values (parent filing) c doubles (parent-HasShape filing)
            fits,
      ))

  -- After an array of fewer than 2 ^ 32 doubles, the counter under two indices, the first below 256,
  -- is the number of the values that are not special and whose code has these indices, the root's
  -- counter of a bin is the sum of its child's, and a bin is populated exactly if its counter is not 0.
  pub exec_create_and_insert-tally :
      (i j : ℕ)
      → i < 256
      → let root = (exec_create_and_insert filing values c).0 in
        (count_at root i j ≡ tally filing values i j)
        × (at_or 0 root.counts i ≡ sum (at_or empty_level1 root.nodes i).counts)
        × (test root.populated i ≡ not (at_or 0 root.counts i == 0))
  unfolding exec_create_and_insert filled parent
  exec_create_and_insert-tally i j hi =
      let rolled = roll_up_counts_lem filled i filled-HasShape.counts filled-HasShape.words hi in
      let unmarked : test filled.populated i ≡ false =
        ap (λ (t : List ℕ). test t i)
          (process_array-populated filing values (parent filing) c doubles)
        ∙ test-parent filing i in
      (
        rw rolled.2 (
            process_array-count_at filing codes values (parent filing) c i j doubles
              (parent-HasShape filing) hi (omega (arith, count_at-parent filing i j hi))
            ∙ omega (arith, count_at-parent filing i j hi)),
        rolled.0 ∙ rw rolled.2 (child_total-sum i),
        rolled.1 ∙ rw (unmarked, rolled.0) (ground arith),
      )

  -- The sizes and words of the arrays of the trie.
  pub exec_create_and_insert-shape :
      let root = (exec_create_and_insert filing values c).0 in
      HasShape filing root × AreWords root.populated × ((i : ℕ) → at_or 0 root.counts i < 2 ^ 32)
  unfolding exec_create_and_insert filled parent
  exec_create_and_insert-shape =
      let shape = filled-HasShape in
      let same = process_array-populated filing values (parent filing) c doubles in
      let before : AreWords filled.populated = rw same (parent-AreWords filing) in
      let (words, after) = roll_up_counts-populated filled shape.counts shape.words before in
      let rolled = roll_up_counts_lem filled 0 shape.counts shape.words (omega arith) in
      (
        record {
          nodes = rw rolled.2 shape.nodes;
          counters = λ i h. rw rolled.2 (shape.counters i h);
          counts = rolled.3;
          words = words;
        },
        after,
        λ i. elim (Bool-cases (ltb i 256)) [
          | inl inside ↦
              rw (roll_up_counts_lem filled i shape.counts shape.words (ground arith)).0
                (mod-lt _ (omega arith))
          | inr outside ↦
              rw (at_or-beyond 0 (roll_up_counts filled).counts i (ground (arith, rolled.3)))
                (omega arith)
        ],
      )

  rolled-total : sum (roll_up_counts filled).counts ≡ sum_nodes filled.nodes
  rolled-total =
      sum-sum_nodes (roll_up_counts filled).counts filled.nodes
        ((roll_up_counts_lem filled 0 filled-HasShape.counts filled-HasShape.words (omega arith)).3
          ∙ sym filled-HasShape.nodes)
        (λ k h.
          (roll_up_counts_lem filled k filled-HasShape.counts filled-HasShape.words
            (omega (arith, filled-HasShape.nodes))).0
          ∙ child_total-sum k)

  observed : count_observations (roll_up_counts filled).counts ≡ sum_nodes filled.nodes
  unfolding count_observations filled
  observed =
      let below =
        process_array-le filing codes values (parent filing) c doubles (parent-HasShape filing)
          fits in
      let whole =
        sum_counts-sum (roll_up_counts filled).counts 0 (omega (arith, rolled-total, below)) in
      rw whole (
        mod-eq_of_lt {n = 0 + sum (roll_up_counts filled).counts} {m = 2 ^ 32}
          (omega (arith, rolled-total, below))
        ∙ omega (arith, rolled-total))

  conserved :
      let (root, counts) = exec_create_and_insert filing values c in
      count_observations root.counts + total_special counts ≡ length values + total_special c
  unfolding exec_create_and_insert filled parent
  conserved =
      let kept =
        process_array-total filing codes values (parent filing) c doubles (parent-HasShape filing)
          fits in
      rw observed (kept ∙ omega (arith, sum_nodes-parent filing))

  -- No counter of the root passes the number of values.
  pub exec_create_and_insert-le :
      (i : ℕ)
      → at_or 0 (exec_create_and_insert filing values c).0.counts i
        ≤ length values + total_special c
  unfolding exec_create_and_insert filled parent
  exec_create_and_insert-le i =
      omega
        (arith, at_or-le-sum (roll_up_counts filled).counts i, rolled-total, observed, conserved)

module _ (filing : Filing) (codes : IsFiling filing) (values : List ℕ) (c : SpecialCounts)
    (doubles : AreDoubles values) (few : length values + total_special c < 2 ^ 31) where
  -- For an array of doubles that, with the special counters before, is of a number that an `int` holds, the
  -- observations of the trie and the special counters together are as many as the values and the
  -- special counters before, so that none is lost or counted twice; and the special counters
  -- together, hence each of them, are a number that an `int` holds.
  pub exec_create_and_insert-total :
      let (root, counts) = exec_create_and_insert filing values c in
      (count_observations root.counts + total_special counts ≡ length values + total_special c)
      × (total_special counts < 2 ^ 31)
  exec_create_and_insert-total =
      let all = conserved filing codes values c doubles (omega arith) in (all, omega (arith, all))
