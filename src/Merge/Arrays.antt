-- ===== src/Merge/Arrays.antt =====
-- The tries of two arrays, generated as buffers and merged: generate_1DxT, then mergeAirTrees.
use air_tree.Common.{
  ℕ, zero, suc, ◌+◌, ◌^◌, ◌<◌, ◌≡◌, ◌∙◌, refl, arith, true, List, [], ◌∷◌, length, at_or, Option,
  some, Bool-cases, inl, inr,
}
use air_tree.Populated.{test}
use air_tree.SetBits.Order.{filter}
use air_tree.SetBits.Member.{mem}
use air_tree.Header.Bytes.{Result, ok}
use air_tree.Header.{AirTreeHeader, deserialize_header}
use air_tree.Header.RoundTrip.{HasByteTypes}
use air_tree.Trie1d.{filing_13}
use air_tree.Trie1d.Insert.{tally, AreDoubles}
use air_tree.Wire1d.Buffer.{generate_1dxt}
use air_tree.Wire1d.Generated.{all_values}
use air_tree.Merge.Trees.{Tree, IsTree, merge_trees, NoOverflow, count_under, total}
use air_tree.Merge.Count.{merge_trees-IsTree}
use air_tree.Merge.Streaming.{streaming_levels}
use air_tree.Merge.AirTrees.{merge_air_trees, merge_air_trees-streaming}
use air_tree.Merge.Stored.{IsStored}
use air_tree.Merge.Adds.{HasSums, merge_streaming-adds}
use air_tree.Merge.Sizes.{length-encode}
use air_tree.Merge.Single.{
  trie, header, tree, generated, header_values-IsWire, root_counter-le, under-tally,
  child_counter-le, all_values-header,
}

module _ (xs ys : List ℕ) (dx : AreDoubles xs) (dy : AreDoubles ys)
    (few : length xs + length ys < 2 ^ 31) where
  few_x : length xs < 2 ^ 31
  few_x = omega arith

  few_y : length ys < 2 ^ 31
  few_y = omega arith

  abbrev both : ℕ → Tree (256 ∷ 32 ∷ [])
  both zero = tree xs
  both (suc k) = tree ys

  some_small :
      (i j : ℕ)
      → total (λ k. at_or 0 ((both k).2 i).1 j) (filter (λ k. test (both k).0 i) (0 ∷ 1 ∷ []))
        < 2 ^ 32
  some_small i j =
      let x = child_counter-le xs dx few_x i j in
      let y = child_counter-le ys dy few_y i j in
      elim (Bool-cases (test (trie xs).populated i)) [
        | inl in_x ↦ elim (Bool-cases (test (trie ys).populated i)) [
          | inl in_y ↦ rw (in_x, in_y) (omega (arith, x, y))
          | inr no_y ↦ rw (in_x, no_y) (omega (arith, x))
        ]
        | inr no_x ↦ elim (Bool-cases (test (trie ys).populated i)) [
          | inl in_y ↦ rw (no_x, in_y) (omega (arith, y))
          | inr no_y ↦ rw (no_x, no_y) (omega arith)
        ]
      ]

  both-NoOverflow : NoOverflow (256 ∷ 32 ∷ []) (0 ∷ 1 ∷ []) both
  both-NoOverflow = (
    λ i. omega (arith, root_counter-le xs dx few_x i, root_counter-le ys dy few_y i),
    λ i. (λ j. some_small i j, λ j. tt),
  )

  all_values-HasSums :
      (n m : ℕ) (h : AirTreeHeader)
      → HasSums (header xs n ∷ header ys m ∷ []) h
      → all_values h ≡ length xs + length ys
  all_values-HasSums n m h sums = omega (
    arith,
    all_values-header xs dx few_x n,
    all_values-header ys dy few_y m,
    sums.trie_count,
    sums.pos_inf_count,
    sums.neg_inf_count,
    sums.pos_zero_count,
    sums.neg_zero_count,
    sums.nan_count,
  )

-- What two inputs have, by number.
elim_two : (P : ℕ → Type 0) → P 0 → P 1 → (k : ℕ) → k < 2 → P k
elim_two P first second zero h = first
elim_two P first second (suc zero) h = second
elim_two P first second (suc (suc k)) h = absurd (omega arith)

-- For two arrays of doubles, of lengths of which an `int` holds the sum, generate_1DxT makes two buffers, and
-- mergeAirTrees makes one of these, whatever its merge of two buffers does: its header counts as many values
-- as the arrays have together, and it holds a well-formed trie in which the count under two indices, the first below 256, is the number of the values of both
-- arrays that are not special and whose code has these indices.
pub merge_air_trees-generate_1dxt :
    (merge_two : List ℕ → List ℕ → Result (Option (List ℕ))) (xs ys : List ℕ) (i j : ℕ)
    → AreDoubles xs
    → AreDoubles ys
    → length xs + length ys < 2 ^ 31
    → i < 256
    → (a : List ℕ) × (b : List ℕ) × (generate_1dxt xs ≡ ok (some a))
      × (generate_1dxt ys ≡ ok (some b))
      × (out : List ℕ) × (h : AirTreeHeader) × (sum : Tree (256 ∷ 32 ∷ [])) × (merge_air_trees
            merge_two
            (a ∷ b ∷ [])
          ≡ ok (some out))
      × (deserialize_header out ≡ ok h)
      × (all_values h ≡ length xs + length ys)
      × IsStored 256 (32 ∷ []) out 49 sum
      × (count_under (256 ∷ 32 ∷ []) sum (i ∷ j ∷ [])
          ≡ tally filing_13 xs i j + tally filing_13 ys i j)
unfolding streaming_levels
merge_air_trees-generate_1dxt merge_two xs ys i j dx dy few hi =
    let (a, n, made_a, read_a, stored_a) = generated xs dx (few_x xs ys dx dy few) in
    let (b, m, made_b, read_b, stored_b) = generated ys dy (few_y xs ys dx dy few) in
    let t : ℕ → Tree (256 ∷ 32 ∷ []) = both xs ys dx dy few in
    let overflow = both-NoOverflow xs ys dx dy few in
    let types : HasByteTypes (header xs n) =
      (omega arith, (omega arith, (omega arith, (omega arith, (omega arith, tt))))) in
    let stored_both : (k : ℕ)
        → k < 2
        → IsStored 256 (32 ∷ []) (at_or [] (a ∷ b ∷ []) k) (at_or 0 (49 ∷ 49 ∷ []) k) (t k) =
      elim_two
        (λ k. IsStored 256 (32 ∷ []) (at_or [] (a ∷ b ∷ []) k) (at_or 0 (49 ∷ 49 ∷ []) k) (t k))
        stored_a stored_b in
    let trees : (k : ℕ) → mem k (0 ∷ 1 ∷ []) ≡ true → IsTree (256 ∷ 32 ∷ []) (t k) =
      λ k h. (stored_both k (ground (arith, h))).tree in
    let size =
      length-encode 32 (merge_trees (256 ∷ 32 ∷ []) (0 ∷ 1 ∷ []) t)
        (merge_trees-IsTree (256 ∷ 32 ∷ []) (0 ∷ 1 ∷ []) t trees overflow) in
    let (out, h, sum, merged, read, sums, config, payload, stored_sum, adds) =
      merge_streaming-adds 256 (32 ∷ []) (a ∷ b ∷ []) (header xs n) (header ys m ∷ []) t refl
        (header_values-IsWire xs dx (few_x xs ys dx dy few) n) types stored_both overflow
        (omega (arith, size)) in
    (
      a,
      b,
      made_a,
      made_b,
      out,
      h,
      sum,
      merge_air_trees-streaming merge_two a b (header xs n) (header ys m) 256 (32 ∷ []) read_a
            read_b refl refl
          ∙ merged,
      read,
      all_values-HasSums xs ys dx dy few n m h sums,
      stored_sum,
      adds.adds (i ∷ j ∷ [])
          ∙ omega (
            arith,
            under-tally xs dx (few_x xs ys dx dy few) i j hi,
            under-tally ys dy (few_y xs ys dx dy few) i j hi,
          ),
    )
