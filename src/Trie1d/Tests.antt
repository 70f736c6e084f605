-- ===== src/Trie1d/Tests.antt =====
-- The theorems on the trie of 13-bit codes at a concrete array.
use air_tree.Common.{
  ℕ, ◌+◌, ◌<◌, ◌^◌, ◌≡◌, refl, arith, List, [], ◌∷◌, ◌==◌, not, ◌||◌, at_or, replicate, length,
}
use air_tree.Special.{SpecialCounts}
use air_tree.Populated.{test}
use air_tree.Trie1d.{
  filing_13, TrieNode13, empty_level1, roll_up_counts, exec_create_and_insert, count_observations,
}
use air_tree.Trie1d.Bump.{sum}
use air_tree.Trie1d.Insert.{filing_13-IsFiling, count_at, tally, AreDoubles, total_special}
use air_tree.Trie1d.RollUp.{roll_up_counts_lem}
use air_tree.Trie1d.Conserve.{exec_create_and_insert-tally, exec_create_and_insert-total}

-- 5.0, a NaN, -1.0 and 5.0 again.
abbrev array : List ℕ
array = 0x4014000000000000 ∷ 0x7FF8000000000000 ∷ 0xBFF0000000000000 ∷ 0x4014000000000000 ∷ []

abbrev no_counts : SpecialCounts
no_counts = record {
  pos_inf_count = 0;
  neg_inf_count = 0;
  pos_zero_count = 0;
  neg_zero_count = 0;
  nan_count = 0;
}

array-AreDoubles : AreDoubles array
array-AreDoubles = omega arith

exec_create_and_insert-tally_example :
    let root = (exec_create_and_insert filing_13 array no_counts).0 in
    (count_at root 32 16 ≡ tally filing_13 array 32 16)
    × (at_or 0 root.counts 32 ≡ sum (at_or empty_level1 root.nodes 32).counts)
    × (test root.populated 32 ≡ not (at_or 0 root.counts 32 == 0))
exec_create_and_insert-tally_example =
    exec_create_and_insert-tally filing_13 filing_13-IsFiling array no_counts array-AreDoubles
      (omega arith) 32 16 (omega arith)

exec_create_and_insert-total_example :
    let (root, counts) = exec_create_and_insert filing_13 array no_counts in
    (count_observations root.counts + total_special counts ≡ 4 + 0)
    × (total_special counts < 2 ^ 31)
exec_create_and_insert-total_example =
    exec_create_and_insert-total filing_13 filing_13-IsFiling array no_counts array-AreDoubles
      (omega arith)

abbrev small_root : TrieNode13
small_root = record {
  populated = 0 ∷ 0 ∷ 0 ∷ 0 ∷ [];
  nodes = record { counts = 3 ∷ 4 ∷ [] } ∷ [];
  counts = replicate 256 0;
}

roll_up_counts_lem_example :
    (at_or 0 (roll_up_counts small_root).counts 0 ≡ 7)
    × (test (roll_up_counts small_root).populated 0 ≡ (not (7 == 0) || test small_root.populated 0))
    × ((roll_up_counts small_root).nodes ≡ small_root.nodes)
    × (length (roll_up_counts small_root).counts ≡ 256)
roll_up_counts_lem_example = roll_up_counts_lem small_root 0 refl refl (omega arith)
