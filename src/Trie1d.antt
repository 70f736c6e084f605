-- ===== src/Trie1d.antt =====
-- airtree-core/include/airtree/core/schema/trie1d/1DxT.hpp and 1DxF.hpp, src/schema/trie1d/1DxT.cpp and 1DxF.cpp:
-- the tries of 13-bit and of 16-bit codes, a root of 256 nodes with 32 or 256 counters each. The files have
-- the same functions; these are written once, for a filing of the values. The values are the bit patterns of the
-- doubles that the input is cast to. A counter is a `uint32_t` and wraps around.
pub mod Bump
pub mod Insert
pub mod Process
pub mod RollUp
pub mod Conserve
mod Tests
use air_tree.Common.{
  ℕ, zero, suc, ◌+◌, ◌%◌, ◌^◌, bit_and, Bool, true, false, not, List, [], ◌∷◌, ◌==◌, if◌then◌else◌,
  shr, at_or, modify, replicate,
}
use air_tree.Encoding.Codes.{create_internal_13bit, create_internal_16bit}
use air_tree.Special.{SpecialCounts, is_special_case}
use air_tree.Populated.{empty_bins, set}

pub record TrieNode13Level1 : Type 0 where
  pub counts : List ℕ

pub record TrieNode13 : Type 0 where
  pub populated : List ℕ
  pub nodes : List TrieNode13Level1
  pub counts : List ℕ

-- What is found where there is no child; every index of the code is that of a child.
abbrev pub empty_level1 : TrieNode13Level1
empty_level1 = record { counts = [] }

-- The number of counters of a child, and the two indices of a value.
pub record Filing : Type 0 where
  pub bins1 : ℕ
  pub upper : ℕ → ℕ
  pub lower : ℕ → ℕ

abbrev pub new_level1 : Filing → TrieNode13Level1
new_level1 filing = record { counts = replicate filing.bins1 0 }

-- `CreateParentNode`: every child is made at once.
unfoldable pub create_parent_node : Filing → TrieNode13
unfolding empty_bins
create_parent_node filing = record {
  populated = empty_bins 256;
  nodes = replicate 256 (new_level1 filing);
  counts = replicate 256 0;
}

-- `counts[i]++`.
abbrev pub bump : ℕ → List ℕ → List ℕ
bump i counts = modify i (λ n. (n + 1) % 2 ^ 32) counts

abbrev pub bump_child : ℕ → TrieNode13Level1 → TrieNode13Level1
bump_child i node = record { counts = bump i node.counts }

-- The two indices of a value by its 13-bit code.
unfoldable pub index8 : ℕ → ℕ
index8 fp = bit_and (shr (create_internal_13bit fp) 5) 0xFF

unfoldable pub index5 : ℕ → ℕ
index5 fp = bit_and (create_internal_13bit fp) 0x1F

abbrev pub filing_13 : Filing
filing_13 = record { bins1 = 32; upper = index8; lower = index5 }

-- The two indices of a value by its 16-bit code.
unfoldable pub index8_16 : ℕ → ℕ
index8_16 fp = bit_and (shr (create_internal_16bit fp) 8) 0xFF

unfoldable pub index8_level2 : ℕ → ℕ
index8_level2 fp = bit_and (create_internal_16bit fp) 0xFF

abbrev pub filing_16 : Filing
filing_16 = record { bins1 = 256; upper = index8_16; lower = index8_level2 }

unfoldable pub create_and_insert_fp : Filing → TrieNode13 → ℕ → TrieNode13
create_and_insert_fp filing node fp = record node {
  nodes = modify (filing.upper fp) (bump_child (filing.lower fp)) node.nodes;
}

-- The loop of `process_array`. The length of an array is an `int`, so that the lists that stand for arrays
-- are shorter than 2 ^ 31.
unfoldable pub process_array :
    Filing → List ℕ → TrieNode13 → SpecialCounts → TrieNode13 × SpecialCounts
process_array filing [] root counts = (root, counts)
process_array filing (fp ∷ values) root counts =
    let (special, counts') = is_special_case fp counts in
    process_array filing values (if not special then create_and_insert_fp filing root fp else root)
      counts'

-- `total += count` over the counters, on a `uint32_t`.
unfoldable pub add_counts : List ℕ → ℕ → ℕ
add_counts [] total = total
add_counts (c ∷ counts) total = add_counts counts ((total + c) % 2 ^ 32)

-- One round of `rollUpCounts`, and its loop with `n` rounds left and `i` done.
unfoldable pub roll_up_one : ℕ → TrieNode13 → TrieNode13
unfolding add_counts
roll_up_one i root =
    let total = add_counts (at_or empty_level1 root.nodes i).counts 0 in
    record root {
      counts = modify i (λ _. total) root.counts;
      populated = if not (total == 0) then set i root.populated else root.populated;
    }

unfoldable pub roll_up_loop : ℕ → ℕ → TrieNode13 → TrieNode13
roll_up_loop zero i root = root
roll_up_loop (suc n) i root = roll_up_loop n (suc i) (roll_up_one i root)

unfoldable pub roll_up_counts : TrieNode13 → TrieNode13
roll_up_counts root = roll_up_loop 256 0 root

unfoldable pub exec_create_and_insert : Filing → List ℕ → SpecialCounts → TrieNode13 × SpecialCounts
exec_create_and_insert filing values counts =
    let (root, counts') = process_array filing values (create_parent_node filing) counts in
    (roll_up_counts root, counts')

abbrev pub exec_create_and_insert_16 : List ℕ → SpecialCounts → TrieNode13 × SpecialCounts
exec_create_and_insert_16 values counts = exec_create_and_insert filing_16 values counts

-- The sum in `countObservations`, on a `uint64_t`, and its cast.
unfoldable pub sum_counts : List ℕ → ℕ → ℕ
sum_counts [] total = total
sum_counts (c ∷ counts) total = sum_counts counts ((total + c) % 2 ^ 64)

unfoldable pub count_observations : List ℕ → ℕ
unfolding sum_counts
count_observations counts = sum_counts counts 0 % 2 ^ 32
