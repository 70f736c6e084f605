-- ===== src/Merge/Tests.antt =====
-- The theorems on merging at two tries of two levels, and at two buffers of one level.
use mathlib.Core.List.{append-nil}
use air_tree.Common.{
  Option, none, ℕ, ◌+◌, ◌^◌, ◌<◌, ◌≤◌, ◌≡◌, refl, sym, arith, List, [], ◌∷◌, ◌++◌, length, at_or,
  some, zero, suc, AreBytes, AreBytes-append, Bool, Bool-cases, inl, inr, true, ltb, ◌&&◌,
}
use air_tree.Populated.{test}
use air_tree.Config.{lookup_config, lookup_params, builtins, register_generator, assign, find}
use air_tree.Header.Bytes.{Result, ok, at, read_le16, read_le32, read_le64, read_loop}
use air_tree.Header.Crc.{compute_crc32, crc_loop, crc_table, crc_entry}
use air_tree.Merge.AirTrees.{
  merge_air_trees, merge_read, read_headers, same_config, merge_air_trees-accepts,
}
use air_tree.Header.{
  check_magic, check_version, check_length, check_crc, check_config, populate, AirTreeHeader, found,
  deserialize_header,
}
use air_tree.Header.RoundTrip.{IsWire, HasByteTypes}
use air_tree.SetBits.Member.{mem}
use air_tree.SetBits.Order.{filter}
use air_tree.Node.{mask_from_counts}
use air_tree.Node.Masked.{length-mask_from_counts, mask_from_counts-AreWords, test-mask_from_counts}
use air_tree.Node.RoundTrip.{IsNode}
use air_tree.Merge.{merge_subtree}
use air_tree.Merge.Trees.{count_under, Tree, IsTree, encode, merge_trees, NoOverflow, total}
use air_tree.Merge.Placed.{Placed}
use air_tree.Merge.Skip.{node_bytes-IsBytes}
use air_tree.Merge.Refine.{Standing, Grows}
use air_tree.Merge.Count.{merge_trees-IsTree, encode-AreBytes}
use air_tree.Merge.Streaming.{merge_streaming}
use air_tree.Trie1d.{filing_13}
use air_tree.Trie1d.Insert.{tally}
use air_tree.Wire1d.Buffer.{generate_1dxt}
use air_tree.Wire1d.Generated.{all_values}
use air_tree.Merge.Arrays.{merge_air_trees-generate_1dxt}
use air_tree.Merge.Adds.{IsSum, HasSums, merge_subtree-adds, merge_streaming-adds}
use air_tree.Merge.Stored.{IsStored, AllStored, end_marker, merged}

abbrev four : List ℕ
four = 3 ∷ 0 ∷ 500 ∷ 1 ∷ []

abbrev bits : List ℕ
bits = mask_from_counts four 4

four_small : (j : ℕ) → at_or 0 four j ≤ 500
four_small zero = omega arith
four_small (suc zero) = omega arith
four_small (suc (suc zero)) = omega arith
four_small (suc (suc (suc zero))) = omega arith
four_small (suc (suc (suc (suc j)))) = omega arith

four-IsNode : IsNode 4 bits four
four-IsNode = record {
  words = mask_from_counts-AreWords four 4;
  mask_size = length-mask_from_counts four 4;
  size = refl;
  fits = λ j. omega (arith, four_small j);
  marks = λ j. test-mask_from_counts four 4 j refl;
}

abbrev leaf : Tree (4 ∷ [])
leaf = (bits, four, λ i. tt)

leaf-IsTree : IsTree (4 ∷ []) leaf
leaf-IsTree = (four-IsNode, λ i marked. tt)

abbrev levels : List ℕ
levels = 4 ∷ 4 ∷ []

abbrev tree : Tree levels
tree = (bits, four, λ i. leaf)

tree-IsTree : IsTree levels tree
tree-IsTree = (four-IsNode, λ i marked. leaf-IsTree)

abbrev both : List ℕ
both = 0 ∷ 1 ∷ []

both_small : (i : ℕ) → total (λ k. at_or 0 four i) both < 2 ^ 32
both_small i = omega (arith, four_small i)

some_small : (i j : ℕ) → total (λ k. at_or 0 four j) (filter (λ k. test bits i) both) < 2 ^ 32
some_small i j = elim (Bool-cases (test bits i)) [
  | inl marked ↦ rw marked (both_small j)
  | inr unmarked ↦ rw unmarked (omega arith)
]

both-NoOverflow : NoOverflow levels both (λ k. tree)
both-NoOverflow = (both_small, λ i. (λ j. some_small i j, λ j. tt))

abbrev input : List ℕ
input = (9 ∷ 8 ∷ []) ++ encode levels tree

standing : Standing levels (input ∷ input ∷ []) both (λ k. tree) (2 ∷ 2 ∷ [])
standing k h =
    let inside : Placed input 2 (encode levels tree) = record {
      front = 9 ∷ 8 ∷ [];
      rest = [];
      place = sym (append-nil input);
      start = refl;
      front_bytes = (omega arith, (omega arith, tt));
      own_bytes = encode-AreBytes levels tree tree-IsTree;
      rest_bytes = tt;
    } in
    at_both k h inside
  where
    at_both :
        (k : ℕ)
        → mem k both ≡ true
        → Placed input 2 (encode levels tree)
        → (k < 2)
          × (k < 2)
          × IsTree levels tree
          × Placed (at_or [] (input ∷ input ∷ []) k) (at_or 0 (2 ∷ 2 ∷ []) k) (encode levels tree)
    at_both zero h p = (omega arith, omega arith, tree-IsTree, p)
    at_both (suc zero) h p = (omega arith, omega arith, tree-IsTree, p)
    at_both (suc (suc k)) h p = absurd (ground arith)

merge_subtree-adds_example :
    (sum : Tree levels) × IsSum levels both (λ k. tree) sum
    × Grows both
        (λ j. encode levels tree)
        (encode levels sum)
        (2 ∷ 2 ∷ [])
        (7 ∷ [])
        (merge_subtree levels (input ∷ input ∷ []) both (2 ∷ 2 ∷ []) (7 ∷ []))
merge_subtree-adds_example =
    merge_subtree-adds 4 (4 ∷ []) (input ∷ input ∷ []) both (λ k. tree) (2 ∷ 2 ∷ []) (7 ∷ [])
      (omega arith, (omega arith, tt)) standing both-NoOverflow

abbrev header : AirTreeHeader
header = record {
  version = 1;
  header_length = 49;
  config = 0x10;
  data_types = (1, 1, 0, 0);
  payload_length = 1000;
  trie_count = 7;
  pos_inf_count = 1;
  neg_inf_count = 2;
  pos_zero_count = 3;
  neg_zero_count = 4;
  nan_count = 70000;
}

header_known : found (lookup_config 0x10) ≡ true
unfolding lookup_config lookup_params builtins register_generator assign find
header_known = refl

header-IsWire : IsWire header
header-IsWire = record {
  version = omega arith;
  header_length = refl;
  known = header_known;
  trie_count = omega arith;
  pos_inf_count = omega arith;
  neg_inf_count = omega arith;
  pos_zero_count = omega arith;
  neg_zero_count = omega arith;
  nan_count = omega arith;
}

header-HasByteTypes : HasByteTypes header
header-HasByteTypes = (omega arith, (omega arith, (omega arith, (omega arith, (omega arith, tt)))))

are_bytes : List ℕ → Bool
are_bytes [] = true
are_bytes (x ∷ xs) = ltb x 256 && are_bytes xs

are_bytes-AreBytes : (xs : List ℕ) → are_bytes xs ≡ true → AreBytes xs
unfolding are_bytes
are_bytes-AreBytes [] h = tt
are_bytes-AreBytes (x ∷ xs) h = (ground (arith, h), are_bytes-AreBytes xs (ground (arith, h)))

abbrev stored_header : List ℕ
stored_header =
    65 ∷ 73 ∷ 82 ∷ 84 ∷ 1 ∷ 0 ∷ 49 ∷ 0 ∷ 16 ∷ 1 ∷ 1 ∷ 0 ∷ 0 ∷ 232 ∷ 3 ∷ 0 ∷ 0 ∷ 0 ∷ 0 ∷ 0 ∷ 0 ∷ 7
    ∷ 0 ∷ 0 ∷ 0 ∷ 1 ∷ 0 ∷ 0 ∷ 0 ∷ 2 ∷ 0 ∷ 0 ∷ 0 ∷ 3 ∷ 0 ∷ 0 ∷ 0 ∷ 4 ∷ 0 ∷ 0 ∷ 0 ∷ 112 ∷ 17 ∷ 1 ∷ 0
    ∷ 146 ∷ 20 ∷ 178 ∷ 47 ∷ []

stored_header_bytes : are_bytes stored_header ≡ true
unfolding are_bytes
stored_header_bytes = refl

abbrev buffer : List ℕ
buffer = stored_header ++ (encode (4 ∷ []) leaf ++ end_marker)

buffer-IsStored : IsStored 4 [] buffer 49 leaf
buffer-IsStored = record {
  tree = leaf-IsTree;
  placed = record {
    front = stored_header;
    rest = [];
    place = sym (append-nil buffer);
    start = refl;
    front_bytes = are_bytes-AreBytes stored_header stored_header_bytes;
    own_bytes =
        AreBytes-append (encode (4 ∷ []) leaf) end_marker
          (encode-AreBytes (4 ∷ []) leaf leaf-IsTree)
          (omega arith, (omega arith, (omega arith, (omega arith, tt))));
    rest_bytes = tt;
  };
}

buffers-AllStored : AllStored 4 [] (buffer ∷ buffer ∷ []) header (header ∷ []) (λ k. leaf)
buffers-AllStored zero h = buffer-IsStored
buffers-AllStored (suc zero) h = buffer-IsStored
buffers-AllStored (suc (suc k)) h = absurd (ground arith)

merged_size :
    length (merged 4 [] (buffer ∷ buffer ∷ []) header (header ∷ []) (λ k. leaf)) + 4 < 2 ^ 64
unfolding encode
merged_size =
    let m : Tree (4 ∷ []) = merge_trees (4 ∷ []) both (λ k. leaf) in
    let node =
      merge_trees-IsTree (4 ∷ []) both (λ k. leaf) (λ k h. leaf-IsTree) (both_small, λ i. tt) in
    omega (arith, (node_bytes-IsBytes 4 m.0 m.1 node.0).size)

merge_streaming-adds_example :
    (out : List ℕ) × (h : AirTreeHeader) × (sum : Tree (4 ∷ [])) × (merge_streaming
        (buffer ∷ buffer ∷ [])
        header
        (header ∷ [])
        (4 ∷ [])
      ≡ ok (some out))
    × (deserialize_header out ≡ ok h)
    × HasSums (header ∷ header ∷ []) h
    × (h.config ≡ 0x10)
    × (h.payload_length ≡ length (encode (4 ∷ []) sum) + 4)
    × IsStored 4 [] out 49 sum
    × IsSum (4 ∷ []) both (λ k. leaf) sum
merge_streaming-adds_example =
    merge_streaming-adds 4 [] (buffer ∷ buffer ∷ []) header (header ∷ []) (λ k. leaf) refl
      header-IsWire header-HasByteTypes buffers-AllStored (both_small, λ i. tt) merged_size

-- 5.0, a NaN, -1.0 and 5.0 again; and 5.0 alone.
abbrev array : List ℕ
array = 0x4014000000000000 ∷ 0x7FF8000000000000 ∷ 0xBFF0000000000000 ∷ 0x4014000000000000 ∷ []

abbrev fives : List ℕ
fives = 0x4014000000000000 ∷ []

-- No merge of two buffers; these are not merged by it.
abbrev no_merge : List ℕ → List ℕ → Result (Option (List ℕ))
no_merge a b = ok none

merge_air_trees-generate_1dxt_example :
    (a : List ℕ) × (b : List ℕ) × (generate_1dxt array ≡ ok (some a))
    × (generate_1dxt fives ≡ ok (some b))
    × (out : List ℕ) × (h : AirTreeHeader) × (sum : Tree (256 ∷ 32 ∷ [])) × (merge_air_trees
          no_merge
          (a ∷ b ∷ [])
        ≡ ok (some out))
    × (deserialize_header out ≡ ok h)
    × (all_values h ≡ 5)
    × IsStored 256 (32 ∷ []) out 49 sum
    × (count_under (256 ∷ 32 ∷ []) sum (32 ∷ 16 ∷ [])
        ≡ tally filing_13 array 32 16 + tally filing_13 fives 32 16)
merge_air_trees-generate_1dxt_example =
    merge_air_trees-generate_1dxt no_merge array fives 32 16 (omega arith) (omega arith)
      (omega arith) (omega arith)

one_merged : merge_air_trees no_merge (stored_header ∷ []) ≡ ok (some stored_header)
unfolding merge_air_trees merge_read read_headers same_config deserialize_header check_magic
    check_version check_length check_crc check_config populate at read_le16 read_le32 read_le64
    read_loop compute_crc32 crc_loop crc_table crc_entry lookup_config lookup_params builtins
    register_generator assign find
one_merged = refl

merge_air_trees-accepts_example :
    (h : AirTreeHeader) × (hs : List AirTreeHeader) × (length (h ∷ hs) ≡ 1)
    × ((k : ℕ)
        → k < 1
        → (deserialize_header (at_or [] (stored_header ∷ []) k) ≡ ok (at_or h (h ∷ hs) k))
          × ((at_or h (h ∷ hs) k).config ≡ h.config))
merge_air_trees-accepts_example =
    merge_air_trees-accepts no_merge (stored_header ∷ []) stored_header one_merged
