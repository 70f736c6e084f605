-- ===== src/Node/Tests.antt =====
-- The theorems on nodes at a node of four bins.
use air_tree.Common.{
  ℕ, ◌<◌, ◌≡◌, refl, arith, List, [], ◌∷◌, ◌++◌, length, at_or, some, zero, suc, ◌^◌,
}
use air_tree.Node.{mask_from_counts, mask_words_loop, mask_loop, write_node, read_node}
use air_tree.Node.Masked.{length-mask_from_counts, mask_from_counts-AreWords, test-mask_from_counts}
use air_tree.Node.RoundTrip.{IsNode, read_node-write_node}

abbrev four : List ℕ
four = 3 ∷ 0 ∷ 500 ∷ 1 ∷ []

mask_of_four : mask_from_counts four 4 ≡ 13 ∷ []
unfolding mask_from_counts mask_words_loop mask_loop
mask_of_four = refl

four_fits : (j : ℕ) → at_or 0 four j < 2 ^ 32
four_fits zero = omega arith
four_fits (suc zero) = omega arith
four_fits (suc (suc zero)) = omega arith
four_fits (suc (suc (suc zero))) = omega arith
four_fits (suc (suc (suc (suc j)))) = omega arith

four-IsNode : IsNode 4 (mask_from_counts four 4) four
four-IsNode = record {
  words = mask_from_counts-AreWords four 4;
  mask_size = length-mask_from_counts four 4;
  size = refl;
  fits = four_fits;
  marks = λ j. test-mask_from_counts four 4 j refl;
}

read_node-write_node_example :
    (written : List ℕ) × (write_node (mask_from_counts four 4) 4 four (7 ∷ []) ≡ some written)
    × (read_node (written ++ (8 ∷ 9 ∷ [])) 1 4
        ≡ some (mask_from_counts four 4, four, length written))
read_node-write_node_example =
    read_node-write_node 4 (mask_from_counts four 4) four (7 ∷ []) (8 ∷ 9 ∷ []) four-IsNode
      (omega arith, tt) (omega arith, (omega arith, tt))
